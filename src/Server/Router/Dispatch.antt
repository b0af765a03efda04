-- ===== src/Server/Router/Dispatch.antt =====
-- The URLs that the manager gives out lead to the project they were made for.
use appx.Base.{
  subst, ◌⊎◌, ℕ, ◌≡◌, refl, sym, ap, ◌∙◌, inl, inr, true, false, not, ◌&&◌, none, some, List, [],
  ◌∷◌, ◌++◌, arith, Bool-cases, ◌==◌, if◌then◌else◌, length, length-append,
}
use appx.Text.{Text, codes, itoa, text_eq, has_byte}
use appx.Text.Equality.{text_eq→eq}
use appx.Text.Affix.{has_suffix-append, trim_suffix-append}
use appx.Text.Decimal.{itoa-Free}
use appx.Text.HostPort.{IsPlain, split_host_port_plain, split_host_port-none, has_byte-append}
use appx.Project.Name.{dev_suffix, validate_name}
use appx.Project.Name.Slug.{validate_name-IsSlug, validate_name-Free}
use appx.Project.Store.{Row, get_by_name, find_name, scan_into}
use appx.Project.Manager.{Manager, scheme, default_port, app_url, deployment_for}
use appx.Server.Router.{
  Route, proxy_to, environment_not_available, strip_port, is_alias, target_port, project_route,
  host_route, dispatch,
}

-- A URL of the given host and port part.
abbrev pub IsUrl : Manager → Text → Text → Type 0
IsUrl m url authority = url ≡ scheme m ++ codes "://" ++ authority

IsPlain-append : (a b : Text) → IsPlain a → IsPlain b → IsPlain (a ++ b)
IsPlain-append a b h k = record {
  no_colon = has_byte-append b':' a b ∙ rw h.no_colon k.no_colon;
  no_open = has_byte-append b'[' a b ∙ rw h.no_open k.no_open;
  no_close = has_byte-append b']' a b ∙ rw h.no_close k.no_close;
}

itoa-IsPlain : (n : ℕ) → IsPlain (itoa n)
itoa-IsPlain n = record {
  no_colon = itoa-Free b':' n (inr (omega arith));
  no_open = itoa-Free b'[' n (inr (omega arith));
  no_close = itoa-Free b']' n (inr (omega arith));
}

name-IsPlain : (name : Text) → validate_name name ≡ none → IsPlain name
name-IsPlain name v = record {
  no_colon = validate_name-Free b':' name refl v;
  no_open = validate_name-Free b'[' name refl v;
  no_close = validate_name-Free b']' name refl v;
}

cancel : (a s t : Text) → a ++ s ≡ a ++ t → s ≡ t
cancel [] s t e = e
cancel (x ∷ a) s t e = cancel a s t (let tails : a ++ s ≡ a ++ t = cc in tails)

strip_port_bare : (host : Text) → IsPlain host → strip_port host ≡ host
unfolding strip_port
strip_port_bare host h = ground (arith, split_host_port-none host h.no_colon)

strip_port_port :
    (host : Text) (port : ℕ) → IsPlain host → strip_port (host ++ b':' ∷ itoa port) ≡ host
unfolding strip_port
strip_port_port host port h =
    ground (arith, split_host_port_plain host (itoa port) h (itoa-IsPlain port))

-- The authority of a URL is the host, with or without the port.
app_url-authority :
    (m : Manager) (label authority : Text)
    → text_eq m.base_domain [] ≡ false
    → IsUrl m (app_url m label) authority
    → (authority ≡ label ++ b'.' ∷ m.base_domain)
      ⊎ (authority ≡ (label ++ b'.' ∷ m.base_domain) ++ b':' ∷ itoa m.external_port)
unfolding app_url
app_url-authority m label authority b u =
    elim (Bool-cases (not (m.external_port == 0) && not (m.external_port == default_port m))) [
      | inl with_port ↦ inr (
          sym (
            same ((label ++ b'.' ∷ m.base_domain) ++ b':' ∷ itoa m.external_port)
              (sym (written with_port) ∙ u)))
      | inr without ↦ inl (sym (same (label ++ b'.' ∷ m.base_domain) (sym (bare without) ∙ u)))
    ]
  where
    same :
        (host : Text)
        → scheme m ++ codes "://" ++ host ≡ scheme m ++ codes "://" ++ authority
        → host ≡ authority
    same host e = cancel (scheme m ++ codes "://") host authority e

    written :
        (not (m.external_port == 0) && not (m.external_port == default_port m)) ≡ true
        → app_url m label
          ≡ scheme m
            ++ codes "://"
            ++ ((label ++ b'.' ∷ m.base_domain) ++ b':' ∷ itoa m.external_port)
    written e = rw (app_url, e, b) refl

    bare :
        (not (m.external_port == 0) && not (m.external_port == default_port m)) ≡ false
        → app_url m label ≡ scheme m ++ codes "://" ++ (label ++ b'.' ∷ m.base_domain)
    bare e = rw (app_url, e, b) refl

-- The host of a URL of the manager is the label under the base domain.
app_url-strip_port :
    (m : Manager) (label authority : Text)
    → text_eq m.base_domain [] ≡ false
    → IsPlain (label ++ b'.' ∷ m.base_domain)
    → IsUrl m (app_url m label) authority
    → strip_port authority ≡ label ++ b'.' ∷ m.base_domain
app_url-strip_port m label authority b h u = elim (app_url-authority m label authority b u) [
  | inl bare ↦ ap strip_port bare ∙ strip_port_bare _ h
  | inr written ↦ ap strip_port written ∙ strip_port_port _ m.external_port h
]

-- A host below the base domain that is no alias goes to the project of its label.
host_route_below :
    (base : Text) (aliases : List Text) (rows : List Row) (label : Text)
    → text_eq label [] ≡ false
    → is_alias aliases (label ++ b'.' ∷ base) ≡ false
    → host_route base aliases true rows (label ++ b'.' ∷ base) ≡ project_route true rows label
unfolding host_route
host_route_below base aliases rows label nonempty no_alias = ground (
  arith,
  not_base,
  no_alias,
  has_suffix-append label (b'.' ∷ base),
  trim_suffix-append label (b'.' ∷ base),
  nonempty,
)
  where
    not_base : text_eq (label ++ b'.' ∷ base) base ≡ false
    not_base = elim (Bool-cases (text_eq (label ++ b'.' ∷ base) base)) [
      | inr different ↦ different
      | inl same ↦ absurd (
          omega (
            arith,
            ap length (text_eq→eq (label ++ b'.' ∷ base) base same),
            length-append label (b'.' ∷ base),
          ))
    ]

-- The answer for a port: zero is a port that was never assigned.
abbrev pub port_route : ℕ → Route
port_route port = if port == 0 then environment_not_available else proxy_to port

dispatch_label :
    (m : Manager) (aliases : List Text) (rows : List Row) (label authority : Text)
    → text_eq m.base_domain [] ≡ false
    → IsPlain m.base_domain
    → IsPlain label
    → text_eq label [] ≡ false
    → IsUrl m (app_url m label) authority
    → is_alias aliases (strip_port authority) ≡ false
    → dispatch m.base_domain aliases true rows authority ≡ project_route true rows label
unfolding dispatch
dispatch_label m aliases rows label authority b plain_base plain_label nonempty u no_alias =
    ground (
      arith,
      b,
      host,
      host_route_below m.base_domain aliases rows label nonempty
          (subst (λ h. is_alias aliases h ≡ false) host no_alias),
    )
  where
    host : strip_port authority ≡ label ++ b'.' ∷ m.base_domain
    host =
        app_url-strip_port m label authority b
          (IsPlain-append label (b'.' ∷ m.base_domain) plain_label (
            unfold has_byte in
            record {
              no_colon = plain_base.no_colon;
              no_open = plain_base.no_open;
              no_close = plain_base.no_close;
            }))
          u

nonempty-append : (name s : Text) → text_eq (name ++ b'-' ∷ s) [] ≡ false
unfolding text_eq
nonempty-append [] s = refl
nonempty-append (x ∷ name) s = refl

name-nonempty : (name : Text) → validate_name name ≡ none → text_eq name [] ≡ false
unfolding text_eq
name-nonempty [] v = absurd (omega (arith, (validate_name-IsSlug [] v).1))
name-nonempty (x ∷ name) v = refl

-- For a project in the table with a valid name, under a plain base domain that is not empty, with a
-- working database and no alias that takes the host, a request to the host of its PROD URL is
-- proxied to its assigned port, or told that there is none if that port is zero.
pub dispatch_prod :
    (m : Manager) (aliases : List Text) (rows : List Row) (r : Row) (authority : Text)
    → text_eq m.base_domain [] ≡ false
    → IsPlain m.base_domain
    → validate_name r.name ≡ none
    → find_name r.name rows ≡ some r
    → is_alias aliases (strip_port authority) ≡ false
    → IsUrl m (deployment_for m (scan_into r)).prod.url authority
    → dispatch m.base_domain aliases true rows authority ≡ port_route (scan_into r).assigned_port
dispatch_prod m aliases rows r authority b plain_base v found no_alias u =
    dispatch_label m aliases rows r.name authority b plain_base (name-IsPlain r.name v)
      (name-nonempty r.name v) (unfold deployment_for scan_into in u) no_alias
    ∙ unfold project_route get_by_name target_port in
      ground (arith, found, (validate_name-IsSlug r.name v).3)

-- For a project in the table with a valid name, under a plain base domain that is not empty, with a
-- working database and no alias that takes the host, a request to the host of its DEV URL is proxied
-- to its DEV port, or told that there is none if that port is zero.
pub dispatch_dev :
    (m : Manager) (aliases : List Text) (rows : List Row) (r : Row) (authority : Text)
    → text_eq m.base_domain [] ≡ false
    → IsPlain m.base_domain
    → validate_name r.name ≡ none
    → find_name r.name rows ≡ some r
    → is_alias aliases (strip_port authority) ≡ false
    → IsUrl m (deployment_for m (scan_into r)).dev.url authority
    → dispatch m.base_domain aliases true rows authority ≡ port_route (scan_into r).dev_port
dispatch_dev m aliases rows r authority b plain_base v found no_alias u =
    dispatch_label m aliases rows (r.name ++ dev_suffix) authority b plain_base
      (IsPlain-append r.name dev_suffix (name-IsPlain r.name v)
        (unfold has_byte in record { no_colon = refl; no_open = refl; no_close = refl }))
      (nonempty-append r.name _) (unfold deployment_for scan_into in u) no_alias
    ∙ unfold project_route get_by_name target_port in
      ground
        (arith, found, has_suffix-append r.name dev_suffix, trim_suffix-append r.name dev_suffix)
