-- ===== src/Egress/Store/Allowed.antt =====
-- What the allowlist admits.
use appx.Base.{
  some, ap₂, take, drop, length, take-length, drop-length, ◌≡◌, ◌↔◌, refl, sym, ap, ◌∙◌, inl, inr,
  true, false, ◌||◌, List, [], ◌∷◌, ◌++◌, arith, All, Any, Bool-cases,
}
use appx.Text.{Text, text_eq, has_byte, has_suffix, trim_suffix}
use appx.Text.Equality.{text_eq→eq, text_eq_refl}
use appx.Text.Affix.{has_suffix-append, trim_suffix-append, trim_suffix_lem}
use appx.Text.Split.{Free}
use appx.Text.HostPort.{last_index_byte, last_index_byte-append}
use appx.Text.Int.{ℤ, print_int, print_int-injective, print_int-no_colon}
use appx.Egress.Glob.{star, wildcard_host_match}
use appx.Egress.Store.{member, port_suffix, key, wildcard_entry, any_entry, is_allowed}

-- An entry admits a destination if it is its key, or a pattern for its host with its port.
pub data Admits (host : Text) (port : ℤ) (entry : Text) : Type 0 where
  exact : entry ≡ key host port → Admits host port entry
  wildcard :
      (pattern : Text)
      → entry ≡ pattern ++ port_suffix port
      → has_byte star entry ≡ true
      → wildcard_host_match pattern host ≡ true
      → Admits host port entry

module _ (host : Text) (port : ℤ) where
  member-Any : (es : List Text) → member (key host port) es ≡ true → Any (Admits host port) es
  unfolding member
  member-Any [] h = cc
  member-Any (e ∷ es) h = elim (Bool-cases (text_eq e (key host port))) [
    | inl same ↦ inl (exact (text_eq→eq e (key host port) same))
    | inr other ↦ inr (member-Any es (ground arith))
  ]

  wildcard_entry_parts :
      (e : Text)
      → wildcard_entry host port e ≡ true
      → (has_byte star e ≡ true)
        × (has_suffix e (port_suffix port) ≡ true)
        × (wildcard_host_match (trim_suffix e (port_suffix port)) host ≡ true)
  unfolding wildcard_entry
  wildcard_entry_parts e h = ground arith

  wildcard_entry-Admits : (e : Text) → wildcard_entry host port e ≡ true → Admits host port e
  wildcard_entry-Admits e h =
      let (starred, ends, matches) = wildcard_entry_parts e h in
      wildcard (trim_suffix e (port_suffix port)) (sym (trim_suffix_lem e (port_suffix port) ends))
        starred matches

  any_entry-Any :
      (es : List Text) → any_entry (wildcard_entry host port) es ≡ true → Any (Admits host port) es
  unfolding any_entry
  any_entry-Any [] h = cc
  any_entry-Any (e ∷ es) h = elim (Bool-cases (wildcard_entry host port e)) [
    | inl hit ↦ inl (wildcard_entry-Admits e hit)
    | inr miss ↦ inr (any_entry-Any es (ground arith))
  ]

  Admits-tests :
      (e : Text)
      → Admits host port e
      → (text_eq e (key host port) || wildcard_entry host port e) ≡ true
  Admits-tests e (exact same) = rw (same, text_eq_refl (key host port)) refl
  Admits-tests e (wildcard p same starred matches) =
      let ends : has_suffix e (port_suffix port) ≡ true =
        rw same (has_suffix-append p (port_suffix port)) in
      let trimmed : trim_suffix e (port_suffix port) ≡ p =
        rw same (trim_suffix-append p (port_suffix port)) in
      unfold wildcard_entry in ground (arith, ends, trimmed, starred, matches)

  Any-tests :
      (es : List Text)
      → Any (Admits host port) es
      → (member (key host port) es || any_entry (wildcard_entry host port) es) ≡ true
  unfolding member any_entry
  Any-tests [] a = absurd a
  Any-tests (e ∷ es) (inl a) = ground (arith, Admits-tests e a)
  Any-tests (e ∷ es) (inr a) = ground (arith, Any-tests es a)

-- A destination is allowed exactly when some entry of the allowlist admits it.
pub is_allowed_iff :
    (es : List Text) (host : Text) (port : ℤ)
    → (is_allowed es host port ≡ true) ↔ Any (Admits host port) es
unfolding is_allowed
is_allowed_iff es host port = (to, from)
  where
    to : is_allowed es host port ≡ true → Any (Admits host port) es
    to h = elim (Bool-cases (member (key host port) es)) [
      | inl hit ↦ member-Any host port es hit
      | inr miss ↦ any_entry-Any host port es (ground arith)
    ]

    from : Any (Admits host port) es → is_allowed es host port ≡ true
    from a = ground (arith, Any-tests host port es a)

no_wildcard :
    (host : Text) (port : ℤ) (es : List Text)
    → All (Free star) es
    → any_entry (wildcard_entry host port) es ≡ false
unfolding any_entry wildcard_entry
no_wildcard host port [] f = refl
no_wildcard host port (e ∷ es) f = ground (arith, no_wildcard host port es f.1)

-- With no wildcard in the list, only the listed keys are allowed.
pub is_allowed_plain :
    (es : List Text) (host : Text) (port : ℤ)
    → All (Free star) es
    → is_allowed es host port ≡ member (key host port) es
unfolding is_allowed
is_allowed_plain es host port f = ground (arith, no_wildcard host port es f)

key_cut : (h : Text) (p : ℤ) → last_index_byte b':' (key h p) ≡ some (length h)
unfolding key port_suffix
key_cut h p = last_index_byte-append b':' h (print_int p) (print_int-no_colon p)

-- The key of a destination tells its host and its port.
pub key-injective : (h k : Text) (p q : ℤ) → key h p ≡ key k q → (h ≡ k) × (p ≡ q)
key-injective h k p q e = (hosts, print_int-injective p q ports)
  where
    lengths : length h ≡ length k
    lengths = cc (key_cut h p, key_cut k q, ap (last_index_byte b':') e)

    hosts : h ≡ k
    hosts =
        sym (take-length h (port_suffix p))
        ∙ unfold key in ap₂ take lengths e ∙ take-length k (port_suffix q)

    suffixes : port_suffix p ≡ port_suffix q
    suffixes =
        sym (drop-length h (port_suffix p))
        ∙ unfold key in ap₂ drop lengths e ∙ drop-length k (port_suffix q)

    ports : print_int p ≡ print_int q
    ports = unfold port_suffix in cc suffixes
