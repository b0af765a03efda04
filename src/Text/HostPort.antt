-- ===== src/Text/HostPort.antt =====
-- net.SplitHostPort, which the proxy, the router and the rate limiter apply to addresses.
use appx.Base.{
  ap₂, ℕ, suc, ◌+◌, ◌≡◌, refl, ap, ◌∙◌, Bool, false, ◌||◌, Option, none, some, [], ◌∷◌, ◌++◌, arith,
  ◌==◌, if◌then◌else◌, length, take, drop, take-length, drop-append_ge,
}
use appx.Text.{Text, has_byte}
use appx.Text.Split.{Free}

-- The position of the first, and of the last, occurrence of a byte.
unfoldable pub index_byte : ℕ → Text → Option ℕ
index_byte c [] = none
index_byte c (x ∷ s) =
    let rest = index_byte c s in
    if x == c then some 0 else elim rest [ none ↦ none | some i ↦ some (suc i) ]

unfoldable pub last_index_byte : ℕ → Text → Option ℕ
last_index_byte c [] = none
last_index_byte c (x ∷ s) = elim (last_index_byte c s) [
  | some i ↦ some (suc i)
  | none ↦ if x == c then some 0 else none
]

abbrev starts_bracket : Text → Bool
starts_bracket [] = false
starts_bracket (x ∷ s) = x == b'['

-- `i` is the position of the last colon, `end` that of the first closing bracket.
split_bracketed : Text → ℕ → Option (Text × Text)
split_bracketed s i = elim (index_byte b']' s) [
  | none ↦ none
  | some end ↦
      if end + 1 == i
      then if has_byte b'[' (drop 1 s)
        then none
        else if has_byte b']' (drop (end + 1) s)
        then none
        else some (drop 1 (take end s), drop (i + 1) s)
      else none
]

split_plain : Text → ℕ → Option (Text × Text)
split_plain s i =
    if has_byte b':' (take i s)
    then none
    else if has_byte b'[' s || has_byte b']' s
    then none
    else some (take i s, drop (i + 1) s)

unfoldable pub split_host_port : Text → Option (Text × Text)
unfolding split_bracketed split_plain
split_host_port s = elim (last_index_byte b':' s) [
  | none ↦ none
  | some i ↦ if starts_bracket s then split_bracketed s i else split_plain s i
]

last_index_byte-none : (c : ℕ) (b : Text) → Free c b → last_index_byte c b ≡ none
unfolding last_index_byte has_byte
last_index_byte-none c [] h = refl
last_index_byte-none c (x ∷ b) h = ground (arith, last_index_byte-none c b)

pub last_index_byte-append :
    (c : ℕ) (a b : Text) → Free c b → last_index_byte c (a ++ c ∷ b) ≡ some (length a)
unfolding last_index_byte
last_index_byte-append c [] b h = ground (arith, last_index_byte-none c b h)
last_index_byte-append c (x ∷ a) b h = ground (arith, last_index_byte-append c a b h)

pub has_byte-append : (c : ℕ) (a b : Text) → has_byte c (a ++ b) ≡ (has_byte c a || has_byte c b)
unfolding has_byte
has_byte-append c [] b = refl
has_byte-append c (x ∷ a) b = ground (arith, has_byte-append c a b)

-- The bytes that are special in an address.
pub record IsPlain (s : Text) : Type 0 where
  pub no_colon : Free b':' s
  pub no_open : Free b'[' s
  pub no_close : Free b']' s

plain_start : (host port : Text) → IsPlain host → starts_bracket (host ++ b':' ∷ port) ≡ false
unfolding has_byte
plain_start [] port h = refl
plain_start (x ∷ host) port h = let f : has_byte b'[' (x ∷ host) ≡ false = h.no_open in ground arith

-- Without a colon there is no port.
pub split_host_port-none : (s : Text) → Free b':' s → split_host_port s ≡ none
unfolding split_host_port
split_host_port-none s h = ground (arith, last_index_byte-none b':' s h)

split_host_port-split_plain :
    (s : Text) (i : ℕ)
    → last_index_byte b':' s ≡ some i
    → starts_bracket s ≡ false
    → split_host_port s ≡ split_plain s i
unfolding split_host_port
split_host_port-split_plain s i e f = ground arith

split_plain_lem :
    (s : Text) (i : ℕ)
    → has_byte b':' (take i s) ≡ false
    → (has_byte b'[' s ≡ false) × (has_byte b']' s ≡ false)
    → split_plain s i ≡ some (take i s, drop (i + 1) s)
unfolding split_plain
split_plain_lem s i c h = ground arith

-- A plain host and a plain port come back from their address.
pub split_host_port_plain :
    (host port : Text)
    → IsPlain host
    → IsPlain port
    → split_host_port (host ++ b':' ∷ port) ≡ some (host, port)
split_host_port_plain host port h k =
    split_host_port-split_plain _ (length host) (last_index_byte-append b':' host port k.no_colon)
      (plain_start host port h)
    ∙ split_plain_lem _ (length host) (rw (take-length host (b':' ∷ port)) h.no_colon)
        (opens, closes)
    ∙ ap some (ap₂ (λ (a b : Text). (a, b)) (take-length host (b':' ∷ port)) skipped)
  where
    opens : has_byte b'[' (host ++ b':' ∷ port) ≡ false
    opens = has_byte-append b'[' host (b':' ∷ port) ∙ rw h.no_open (unfold has_byte in k.no_open)

    closes : has_byte b']' (host ++ b':' ∷ port) ≡ false
    closes = has_byte-append b']' host (b':' ∷ port) ∙ rw h.no_close (unfold has_byte in k.no_close)

    skipped : drop (length host + 1) (host ++ b':' ∷ port) ≡ port
    skipped = drop-append_ge (length host + 1) 1 host (b':' ∷ port) refl
