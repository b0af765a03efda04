-- ===== src/Text.antt =====
-- Go strings as lists of bytes, with what the program uses of the package `strings` and of
-- decimal printing. The laws are in the modules below.
pub mod Equality
pub mod Split
pub mod Affix
pub mod Decimal
pub mod Int
pub mod HostPort
use Prim.Native.Char.{code}
use Prim.Native.String.{String}
use appx.Base.{
  ℕ, zero, suc, ◌+◌, ◌-◌, ◌*◌, ◌/◌, ◌%◌, Bool, true, false, ◌&&◌, ◌||◌, Option, none, some, List,
  [], ◌∷◌, ◌++◌, ltb, leb, ◌==◌, if◌then◌else◌, length, take, drop,
}

abbrev pub Text : Type 0
Text = List ℕ

-- The bytes of an ASCII literal.
abbrev pub codes : String → Text
codes String.[] = []
codes (String.◌∷◌ c s) = code c ∷ codes s

unfoldable pub text_eq : Text → Text → Bool
text_eq [] [] = true
text_eq [] (y ∷ ys) = false
text_eq (x ∷ xs) [] = false
text_eq (x ∷ xs) (y ∷ ys) = x == y && text_eq xs ys

-- A byte occurs in the text: strings.Contains with a pattern of one byte.
unfoldable pub has_byte : ℕ → Text → Bool
has_byte c [] = false
has_byte c (x ∷ xs) = x == c || has_byte c xs

-- strings.HasPrefix(s, p)
unfoldable pub has_prefix : Text → Text → Bool
has_prefix s [] = true
has_prefix [] (p ∷ ps) = false
has_prefix (x ∷ s) (p ∷ ps) = x == p && has_prefix s ps

-- strings.HasSuffix(s, p): the length test, then the comparison of the tail.
unfoldable pub has_suffix : Text → Text → Bool
unfolding text_eq
has_suffix s p = leb (length p) (length s) && text_eq (drop (length s - length p) s) p

-- strings.TrimSuffix(s, p)
unfoldable pub trim_suffix : Text → Text → Text
unfolding has_suffix
trim_suffix s p = if has_suffix s p then take (length s - length p) s else s

-- strings.TrimPrefix(s, p)
unfoldable pub trim_prefix : Text → Text → Text
unfolding has_prefix
trim_prefix s p = if has_prefix s p then drop (length p) s else s

-- strings.Index(s, p): the first position at which `p` occurs.
unfoldable pub index_of : Text → Text → Option ℕ
unfolding has_prefix
index_of [] p = if has_prefix [] p then some 0 else none
index_of (x ∷ s) p =
    let rest = index_of s p in
    if has_prefix (x ∷ s) p then some 0 else elim rest [ none ↦ none | some i ↦ some (suc i) ]

abbrev pub cons_first : ℕ → List Text → List Text
cons_first x [] = (x ∷ []) ∷ []
cons_first x (p ∷ ps) = (x ∷ p) ∷ ps

-- strings.Split(s, c) at a separator of one byte: always at least one part.
unfoldable pub split : ℕ → Text → List Text
split c [] = [] ∷ []
split c (x ∷ xs) =
    let rest = split c xs in elim (x == c) [ true ↦ [] ∷ rest | false ↦ cons_first x rest ]

-- strings.Join(parts, c)
unfoldable pub join : ℕ → List Text → Text
join c [] = []
join c (p ∷ []) = p
join c (p ∷ q ∷ ps) = p ++ c ∷ join c (q ∷ ps)

-- fmt's %d on a number that is not negative: at most `fuel` digits.
unfoldable pub digits : ℕ → ℕ → Text
digits zero n = []
digits (suc fuel) n =
    let rest = digits fuel (n / 10) in
    elim (ltb n 10) [ true ↦ (48 + n) ∷ [] | false ↦ rest ++ (48 + n % 10) ∷ [] ]

-- A number has fewer digits than its value plus two.
unfoldable pub itoa : ℕ → Text
unfolding digits
itoa n = digits (suc n) n

-- strings.TrimRight(s, c) with one byte.
unfoldable pub trim_right : ℕ → Text → Text
trim_right c [] = []
trim_right c (x ∷ s) =
    let rest = trim_right c s in if x == c && text_eq rest [] then [] else x ∷ rest

-- What is behind the last `c`, if there is one: s[strings.LastIndex(s, c)+1:].
unfoldable pub after_last : ℕ → Text → Option Text
after_last c [] = none
after_last c (x ∷ s) =
    let rest = after_last c s in
    elim rest [ some t ↦ some t | none ↦ if x == c then some s else none ]
