-- ===== src/Text/Int.antt =====
-- Go's `int` where the program prints or reads one: strconv.Atoi and the verb %d.
use appx.Base.{
  ℕ, zero, suc, ◌-◌, ◌^◌, ◌≡◌, sym, ap, inl, inr, Bool, true, ◌&&◌, Option, none, some, [], ◌∷◌,
  arith, leb, ◌==◌, if◌then◌else◌,
}
use appx.Text.{Text, itoa, has_byte}
use appx.Text.Decimal.{itoa-injective, itoa-Free, value_from}
use appx.Text.Split.{Free}

-- `negsuc n` is -(n + 1).
pub data ℤ : Type 0 where
  pos : ℕ → ℤ
  negsuc : ℕ → ℤ

unfoldable pub print_int : ℤ → Text
unfolding itoa
print_int (pos n) = itoa n
print_int (negsuc n) = b'-' ∷ itoa (suc n)

-- The digits of a text that has at least one and nothing else.
all_digits : Text → Bool
all_digits [] = true
all_digits (d ∷ s) = leb b'0' d && leb d b'9' && all_digits s

unfoldable pub magnitude : Text → Option ℕ
unfolding all_digits
magnitude [] = none
magnitude (d ∷ s) = if all_digits (d ∷ s) then some (value_from 0 (d ∷ s)) else none

abbrev negate : ℕ → ℤ
negate zero = pos 0
negate (suc n) = negsuc n

abbrev within : ℕ → ℕ → ℤ → Option ℤ
within limit n value = if leb n limit then some value else none

-- strconv.Atoi: one sign at most, then digits, within 64 bits.
unfoldable pub atoi : Text → Option ℤ
unfolding magnitude
atoi [] = none
atoi (c ∷ s) =
    if c == b'-'
    then elim (magnitude s) [ none ↦ none | some n ↦ within (2 ^ 63) n (negate n) ]
    else if c == b'+'
    then elim (magnitude s) [ none ↦ none | some n ↦ within (2 ^ 63 - 1) n (pos n) ]
    else elim (magnitude (c ∷ s)) [ none ↦ none | some n ↦ within (2 ^ 63 - 1) n (pos n) ]

no_minus : (n : ℕ) → Free b'-' (itoa n)
no_minus n = itoa-Free b'-' n (inl (omega arith))

minus_ne : (m n : ℕ) {A : Type 0} → itoa m ≡ b'-' ∷ itoa n → A
unfolding has_byte
minus_ne m n e = cc (no_minus m, ap (has_byte b'-') e)

pub print_int-injective : (a b : ℤ) → print_int a ≡ print_int b → a ≡ b
unfolding print_int
print_int-injective (pos m) (pos n) e = ap pos (itoa-injective m n e)
print_int-injective (pos m) (negsuc n) e = minus_ne m (suc n) e
print_int-injective (negsuc m) (pos n) e = minus_ne n (suc m) (sym e)
print_int-injective (negsuc m) (negsuc n) e =
    let tails : itoa (suc m) ≡ itoa (suc n) = cc e in
    let same : suc m ≡ suc n = itoa-injective (suc m) (suc n) tails in
    let eq : m ≡ n = omega (arith, same) in ap negsuc eq

pub print_int-no_colon : (a : ℤ) → Free b':' (print_int a)
unfolding print_int has_byte
print_int-no_colon (pos n) = itoa-Free b':' n (inr (omega arith))
print_int-no_colon (negsuc n) = itoa-Free b':' (suc n) (inr (omega arith))

pub print_int-no_star : (a : ℤ) → Free b'*' (print_int a)
unfolding print_int has_byte
print_int-no_star (pos n) = itoa-Free b'*' n (inl (omega arith))
print_int-no_star (negsuc n) = itoa-Free b'*' (suc n) (inl (omega arith))
