-- ===== src/Text/Decimal.antt =====
-- Decimal printing: different numbers have different texts, of digits only.
use appx.Base.{
  ℕ, zero, suc, ◌+◌, ◌*◌, ◌/◌, ◌%◌, ◌<◌, ◌≡◌, refl, ap, ◌∙◌, sym, ◌⊎◌, inl, inr, true, false, [],
  ◌∷◌, ◌++◌, arith, ltb, ltb→lt, ltb_false→le, Bool-cases, ◌-◌,
}
use appx.Text.{Text, digits, itoa, has_byte}
use appx.Text.Split.{Free}

-- The value of a text of digits, read from the left.
abbrev pub value_from : ℕ → Text → ℕ
value_from acc [] = acc
value_from acc (d ∷ s) = value_from (acc * 10 + (d - 48)) s

value_from-append :
    (acc : ℕ) (s t : Text) → value_from acc (s ++ t) ≡ value_from (value_from acc s) t
value_from-append acc [] t = refl
value_from-append acc (d ∷ s) t = value_from-append (acc * 10 + (d - 48)) s t

digits_small : (fuel n : ℕ) → ltb n 10 ≡ true → digits (suc fuel) n ≡ (48 + n) ∷ []
unfolding digits
digits_small fuel n e = ground arith

digits_big :
    (fuel n : ℕ)
    → ltb n 10 ≡ false
    → digits (suc fuel) n ≡ digits fuel (n / 10) ++ (48 + n % 10) ∷ []
unfolding digits
digits_big fuel n e = ground arith

value-digits : (fuel n : ℕ) → n < fuel → value_from 0 (digits fuel n) ≡ n
value-digits zero n h = absurd (omega arith)
value-digits (suc fuel) n h = elim (Bool-cases (ltb n 10)) [
  | inl small ↦ rw (digits_small fuel n small) (omega arith)
  | inr big ↦ rw (digits_big fuel n big) (
      value_from-append 0 (digits fuel (n / 10)) ((48 + n % 10) ∷ [])
      ∙ omega (arith, value-digits fuel (n / 10) (omega (arith, ltb_false→le n 10 big))))
]

pub value-itoa : (n : ℕ) → value_from 0 (itoa n) ≡ n
unfolding itoa
value-itoa n = value-digits (suc n) n (omega arith)

-- Printing loses nothing.
pub itoa-injective : (m n : ℕ) → itoa m ≡ itoa n → m ≡ n
itoa-injective m n e = sym (value-itoa m) ∙ ap (value_from 0) e ∙ value-itoa n

has_byte-append : (c : ℕ) (s t : Text) → Free c s → Free c t → Free c (s ++ t)
unfolding has_byte
has_byte-append c [] t h k = k
has_byte-append c (x ∷ s) t h k = ground (arith, has_byte-append c s t)

digits-Free : (c fuel n : ℕ) → (c < 48) ⊎ (57 < c) → Free c (digits fuel n)
digits-Free c zero n h = unfold has_byte digits in refl
digits-Free c (suc fuel) n h = elim (Bool-cases (ltb n 10)) [
  | inl small ↦
      rw (digits_small fuel n small) (unfold has_byte in ground (arith, ltb→lt n 10 small))
  | inr big ↦ rw (digits_big fuel n big) (
      has_byte-append c (digits fuel (n / 10)) ((48 + n % 10) ∷ []) (digits-Free c fuel (n / 10) h)
        (unfold has_byte in ground arith))
]

-- A byte that is no digit does not occur.
pub itoa-Free : (c n : ℕ) → (c < 48) ⊎ (57 < c) → Free c (itoa n)
unfolding itoa
itoa-Free c n h = digits-Free c (suc n) n h
