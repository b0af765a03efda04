-- ===== src/Text/Affix.antt =====
-- Prefixes and suffixes.
use appx.Base.{
  ◌-◌, ◌≤◌, ◌≡◌, refl, ap, ap₂, ◌∙◌, sym, true, [], ◌∷◌, ◌++◌, arith, length, take, drop,
  length-append, drop-length, take-length, take-drop, leb→le, le→leb, and-eq_true, ==_iff,
}
use appx.Text.{Text, has_prefix, has_suffix, trim_suffix, trim_prefix}
use appx.Text.Equality.{text_eq→eq, text_eq_refl}

pub has_prefix-append : (p s : Text) → has_prefix (p ++ s) p ≡ true
unfolding has_prefix
has_prefix-append [] s = refl
has_prefix-append (x ∷ p) s = ground (arith, has_prefix-append p s)

pub has_prefix-IsPrefix : (s p : Text) → has_prefix s p ≡ true → s ≡ p ++ drop (length p) s
unfolding has_prefix
has_prefix-IsPrefix s [] h = refl
has_prefix-IsPrefix [] (x ∷ p) h = cc
has_prefix-IsPrefix (y ∷ s) (x ∷ p) h =
    let both = and-eq_true _ _ h in ap₂ ◌∷◌ ((==_iff y x).0 both.0) (has_prefix-IsPrefix s p both.1)

cut_end : (a p : Text) → drop (length (a ++ p) - length p) (a ++ p) ≡ p
cut_end a p = ap (λ k. drop k (a ++ p)) (omega (arith, length-append a p)) ∙ drop-length a p

pub has_suffix-append : (a p : Text) → has_suffix (a ++ p) p ≡ true
unfolding has_suffix
has_suffix-append a p = rw (
  cut_end a p,
  text_eq_refl p,
  le→leb (length p) (length (a ++ p)) (omega (arith, length-append a p)),
)

pub has_suffix-IsSuffix :
    (s p : Text)
    → has_suffix s p ≡ true
    → (length p ≤ length s) × (s ≡ take (length s - length p) s ++ p)
unfolding has_suffix
has_suffix-IsSuffix s p h =
    let both = and-eq_true _ _ h in
    (
      leb→le _ _ both.0,
      sym (take-drop (length s - length p) s)
          ∙ ap (◌++◌ (take (length s - length p) s)) (text_eq→eq _ p both.1),
    )

pub trim_suffix-append : (a p : Text) → trim_suffix (a ++ p) p ≡ a
unfolding trim_suffix
trim_suffix-append a p =
    rw (has_suffix-append a p)
      (ap (λ k. take k (a ++ p)) (omega (arith, length-append a p)) ∙ take-length a p)

pub trim_suffix_lem : (s p : Text) → has_suffix s p ≡ true → trim_suffix s p ++ p ≡ s
unfolding trim_suffix
trim_suffix_lem s p h = rw h (sym (has_suffix-IsSuffix s p h).1)

pub trim_prefix-append : (p a : Text) → trim_prefix (p ++ a) p ≡ a
unfolding trim_prefix
trim_prefix-append p a = rw (has_prefix-append p a) (drop-length p a)
