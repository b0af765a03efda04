-- ===== src/Egress/Glob/Exact.antt =====
-- Where the matcher agrees with the meaning of a pattern, and where it does not.
use appx.Base.{
  ◌+◌, ◌-◌, ◌≤◌, ◌≡◌, ◌≢◌, ◌↔◌, refl, sym, ap, ◌∙◌, subst, true, false, not, [], ◌∷◌, ◌++◌,
  append-nil, arith, length, length-append, length-eq_zero, take, drop, drop-append_le,
  length-take_le, if◌then◌else◌,
}
use appx.Text.{Text, has_byte, has_prefix, has_suffix}
use appx.Text.Affix.{has_prefix-append, has_suffix-append, has_prefix-IsPrefix, has_suffix-IsSuffix}
use appx.Text.Split.{Free, split-Free, split-append}
use appx.Egress.Glob.{star, in_order, parts_match, label_glob}
use appx.Egress.Glob.Meaning.{Glob, peel_star, peel_part, peel_last, Glob-part, Glob-star}
use appx.Egress.Glob.Complete.{label_glob-Glob}

has_byte-middle : (a b : Text) → has_byte star (a ++ star ∷ b) ≡ true
unfolding has_byte
has_byte-middle [] b = refl
has_byte-middle (x ∷ a) b = ground (arith, has_byte-middle a b)

-- With one star the matcher tests a prefix and a suffix, and nothing more.
one_star :
    (a b s : Text)
    → Free star a
    → Free star b
    → label_glob (a ++ star ∷ b) s
      ≡ (if not (has_prefix s a) then false else if not (has_suffix s b) then false else true)
unfolding label_glob
one_star a b s ha hb =
    rw (has_byte-middle a b, split-append star a b, split-Free star a ha, split-Free star b hb)
      (unfold parts_match in_order in refl)

one_star_parts :
    (a b s : Text)
    → Free star a
    → Free star b
    → label_glob (a ++ star ∷ b) s ≡ true
    → (has_prefix s a ≡ true) × (has_suffix s b ≡ true)
one_star_parts a b s ha hb h = ground (arith, one_star a b s ha hb)

-- On a label that has room for both sides, a pattern with one star accepts exactly what it means.
pub label_glob_one_star :
    (a b s : Text)
    → Free star a
    → Free star b
    → length a + length b ≤ length s
    → (label_glob (a ++ star ∷ b) s ≡ true) ↔ Glob (a ++ star ∷ b) s
label_glob_one_star a b s ha hb room = (sound, label_glob-Glob (a ++ star ∷ b) s)
  where
    sound : label_glob (a ++ star ∷ b) s ≡ true → Glob (a ++ star ∷ b) s
    sound h =
        let (pre, post) = one_star_parts a b s ha hb h in
        let (_, ends) = has_suffix-IsSuffix s b post in
        let u : Text = take (length s - length b) s in
        let rest : Text = drop (length a) s in
        let s_eq : s ≡ a ++ rest = has_prefix-IsPrefix s a pre in
        let rest_eq : rest ≡ drop (length a) u ++ b =
          ap (drop (length a)) ends
          ∙ drop-append_le (length a) u b (omega (arith, length-take_le (length s - length b) s)) in
        subst (Glob (a ++ star ∷ b)) (sym (s_eq ∙ ap (◌++◌ a) rest_eq)) (
          Glob-part a (star ∷ b) (drop (length a) u ++ b) ha (
            Glob-star (drop (length a) u) b b
              (subst (λ x. Glob x x) (append-nil b) (Glob-part b [] [] hb Glob.done))))

length-Glob_one_star :
    (a b s : Text)
    → Free star a
    → Free star b
    → Glob (a ++ star ∷ b) s
    → length a + length b ≤ length s
length-Glob_one_star a b s ha hb g =
    let (rest, e, g') = peel_part a (star ∷ b) ha g in
    let (u, v, e', g'') = peel_star b g' refl in
    omega (
      arith,
      ap length e,
      ap length e',
      ap length (peel_last b hb g''),
      length-append a rest,
      length-append u v,
    )

-- The tests of prefix and suffix may overlap: for a text `t` that is not empty and has no star,
-- `t*t` accepts `t` alone, which has no room for both sides.
pub label_glob_overlap :
    (t : Text)
    → Free star t
    → t ≢ []
    → (label_glob (t ++ star ∷ t) t ≡ true) × ¬ Glob (t ++ star ∷ t) t
label_glob_overlap t h ne = (
  one_star t t t h h ∙ rw (prefix_self, suffix_self) refl,
  λ g. ne (length-eq_zero t (omega (arith, length-Glob_one_star t t t h h g))),
)
  where
    prefix_self : has_prefix t t ≡ true
    prefix_self = subst (λ x. has_prefix x t ≡ true) (append-nil t) (has_prefix-append t [])

    suffix_self : has_suffix t t ≡ true
    suffix_self = has_suffix-append [] t
