-- ===== src/Egress/Glob/Complete.antt =====
-- The matcher accepts all that a pattern means: searching for the first occurrence of each part
-- loses no match.
use appx.Base.{
  ℕ, suc, ◌+◌, ◌≡◌, refl, sym, ap, ◌∙◌, subst, inl, inr, true, some, List, [], ◌∷◌, ◌++◌,
  append_assoc, append-nil, arith, All, Bool-cases, length, drop, drop-append_le, drop-length,
  length-append,
}
use appx.Text.{Text, has_byte, has_prefix, has_suffix, index_of, split, join}
use appx.Text.Equality.{text_eq_refl}
use appx.Text.Affix.{has_prefix-append, has_suffix-append}
use appx.Text.Split.{Free, IsCons, split-IsCons, join-split, split-All-Free}
use appx.Egress.Glob.{star, last_part, middle_parts, in_order, parts_match, label_glob}
use appx.Egress.Glob.Meaning.{Glob, peel_star, peel_part, peel_last}

-- The parts occur one behind the other.
data Occurs : List Text → Text → Type 0 where
  end : (s : Text) → Occurs [] s
  found :
      (a : Text) (ps : List Text) (u v s : Text)
      → s ≡ u ++ (a ++ v)
      → Occurs ps v
      → Occurs (a ∷ ps) s

Occurs-append : (ps : List Text) (w v : Text) → Occurs ps v → Occurs ps (w ++ v)
Occurs-append ps w v (end s) = end (w ++ v)
Occurs-append ps w v (found a qs u v' s e o) =
    found a qs (w ++ u) v' (w ++ v) (ap (◌++◌ w) e ∙ sym (append_assoc w u (a ++ v'))) o

-- The first occurrence is no later than the given one, so what is left holds the given rest.
index_of_found :
    (a u v : Text)
    → (i : ℕ) × (w : Text) × (index_of (u ++ (a ++ v)) a ≡ some i)
      × (drop (i + length a) (u ++ (a ++ v)) ≡ w ++ v)
unfolding index_of
index_of_found [] [] [] = (0, [], refl, refl)
index_of_found [] [] (y ∷ v) = (0, [], refl, refl)
index_of_found (x ∷ a) [] v = (
  0,
  [],
  rw (has_prefix-append (x ∷ a) v) refl,
  ap (λ k. drop k (x ∷ a ++ v)) (let e : 0 + suc (length a) ≡ suc (length a) = omega arith in e)
      ∙ drop-length (x ∷ a) v,
)
index_of_found a (y ∷ u) v = elim (Bool-cases (has_prefix (y ∷ (u ++ (a ++ v))) a)) [
  | inl hit ↦ (
    0,
    drop (length a) ((y ∷ u) ++ a),
    rw hit refl,
    ap (λ k. drop k (y ∷ (u ++ (a ++ v)))) (let e : 0 + length a ≡ length a = omega arith in e)
        ∙ ap (drop (length a)) (sym (append_assoc (y ∷ u) a v))
        ∙ drop-append_le (length a) ((y ∷ u) ++ a) v (omega (arith, length-append (y ∷ u) a)),
  )
  | inr miss ↦
      (let (i, w, e, d) = index_of_found a u v in
        (
          suc i,
          w,
          rw (miss, e) refl,
          ap (λ k. drop k (y ∷ (u ++ (a ++ v))))
                (let n : suc i + length a ≡ suc (i + length a) = omega arith in n)
              ∙ d,
        ))
]

in_order_step :
    (a : Text) (ps : List Text) (s : Text) (i : ℕ)
    → index_of s a ≡ some i
    → in_order (a ∷ ps) s ≡ in_order ps (drop (i + length a) s)
unfolding in_order
in_order_step a ps s i e = ground arith

in_order-Occurs : (ps : List Text) (s : Text) → Occurs ps s → in_order ps s ≡ true
in_order-Occurs [] s o = unfold in_order in refl
in_order-Occurs (a ∷ ps) s (found _ _ u v _ e o) =
    let (i, w, at, left) = index_of_found a u v in
    rw e (
      in_order_step a ps (u ++ (a ++ v)) i at
      ∙ ap (in_order ps) left
      ∙ in_order-Occurs ps (w ++ v) (Occurs-append ps w v o))

-- The parts behind the first one, each behind a star, and the last at the end.
abbrev tail_pattern : List Text → Text
tail_pattern [] = []
tail_pattern (a ∷ ps) = star ∷ (a ++ tail_pattern ps)

join-star : (a : Text) (ps : List Text) → join star (a ∷ ps) ≡ a ++ tail_pattern ps
unfolding join
join-star a [] = sym (append-nil a)
join-star a (b ∷ ps) = ap (λ (t : Text). a ++ (star ∷ t)) (join-star b ps)

Glob-Occurs :
    (b : Text) (ps : List Text) (s : Text)
    → All (Free star) (b ∷ ps)
    → Glob (tail_pattern (b ∷ ps)) s
    → Occurs (middle_parts (b ∷ ps)) s × (u : Text) × (s ≡ u ++ last_part b ps)
Glob-Occurs b [] s h g =
    let (u, v, e, g') = peel_star (b ++ []) g refl in
    (end s, u, e ∙ ap (◌++◌ u) (peel_last b h.0 (subst (λ x. Glob x v) (append-nil b) g')))
Glob-Occurs b (c ∷ ps) s h g =
    let (u, v, e, g') = peel_star (b ++ tail_pattern (c ∷ ps)) g refl in
    let (rest, e', g'') = peel_part b (tail_pattern (c ∷ ps)) h.0 g' in
    let (o, w, ends) = Glob-Occurs c ps rest h.1 g'' in
    (
      found b (middle_parts (c ∷ ps)) u rest s (e ∙ ap (◌++◌ u) e') o,
      u ++ (b ++ w),
      e
          ∙ ap (◌++◌ u) (e' ∙ ap (◌++◌ b) ends ∙ sym (append_assoc b w (last_part c ps)))
          ∙ sym (append_assoc u (b ++ w) (last_part c ps)),
    )

parts_match-Glob :
    (a : Text) (ps : List Text) (s : Text)
    → All (Free star) (a ∷ ps)
    → IsCons ps
    → Glob (a ++ tail_pattern ps) s
    → parts_match (a ∷ ps) s ≡ true
parts_match-Glob a [] s h k g = absurd k
parts_match-Glob a (b ∷ ps) s h k g =
    let (rest, e, g') = peel_part a (tail_pattern (b ∷ ps)) h.0 g in
    let (o, w, ends) = Glob-Occurs b ps rest h.1 g' in
    let whole : s ≡ (a ++ w) ++ last_part b ps =
      e ∙ ap (◌++◌ a) ends ∙ sym (append_assoc a w (last_part b ps)) in
    let first_ok : has_prefix s a ≡ true = rw e (has_prefix-append a rest) in
    let last_ok : has_suffix s (last_part b ps) ≡ true =
      rw whole (has_suffix-append (a ++ w) (last_part b ps)) in
    let left : drop (length a) s ≡ rest = rw e (drop-length a rest) in
    unfold parts_match in
    rw (first_ok, last_ok, left) (in_order-Occurs (middle_parts (b ∷ ps)) rest o)

-- A pattern with a star has at least two parts.
split-star :
    (p : Text)
    → has_byte star p ≡ true
    → (a : Text) × (ps : List Text) × (split star p ≡ a ∷ ps) × IsCons ps
split-star p h = from_parts (split star p) refl
  where
    from_parts :
        (l : List Text)
        → split star p ≡ l
        → (a : Text) × (ps : List Text) × (split star p ≡ a ∷ ps) × IsCons ps
    from_parts [] e = absurd (subst IsCons e (split-IsCons star p))
    from_parts (a ∷ b ∷ ps) e = (a, b ∷ ps, e, tt)
    from_parts (a ∷ []) e =
        let whole : p ≡ a = sym (join-split star p) ∙ ap (join star) e ∙ unfold join in refl in
        let free : Free star a = (subst (All (Free star)) e (split-All-Free star p)).0 in
        cc (h, ap (has_byte star) whole, free)

-- Whatever a pattern label means, the matcher accepts it.
pub label_glob-Glob : (p s : Text) → Glob p s → label_glob p s ≡ true
unfolding label_glob
label_glob-Glob p s g = elim (Bool-cases (has_byte star p)) [
  | inr plain ↦ rw plain (rw (peel_last p plain g) (text_eq_refl p))
  | inl starred ↦
      (let (a, ps, e, k) = split-star p starred in
        rw (starred, e)
          (parts_match-Glob a ps s (subst (All (Free star)) e (split-All-Free star p)) k (
            subst (λ x. Glob x s) (sym (join-split star p) ∙ ap (join star) e ∙ join-star a ps) g)))
]
