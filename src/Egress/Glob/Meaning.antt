-- ===== src/Egress/Glob/Meaning.antt =====
-- What a pattern label means: a star stands for any run of bytes, any other byte for itself.
use appx.Base.{subst, ℕ, ◌≡◌, ◌≢◌, refl, sym, ap, ◌∙◌, [], ◌∷◌, ◌++◌, append-nil, arith}
use appx.Text.{Text, has_byte}
use appx.Text.Split.{Free}
use appx.Egress.Glob.{star}

pub data Glob : Text → Text → Type 0 where
  done : Glob [] []
  literal : {p s : Text} (c : ℕ) → c ≢ star → Glob p s → Glob (c ∷ p) (c ∷ s)
  skip : {p s : Text} → Glob p s → Glob (star ∷ p) s
  more : {p s : Text} (c : ℕ) → Glob (star ∷ p) s → Glob (star ∷ p) (c ∷ s)

-- What matches a pattern that begins with a plain byte, or with a star.
peel_literal :
    {q s : Text} (c : ℕ) (p : Text)
    → Glob q s
    → q ≡ c ∷ p
    → c ≢ star
    → (rest : Text) × (s ≡ c ∷ rest) × Glob p rest
peel_literal c p done e ne = cc
peel_literal c p (literal {p = p'} {s = s'} d h g) e ne =
    let d_eq : d ≡ c = cc in
    let p_eq : p' ≡ p = cc in (s', ap (λ x. x ∷ s') d_eq, subst (λ x. Glob x s') p_eq g)
peel_literal c p (skip g) e ne = let c_eq : c ≡ star = cc in absurd (ne c_eq)
peel_literal c p (more d g) e ne = let c_eq : c ≡ star = cc in absurd (ne c_eq)

pub peel_star :
    {q s : Text} (p : Text)
    → Glob q s
    → q ≡ star ∷ p
    → (u : Text) × (v : Text) × (s ≡ u ++ v) × Glob p v
peel_star p done e = cc
peel_star p (literal d h g) e = let d_eq : d ≡ star = cc in absurd (h d_eq)
peel_star p (skip {p = p'} {s = s'} g) e =
    let p_eq : p' ≡ p = cc in ([], s', refl, subst (λ x. Glob x s') p_eq g)
peel_star p (more c g) e =
    let (u, v, split_eq, rest) = peel_star p g e in (c ∷ u, v, ap (◌∷◌ c) split_eq, rest)

-- A part without stars is matched by itself.
pub peel_part :
    (a p : Text) {s : Text}
    → Free star a
    → Glob (a ++ p) s
    → (rest : Text) × (s ≡ a ++ rest) × Glob p rest
unfolding has_byte
peel_part [] p {s = s} h g = (s, refl, g)
peel_part (c ∷ a) p h g =
    let (rest, e, g') = peel_literal c (a ++ p) g refl (ground arith) in
    let (rest', e', g'') = peel_part a p (ground arith) g' in (rest', e ∙ ap (◌∷◌ c) e', g'')

pub Glob-nil : {q s : Text} → Glob q s → q ≡ [] → s ≡ []
Glob-nil done e = refl
Glob-nil (literal c h g) e = cc
Glob-nil (skip g) e = cc
Glob-nil (more c g) e = cc

pub peel_last : (a : Text) {s : Text} → Free star a → Glob a s → s ≡ a
peel_last a {s = s} h g =
    let (rest, e, g') = peel_part a [] h (subst (λ x. Glob x s) (sym (append-nil a)) g) in
    rw (e, Glob-nil g' refl) (append-nil a)

-- The other way: a part matches itself, and a star matches any run.
pub Glob-part : (a p s : Text) → Free star a → Glob p s → Glob (a ++ p) (a ++ s)
unfolding has_byte
Glob-part [] p s h g = g
Glob-part (c ∷ a) p s h g = literal c (ground arith) (Glob-part a p s (ground arith) g)

pub Glob-star : (u p s : Text) → Glob p s → Glob (star ∷ p) (u ++ s)
Glob-star [] p s g = skip g
Glob-star (c ∷ u) p s g = more c (Glob-star u p s g)
