-- ===== src/Text/Split.antt =====
-- Splitting at a byte, and joining again.
use appx.Base.{
  ℕ, ◌≡◌, refl, ap, ap₂, ◌∙◌, sym, inl, inr, true, false, List, [], ◌∷◌, ◌++◌, append_assoc, arith,
  All, Bool-cases, ◌==◌, ==_iff, ==_refl,
}
use appx.Text.{Text, split, join, has_byte, cons_first}

-- A text in which a byte does not occur.
abbrev pub Free : ℕ → Text → Type 0
Free c s = has_byte c s ≡ false

abbrev pub IsCons : List Text → Type 0
IsCons [] = ⊥
IsCons (p ∷ ps) = Unit

cons_first-IsCons : (x : ℕ) (ps : List Text) → IsCons (cons_first x ps)
cons_first-IsCons x [] = tt
cons_first-IsCons x (p ∷ ps) = tt

pub split-IsCons : (c : ℕ) (s : Text) → IsCons (split c s)
unfolding split
split-IsCons c [] = tt
split-IsCons c (x ∷ s) =
    elim (x == c)
      as (λ b. IsCons (elim b [ true ↦ [] ∷ split c s | false ↦ cons_first x (split c s) ])) [
        | true ↦ tt
        | false ↦ cons_first-IsCons x (split c s)
      ]

join-cons_first : (c x : ℕ) (ps : List Text) → IsCons ps → join c (cons_first x ps) ≡ x ∷ join c ps
unfolding join
join-cons_first c x [] h = absurd h
join-cons_first c x (p ∷ []) h = refl
join-cons_first c x (p ∷ q ∷ ps) h = refl

join-nil : (c : ℕ) (ps : List Text) → IsCons ps → join c ([] ∷ ps) ≡ c ∷ join c ps
unfolding join
join-nil c [] h = absurd h
join-nil c (q ∷ ps) h = refl

split-sep : (c x : ℕ) (s : Text) → (x == c) ≡ true → split c (x ∷ s) ≡ [] ∷ split c s
unfolding split
split-sep c x s e = ground arith

split-other : (c x : ℕ) (s : Text) → (x == c) ≡ false → split c (x ∷ s) ≡ cons_first x (split c s)
unfolding split
split-other c x s e = ground arith

-- Joining the parts gives the text back.
pub join-split : (c : ℕ) (s : Text) → join c (split c s) ≡ s
join-split c [] = unfold split join in refl
join-split c (x ∷ s) = elim (Bool-cases (x == c)) [
  | inl e ↦ rw (split-sep c x s e) (
      join-nil c (split c s) (split-IsCons c s) ∙ ap₂ ◌∷◌ (sym ((==_iff x c).0 e)) (join-split c s))
  | inr e ↦
      rw (split-other c x s e)
        (join-cons_first c x (split c s) (split-IsCons c s) ∙ ap (◌∷◌ x) (join-split c s))
]

-- A text with no separator is its own only part.
pub split-Free : (c : ℕ) (s : Text) → Free c s → split c s ≡ s ∷ []
unfolding split has_byte
split-Free c [] h = refl
split-Free c (x ∷ s) h = ground (arith, split-Free c s)

cons_first-append :
    (x : ℕ) (ps qs : List Text) → IsCons ps → cons_first x (ps ++ qs) ≡ cons_first x ps ++ qs
cons_first-append x [] qs h = absurd h
cons_first-append x (p ∷ ps) qs h = refl

pub split-append : (c : ℕ) (s t : Text) → split c (s ++ c ∷ t) ≡ split c s ++ split c t
split-append c [] t = split-sep c c t (==_refl c) ∙ unfold split in refl
split-append c (x ∷ s) t = elim (Bool-cases (x == c)) [
  | inl e ↦ rw (split-sep c x (s ++ c ∷ t) e, split-sep c x s e) (ap (◌∷◌ []) (split-append c s t))
  | inr e ↦
      rw (split-other c x (s ++ c ∷ t) e, split-other c x s e)
        (ap (cons_first x) (split-append c s t)
          ∙ cons_first-append x (split c s) (split c t) (split-IsCons c s))
]

-- No part holds the separator.
cons_first-Free :
    (c x : ℕ) (ps : List Text) → (x == c) ≡ false → All (Free c) ps → All (Free c) (cons_first x ps)
unfolding has_byte
cons_first-Free c x [] e h = ground arith
cons_first-Free c x (p ∷ ps) e h = ground arith

pub split-All-Free : (c : ℕ) (s : Text) → All (Free c) (split c s)
split-All-Free c [] = unfold split has_byte in (refl, tt)
split-All-Free c (x ∷ s) = elim (Bool-cases (x == c)) [
  | inl e ↦ rw (split-sep c x s e) (unfold has_byte in refl, split-All-Free c s)
  | inr e ↦ rw (split-other c x s e) (cons_first-Free c x (split c s) e (split-All-Free c s))
]

-- Joining two groups of parts.
pub join-append :
    (c : ℕ) (ps qs : List Text)
    → IsCons ps
    → IsCons qs
    → join c (ps ++ qs) ≡ join c ps ++ c ∷ join c qs
unfolding join
join-append c [] qs h k = absurd h
join-append c (p ∷ []) [] h k = absurd k
join-append c (p ∷ []) (q ∷ qs) h k = refl
join-append c (p ∷ r ∷ ps) qs h k =
    ap (λ (t : Text). p ++ c ∷ t) (join-append c (r ∷ ps) qs tt k)
    ∙ sym (append_assoc p (c ∷ join c (r ∷ ps)) (c ∷ join c qs))
