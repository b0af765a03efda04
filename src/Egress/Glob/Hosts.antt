-- ===== src/Egress/Glob/Hosts.antt =====
-- What a host pattern can match, label by label.
use appx.Base.{
  ℕ, ◌≡◌, refl, sym, ap, ap₂, ◌∙◌, true, false, List, [], ◌∷◌, ◌++◌, arith, All, and-eq_true,
  length, ◌==◌,
}
use appx.Text.{Text, has_byte, split, join, cons_first}
use appx.Text.Equality.{text_eq→eq}
use appx.Text.Split.{Free, IsCons, split-IsCons, split-append, join-split, join-append}
use appx.Egress.Glob.{star, dot, label_glob, labels_match, wildcard_host_match}

-- A label without stars is matched by itself only.
label_glob_plain : (p h : Text) → Free star p → label_glob p h ≡ true → p ≡ h
unfolding label_glob
label_glob_plain p h f e = text_eq→eq p h (ground arith)

labels_match_plain :
    (ps hs : List Text)
    → length ps ≡ length hs
    → All (Free star) ps
    → labels_match ps hs ≡ true
    → ps ≡ hs
unfolding labels_match
labels_match_plain [] [] k f e = refl
labels_match_plain [] (h ∷ hs) k f e = absurd (omega (arith, k))
labels_match_plain (p ∷ ps) [] k f e = cc
labels_match_plain (p ∷ ps) (h ∷ hs) k f e =
    let both = and-eq_true (label_glob p h) (labels_match ps hs) e in
    ap₂ ◌∷◌ (label_glob_plain p h f.0 both.0)
      (labels_match_plain ps hs (omega (arith, k)) f.1 both.1)

labels_match_tail :
    (ps qs hs : List Text)
    → IsCons ps
    → length (ps ++ qs) ≡ length hs
    → All (Free star) qs
    → labels_match (ps ++ qs) hs ≡ true
    → (front : List Text) × (hs ≡ front ++ qs) × IsCons front
unfolding labels_match
labels_match_tail [] qs hs k n f e = absurd k
labels_match_tail (p ∷ ps) qs [] k n f e = cc
labels_match_tail (p ∷ []) qs (h ∷ hs) k n f e =
    let both = and-eq_true (label_glob p h) (labels_match qs hs) e in
    (h ∷ [], ap (◌∷◌ h) (sym (labels_match_plain qs hs (omega (arith, n)) f both.1)), tt)
labels_match_tail (p ∷ r ∷ ps) qs (h ∷ hs) k n f e =
    let both = and-eq_true (label_glob p h) (labels_match ((r ∷ ps) ++ qs) hs) e in
    let (front, eq, _) = labels_match_tail (r ∷ ps) qs hs tt (omega (arith, n)) f both.1 in
    (h ∷ front, ap (◌∷◌ h) eq, tt)

cons_first-no_star :
    (x : ℕ) (ps : List Text)
    → (x == star) ≡ false
    → All (Free star) ps
    → All (Free star) (cons_first x ps)
unfolding has_byte
cons_first-no_star x [] e h = ground arith
cons_first-no_star x (p ∷ ps) e h = ground arith

split-no_star : (c : ℕ) (s : Text) → Free star s → All (Free star) (split c s)
unfolding split has_byte
split-no_star c [] h = (refl, tt)
split-no_star c (x ∷ s) h = ground (arith, split-no_star c s, cons_first-no_star x (split c s))

matched_labels :
    (p host : Text)
    → wildcard_host_match p host ≡ true
    → labels_match (split dot p) (split dot host) ≡ true
unfolding wildcard_host_match
matched_labels p host e = ground arith

-- A pattern and a host that it matches have as many labels.
pub wildcard_host_match_labels :
    (p host : Text)
    → wildcard_host_match p host ≡ true
    → length (split dot p) ≡ length (split dot host)
unfolding wildcard_host_match
wildcard_host_match_labels p host e = ground arith

-- A pattern that ends in a fixed domain matches hosts below that domain only, with as many labels as the
-- pattern: a star never spans a dot, so no other domain can stand behind it.
pub wildcard_host_match_domain :
    (p domain host : Text)
    → Free star domain
    → wildcard_host_match (p ++ dot ∷ domain) host ≡ true
    → (front : Text) × (host ≡ front ++ dot ∷ domain)
      × (length (split dot (p ++ dot ∷ domain)) ≡ length (split dot host))
wildcard_host_match_domain p domain host f e =
    let matched : labels_match (split dot p ++ split dot domain) (split dot host) ≡ true =
      ap (λ ls. labels_match ls (split dot host)) (sym (split-append dot p domain))
      ∙ matched_labels (p ++ dot ∷ domain) host e in
    let (front, eq, k) =
      labels_match_tail (split dot p) (split dot domain) (split dot host) (split-IsCons dot p)
        (ap length (sym (split-append dot p domain))
          ∙ wildcard_host_match_labels (p ++ dot ∷ domain) host e)
        (split-no_star dot domain f) matched in
    (
      join dot front,
      sym (join-split dot host)
          ∙ ap (join dot) eq
          ∙ join-append dot front (split dot domain) k (split-IsCons dot domain)
          ∙ ap (λ (t : Text). join dot front ++ dot ∷ t) (join-split dot domain),
      wildcard_host_match_labels (p ++ dot ∷ domain) host e,
    )

-- A pattern without stars matches itself only.
pub wildcard_host_match_plain :
    (p host : Text) → Free star p → wildcard_host_match p host ≡ true → p ≡ host
wildcard_host_match_plain p host f e =
    sym (join-split dot p)
    ∙ ap (join dot) (
        labels_match_plain (split dot p) (split dot host) (wildcard_host_match_labels p host e)
          (split-no_star dot p f) (matched_labels p host e))
    ∙ join-split dot host
