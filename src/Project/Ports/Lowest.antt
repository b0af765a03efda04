-- ===== src/Project/Ports/Lowest.antt =====
-- The search finds the two lowest free ports, and fails only if there are not two.
use appx.Base.{
  ℕ, zero, suc, ◌+◌, ◌≤◌, ◌<◌, ◌≡◌, refl, sym, subst, ◌∙◌, ◌⊎◌, inl, inr, Bool, true, false, Option,
  none, some, List, [], ◌∷◌, arith, Bool-cases,
}
use appx.Project.Ports.{port_range_start, published_port_range_end, scan, next_available_port_pair}

scan_used :
    (k port : ℕ) (used : ℕ → Bool) (pair : List ℕ)
    → used port ≡ true
    → scan (suc k) port used pair ≡ scan k (port + 1) used pair
unfolding scan
scan_used k port used pair h = ground arith

scan_first :
    (k port : ℕ) (used : ℕ → Bool)
    → used port ≡ false
    → scan (suc k) port used [] ≡ scan k (port + 1) used (port ∷ [])
unfolding scan
scan_first k port used h = ground arith

scan_second :
    (k port a : ℕ) (used : ℕ → Bool)
    → used port ≡ false
    → scan (suc k) port used (a ∷ []) ≡ some (a, port)
unfolding scan
scan_second k port a used h = ground arith

-- All ports from `lo` up to `hi`, which is not one of them, are used.
abbrev pub Full : (ℕ → Bool) → ℕ → ℕ → Type 0
Full used lo hi = (q : ℕ) → lo ≤ q → q < hi → used q ≡ true

Full-cons :
    (used : ℕ → Bool) (lo mid hi : ℕ)
    → mid ≡ lo + 1
    → used lo ≡ true
    → Full used mid hi
    → Full used lo hi
Full-cons used lo mid hi e h f q l u = elim (Bool-cases (used q)) [
  | inl t ↦ t
  | inr n ↦ ground (arith, f q)
]

-- The lowest free port of a range.
pub data First (used : ℕ → Bool) (lo hi : ℕ) (d : ℕ) : Type 0 where
  first : lo ≤ d → d < hi → used d ≡ false → Full used lo d → First used lo hi d

scan_one :
    (k port hi a : ℕ) (used : ℕ → Bool)
    → hi ≡ port + k
    → ((d : ℕ) × (scan k port used (a ∷ []) ≡ some (a, d)) × First used port hi d)
      ⊎ ((scan k port used (a ∷ []) ≡ none) × Full used port hi)
scan_one zero port hi a used e = inr (unfold scan in refl, λ q l u. absurd (omega arith))
scan_one (suc k) port hi a used e = elim (Bool-cases (used port)) [
  | inr free ↦ inl (
    port,
    scan_second k port a used free,
    first (omega arith) (omega arith) free (λ q l u. absurd (omega arith)),
  )
  | inl taken ↦ elim (scan_one k (port + 1) hi a used (omega arith)) [
    | inl (d, eq, first l u f below) ↦ inl (
      d,
      scan_used k port used (a ∷ []) taken ∙ eq,
      first (omega arith) u f (Full-cons used port (port + 1) d refl taken below),
    )
    | inr (eq, full) ↦ inr (
      scan_used k port used (a ∷ []) taken ∙ eq,
      Full-cons used port (port + 1) hi refl taken full,
    )
  ]
]

-- What a search from `lo` may return.
pub data Search (used : ℕ → Bool) (lo hi : ℕ) : Option (ℕ × ℕ) → Type 0 where
  found : (p d : ℕ) → First used lo hi p → First used (p + 1) hi d → Search used lo hi (some (p, d))
  at_most_one :
      ((q r : ℕ) → lo ≤ q → q < r → r < hi → (used q ≡ true) ⊎ (used r ≡ true))
      → Search used lo hi none

Search-widen :
    (used : ℕ → Bool) (lo hi : ℕ) (o : Option (ℕ × ℕ))
    → used lo ≡ true
    → Search used (lo + 1) hi o
    → Search used lo hi o
Search-widen used lo hi o h (found p d (first l u f below) second) =
    found p d (first (omega arith) u f (Full-cons used lo (lo + 1) p refl h below)) second
Search-widen used lo hi o h (at_most_one f) =
    at_most_one
      (λ q r l m u. elim (Bool-cases (used q)) [ inl t ↦ inl t | inr n ↦ ground (arith, f q r) ])

scan-Search :
    (k port hi : ℕ) (used : ℕ → Bool) → hi ≡ port + k → Search used port hi (scan k port used [])
scan-Search zero port hi used e = unfold scan in at_most_one (λ q r l m u. absurd (omega arith))
scan-Search (suc k) port hi used e = elim (Bool-cases (used port)) [
  | inl taken ↦
      subst (Search used port hi) (sym (scan_used k port used [] taken))
        (Search-widen used port hi _ taken (scan-Search k (port + 1) hi used (omega arith)))
  | inr free ↦
      subst (Search used port hi) (sym (scan_first k port used free))
        (elim (scan_one k (port + 1) hi port used (omega arith)) [
          | inl (d, eq, f) ↦ subst (Search used port hi) (sym eq) (
              found port d (first (omega arith) (omega arith) free (λ q l u. absurd (omega arith)))
                f)
          | inr (eq, full) ↦
              subst (Search used port hi) (sym eq)
                (at_most_one (λ q r l m u. inr (full r (omega arith) u)))
        ])
]

-- The pair is the two lowest ports of the published range that no project uses, PROD the lower one;
-- there is no pair only if at most one port of the range is free.
pub next_available_port_pair-Search :
    (used : ℕ → Bool)
    → Search used port_range_start (published_port_range_end + 1) (next_available_port_pair used)
unfolding next_available_port_pair
next_available_port_pair-Search used =
    scan-Search _ port_range_start (published_port_range_end + 1) used refl
