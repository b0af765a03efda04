-- ===== src/Project/Store/Held.antt =====
-- The two lowest ports that no row of the table holds.
use appx.Base.{
  ℕ, ◌+◌, ◌≤◌, ◌<◌, ◌≡◌, ◌↔◌, ◌⊎◌, ap, subst, inl, inr, true, Option, none, some, Any, List, [],
  ◌∷◌, arith, Bool-cases, ==_iff,
}
use appx.Project.Ports.Lowest.{First, first, Search, found, at_most_one}
use appx.Project.Store.{Row, holds, used_ports}

-- A port that stands in one of the two columns of some row.
abbrev pub IsHeld : List Row → ℕ → Type 0
IsHeld rows q = Any (λ r. (r.assigned_port ≡ some q) ⊎ (r.dev_port ≡ some q)) rows

-- The lowest port from `lo` to 10199 that no row holds.
pub record IsLowest (rows : List Row) (lo q : ℕ) : Type 0 where
  pub above : lo ≤ q
  pub published : q ≤ 10199
  pub free : ¬ IsHeld rows q
  pub below : (p : ℕ) → lo ≤ p → p < q → IsHeld rows p

holds-some : (o : Option ℕ) (q : ℕ) → (holds o q ≡ true) ↔ (o ≡ some q)
holds-some none q = ((λ h. cc), (λ h. cc))
holds-some (some p) q =
    ((λ h. ap some ((==_iff p q).0 h)), (λ h. (==_iff p q).1 (some_injective h)))
  where
    some_injective : some p ≡ some q → p ≡ q
    some_injective h = cc

used_ports-IsHeld : (rows : List Row) (q : ℕ) → used_ports rows q ≡ true → IsHeld rows q
unfolding used_ports
used_ports-IsHeld [] q h = cc
used_ports-IsHeld (r ∷ rows) q h = elim (Bool-cases (holds r.assigned_port q)) [
  | inl prod ↦ inl (inl ((holds-some r.assigned_port q).0 prod))
  | inr other ↦ elim (Bool-cases (holds r.dev_port q)) [
    | inl dev ↦ inl (inr ((holds-some r.dev_port q).0 dev))
    | inr neither ↦ inr (used_ports-IsHeld rows q (ground arith))
  ]
]

IsHeld-used_ports : (rows : List Row) (q : ℕ) → IsHeld rows q → used_ports rows q ≡ true
unfolding used_ports
IsHeld-used_ports [] q h = absurd h
IsHeld-used_ports (r ∷ rows) q (inl (inl prod)) =
    ground (arith, (holds-some r.assigned_port q).1 prod)
IsHeld-used_ports (r ∷ rows) q (inl (inr dev)) = ground (arith, (holds-some r.dev_port q).1 dev)
IsHeld-used_ports (r ∷ rows) q (inr later) = ground (arith, IsHeld-used_ports rows q later)

First-IsLowest :
    (rows : List Row) (lo q : ℕ) → First (used_ports rows) lo 10200 q → IsLowest rows lo q
First-IsLowest rows lo q (first l u free below) = record {
  above = l;
  published = omega arith;
  free = λ h. cc (free, IsHeld-used_ports rows q h);
  below = λ p lp pq. used_ports-IsHeld rows p (below p lp pq);
}

pub pair-IsLowest :
    (rows : List Row) (prod dev : ℕ) (o : Option (ℕ × ℕ))
    → Search (used_ports rows) 10000 10200 o
    → o ≡ some (prod, dev)
    → IsLowest rows 10000 prod × IsLowest rows (prod + 1) dev
pair-IsLowest rows prod dev _ (found p d f g) e =
    let same : p ≡ prod = cc in
    let also : d ≡ dev = cc in
    (
      subst (IsLowest rows 10000) same (First-IsLowest rows 10000 p f),
      subst (IsLowest rows (prod + 1)) also
          (subst (λ x. IsLowest rows (x + 1) d) same (First-IsLowest rows (p + 1) d g)),
    )
pair-IsLowest rows prod dev _ (at_most_one f) e = cc
