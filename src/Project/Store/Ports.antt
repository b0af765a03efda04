-- ===== src/Project/Store/Ports.antt =====
-- No port is ever held twice, in either column of any row.
use appx.Base.{
  ℕ, ◌+◌, ◌≤◌, ◌<◌, ◌≡◌, refl, inl, inr, Bool, false, Option, some, Option-cases, List, [], ◌∷◌,
  ◌++◌, arith, if◌then◌else◌,
}
use appx.Text.{Text}
use appx.Project.Ports.{port_range_start, published_port_range_end, next_available_port_pair}
use appx.Project.Ports.Lowest.{Search, found, at_most_one, first, next_available_port_pair-Search}
use appx.Project.Store.{
  Row, Failures, holds, used_ports, new_row, create_tx, create, remove_id, delete,
}

-- How often a port is held.
abbrev pub holders : ℕ → List Row → ℕ
holders q [] = 0
holders q (r ∷ rows) =
    (if holds r.assigned_port q then 1 else 0)
    + (if holds r.dev_port q then 1 else 0)
    + holders q rows

abbrev pub PortsDistinct : List Row → Type 0
PortsDistinct rows = (q : ℕ) → holders q rows ≤ 1

holders-append : (q : ℕ) (xs ys : List Row) → holders q (xs ++ ys) ≡ holders q xs + holders q ys
holders-append q [] ys = omega arith
holders-append q (r ∷ xs) ys = omega (arith, holders-append q xs ys)

used_ports-holders : (q : ℕ) (rows : List Row) → used_ports rows q ≡ false → holders q rows ≡ 0
unfolding used_ports
used_ports-holders q [] h = refl
used_ports-holders q (r ∷ rows) h = ground (arith, used_ports-holders q rows)

holders-remove :
    (q : ℕ) (id : Text) (rows : List Row) → holders q (remove_id id rows) ≤ holders q rows
unfolding remove_id
holders-remove q id [] = omega arith
holders-remove q id (r ∷ rows) = ground (arith, holders-remove q id rows)

-- What the search returns is two different ports of the range that no row holds.
pub pair_free :
    (rows : List Row) (prod dev : ℕ)
    → next_available_port_pair (used_ports rows) ≡ some (prod, dev)
    → (port_range_start ≤ prod)
      × (prod < dev)
      × (dev ≤ published_port_range_end)
      × (used_ports rows prod ≡ false)
      × (used_ports rows dev ≡ false)
pair_free rows prod dev e = from_search (next_available_port_pair-Search (used_ports rows)) e
  where
    from_search :
        {o : Option (ℕ × ℕ)}
        → Search (used_ports rows) port_range_start (published_port_range_end + 1) o
        → o ≡ some (prod, dev)
        → (port_range_start ≤ prod)
          × (prod < dev)
          × (dev ≤ published_port_range_end)
          × (used_ports rows prod ≡ false)
          × (used_ports rows dev ≡ false)
    from_search (found p d (first l u f _) (first l' u' f' _)) eq = ground arith
    from_search (at_most_one _) eq = cc

grow-PortsDistinct :
    (rows : List Row) (id name : Text) (now prod dev : ℕ)
    → PortsDistinct rows
    → next_available_port_pair (used_ports rows) ≡ some (prod, dev)
    → PortsDistinct (rows ++ new_row id name prod dev now ∷ [])
unfolding new_row
grow-PortsDistinct rows id name now prod dev h e q = ground (
  arith,
  h q,
  pair_free rows prod dev e,
  used_ports-holders prod rows,
  used_ports-holders dev rows,
  holders-append q rows (new_row id name prod dev now ∷ []),
)

create_tx-PortsDistinct :
    (fails : Failures) (id name : Text) (now : ℕ) (rows : List Row)
    → PortsDistinct rows
    → PortsDistinct (create_tx fails id name now rows).1
create_tx-PortsDistinct fails id name now rows h q =
    elim (Option-cases (next_available_port_pair (used_ports rows))) [
      | inl e ↦ unfold create_tx in ground (arith, e, h q)
      | inr ((prod, dev), e) ↦
          unfold create_tx in
          ground (arith, e, h q, grow-PortsDistinct rows id name now prod dev h e q)
    ]

-- From a table in which no port is held twice, Create leaves none, whatever of the database fails.
pub create-PortsDistinct :
    (fails : Failures) (id name : Text) (now : ℕ) (rows : List Row)
    → PortsDistinct rows
    → PortsDistinct (create fails id name now rows).1
unfolding create
create-PortsDistinct fails id name now rows h q =
    ground (arith, h q, create_tx-PortsDistinct fails id name now rows h q)

-- Delete leaves no port held twice.
pub delete-PortsDistinct :
    (db_ok : Bool) (id : Text) (rows : List Row)
    → PortsDistinct rows
    → PortsDistinct (delete db_ok id rows).1
unfolding delete
delete-PortsDistinct db_ok id rows h q = ground (arith, h q, holders-remove q id rows)
