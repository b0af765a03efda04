-- ===== src/Project/Store/Rows.antt =====
-- Looking rows up, and removing them.
use appx.Base.{ℕ, ◌≡◌, refl, false, none, some, List, [], ◌∷◌, ◌++◌, arith}
use appx.Text.{Text}
use appx.Text.Equality.{text_eq_iff}
use appx.Project.Store.{Row, find_id, find_name, remove_id, violates_unique, used_ports, new_row}

pub find_id-append :
    (id : Text) (rows : List Row) (r : Row)
    → find_id id rows ≡ none
    → r.id ≡ id
    → find_id id (rows ++ r ∷ []) ≡ some r
unfolding find_id
find_id-append id [] r h e = ground (arith, text_eq_iff r.id id)
find_id-append id (x ∷ rows) r h e = ground (arith, find_id-append id rows r)

pub find_name-append :
    (name : Text) (rows : List Row) (r : Row)
    → find_name name rows ≡ none
    → r.name ≡ name
    → find_name name (rows ++ r ∷ []) ≡ some r
unfolding find_name
find_name-append name [] r h e = ground (arith, text_eq_iff r.name name)
find_name-append name (x ∷ rows) r h e = ground (arith, find_name-append name rows r)

-- A row that was found keeps being found behind more rows.
pub find_name-append_some :
    (name : Text) (rows more : List Row) (r : Row)
    → find_name name rows ≡ some r
    → find_name name (rows ++ more) ≡ some r
unfolding find_name
find_name-append_some name [] more r h = cc
find_name-append_some name (x ∷ rows) more r h =
    ground (arith, find_name-append_some name rows more r)

remove_id-absent : (id : Text) (rows : List Row) → find_id id rows ≡ none → remove_id id rows ≡ rows
unfolding find_id remove_id
remove_id-absent id [] h = refl
remove_id-absent id (x ∷ rows) h = ground (arith, remove_id-absent id rows)

-- Removing the row that was just added restores the table.
pub remove_id-append :
    (id : Text) (rows : List Row) (r : Row)
    → find_id id rows ≡ none
    → r.id ≡ id
    → remove_id id (rows ++ r ∷ []) ≡ rows
unfolding find_id remove_id
remove_id-append id [] r h e = ground (arith, text_eq_iff r.id id)
remove_id-append id (x ∷ rows) r h e = ground (arith, remove_id-append id rows r)

pub find_id-remove : (id : Text) (rows : List Row) → find_id id (remove_id id rows) ≡ none
unfolding find_id remove_id
find_id-remove id [] = refl
find_id-remove id (x ∷ rows) = ground (arith, find_id-remove id rows)

module _ (id name : Text) (prod dev now : ℕ) where
  -- A row that the constraints admit has a new id and a new name.
  pub violates_unique-find :
      (rows : List Row)
      → violates_unique (new_row id name prod dev now) rows ≡ false
      → (find_id id rows ≡ none) × (find_name name rows ≡ none)
  unfolding violates_unique find_id find_name new_row
  violates_unique-find [] h = (refl, refl)
  violates_unique-find (x ∷ rows) h = ground (arith, violates_unique-find rows)

  -- With free ports, only the id and the name can be taken.
  pub violates_unique_free :
      (rows : List Row)
      → find_id id rows ≡ none
      → find_name name rows ≡ none
      → used_ports rows prod ≡ false
      → used_ports rows dev ≡ false
      → violates_unique (new_row id name prod dev now) rows ≡ false
  unfolding violates_unique find_id find_name new_row used_ports
  violates_unique_free [] h k p d = refl
  violates_unique_free (x ∷ rows) h k p d = ground (arith, violates_unique_free rows)
