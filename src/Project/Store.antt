-- ===== src/Project/Store.antt =====
-- internal/project/store.go: the table of projects. Each database call may fail; the transaction of
-- Create takes effect as a whole or not at all.
pub mod Ports
pub mod Rows
pub mod Held
pub mod Create
mod Tests
use appx.Base.{
  ℕ, zero, suc, ◌+◌, Bool, true, false, not, ◌&&◌, ◌||◌, Option, none, some, List, [], ◌∷◌, ◌++◌,
  map, ◌==◌, leb, if◌then◌else◌,
}
use appx.Text.{Text, text_eq}
use appx.Project.Name.{NameError, invalid_name, reserved_name_suffix, validate_name}
use appx.Project.Ports.{next_available_port_pair}

pub data ProjectStatus : Type 0 where
  stopped starting running stopping error : ProjectStatus

pub record Project : Type 0 where
  pub id : Text
  pub name : Text
  pub status : ProjectStatus
  pub assigned_port : ℕ
  pub dev_port : ℕ
  pub last_error : Text
  pub created_at : ℕ
  pub app_running : Bool
  pub dev_running : Bool
  pub project_dir : Text

-- A row of the table; the nullable columns are options.
pub record Row : Type 0 where
  pub id : Text
  pub name : Text
  pub status : ProjectStatus
  pub assigned_port : Option ℕ
  pub dev_port : Option ℕ
  pub last_error : Option Text
  pub created_at : ℕ

pub data StoreError : Type 0 where
  err_invalid_name err_reserved_name_suffix err_duplicate_name err_no_port_available : StoreError
  err_not_found err_database : StoreError

pub data Result {ℓ} (A : Type ℓ) : Type ℓ where
  ok : A → Result A
  err : StoreError → Result A

-- The database calls of Create, by which a failure is named.
pub data Call : Type 0 where
  begin_tx query_ports insert_row commit_tx read_back : Call

abbrev pub Failures : Type 0
Failures = Call → Bool

abbrev pub or_zero : Option ℕ → ℕ
or_zero none = 0
or_zero (some n) = n

abbrev pub or_empty : Option Text → Text
or_empty none = []
or_empty (some t) = t

unfoldable pub scan_into : Row → Project
scan_into r = record {
  id = r.id;
  name = r.name;
  status = r.status;
  assigned_port = or_zero r.assigned_port;
  dev_port = or_zero r.dev_port;
  last_error = or_empty r.last_error;
  created_at = r.created_at;
  app_running = false;
  dev_running = false;
  project_dir = [];
}

abbrev pub holds : Option ℕ → ℕ → Bool
holds none q = false
holds (some p) q = p == q

-- usedPortsTx: the set of the ports in either column of any row.
unfoldable pub used_ports : List Row → ℕ → Bool
used_ports [] q = false
used_ports (r ∷ rows) q = (holds r.assigned_port q || holds r.dev_port q) || used_ports rows q

unfoldable pub find_id : Text → List Row → Option Row
find_id id [] = none
find_id id (r ∷ rows) = if text_eq r.id id then some r else find_id id rows

unfoldable pub find_name : Text → List Row → Option Row
find_name name [] = none
find_name name (r ∷ rows) = if text_eq r.name name then some r else find_name name rows

abbrev pub same_port : Option ℕ → Option ℕ → Bool
same_port none q = false
same_port (some p) q = holds q p

-- The unique constraints of the schema: the id, the name, and each port column.
unfoldable pub violates_unique : Row → List Row → Bool
violates_unique new [] = false
violates_unique new (r ∷ rows) =
    (text_eq r.id new.id
      || (text_eq r.name new.name
          || (same_port r.assigned_port new.assigned_port || same_port r.dev_port new.dev_port)))
    || violates_unique new rows

unfoldable pub get : Bool → Text → List Row → Result Project
get db_ok id rows =
    if db_ok
    then elim (find_id id rows) [ none ↦ err err_not_found | some r ↦ ok (scan_into r) ]
    else err err_database

unfoldable pub get_by_name : Bool → Text → List Row → Result Project
get_by_name db_ok name rows =
    if db_ok
    then elim (find_name name rows) [ none ↦ err err_not_found | some r ↦ ok (scan_into r) ]
    else err err_database

unfoldable pub new_row : Text → Text → ℕ → ℕ → ℕ → Row
new_row id name prod dev now = record {
  id = id;
  name = name;
  status = stopped;
  assigned_port = some prod;
  dev_port = some dev;
  last_error = none;
  created_at = now;
}

-- From the allocation on, inside the transaction; the table grows at the commit.
unfoldable pub create_tx : Failures → Text → Text → ℕ → List Row → Result Project × List Row
create_tx fails id name now rows =
    if fails query_ports
    then (err err_database, rows)
    else elim (next_available_port_pair (used_ports rows)) [
      | none ↦ (err err_no_port_available, rows)
      | some (prod, dev) ↦
          if fails insert_row
          then (err err_database, rows)
          else if violates_unique (new_row id name prod dev now) rows
          then (err err_duplicate_name, rows)
          else if fails commit_tx
          then (err err_database, rows)
          else (
            get (not (fails read_back)) id (rows ++ new_row id name prod dev now ∷ []),
            rows ++ new_row id name prod dev now ∷ [],
          )
    ]

-- The new UUID and the time are arguments.
unfoldable pub create : Failures → Text → Text → ℕ → List Row → Result Project × List Row
create fails id name now rows = elim (validate_name name) [
  | some invalid_name ↦ (err err_invalid_name, rows)
  | some reserved_name_suffix ↦ (err err_reserved_name_suffix, rows)
  | none ↦ if fails begin_tx then (err err_database, rows) else create_tx fails id name now rows
]

pub remove_id : Text → List Row → List Row
remove_id id [] = []
remove_id id (r ∷ rows) = let rest = remove_id id rows in if text_eq r.id id then rest else r ∷ rest

-- `none` is a call that returns no error.
unfoldable pub delete : Bool → Text → List Row → Option StoreError × List Row
delete db_ok id rows =
    if db_ok
    then elim (find_id id rows) [
      | none ↦ (some err_not_found, rows)
      | some r ↦ (none, remove_id id rows)
    ]
    else (some err_database, rows)

pub set_error : Bool → Text → Text → List Row → Option StoreError × List Row
set_error db_ok id message rows =
    if db_ok
    then (
      none,
      map
          (λ r.
            if text_eq r.id id then record r { status = error; last_error = some message } else r)
          rows,
    )
    else (some err_database, rows)

-- ORDER BY created_at DESC
insert_by_time : Row → List Row → List Row
insert_by_time r [] = r ∷ []
insert_by_time r (x ∷ rows) =
    let rest = insert_by_time r rows in
    if leb x.created_at r.created_at then r ∷ x ∷ rows else x ∷ rest

newest_first : List Row → List Row
newest_first [] = []
newest_first (r ∷ rows) = insert_by_time r (newest_first rows)

pub list : Bool → List Row → Result (List Project)
list db_ok rows = if db_ok then ok (map scan_into (newest_first rows)) else err err_database
