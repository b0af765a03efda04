-- ===== src/Project/Handlers.antt =====
-- internal/server/project_handlers.go: the dashboard's side of the projects. `none` for a body is
-- one that does not decode; a reply is its status with what is encoded.
pub mod Laws
mod Tests
use appx.Base.{ℕ, ◌⊎◌, inl, inr, Bool, true, false, Option, none, some, List, [], ◌∷◌, map}
use appx.Text.{Text}
use appx.Project.Store.{
  Project, Row, StoreError, err_invalid_name, err_reserved_name_suffix, err_duplicate_name,
  err_no_port_available, err_not_found, err_database, Result, ok, err, Failures, get, list,
}
use appx.Project.Manager.{
  Manager, ManagerError, store_error, register_error, deregister_error, Outcome, manager_create,
  manager_delete, project_dir,
}
use appx.Project.Health.{Health, Probe, health_of, check}

-- What the query adds to a project.
with_health : Manager → List (Text × Health) → Project → Project
with_health m health p = record p {
  app_running = (health_of p.id health).app;
  dev_running = (health_of p.id health).dev;
  project_dir = project_dir m p.name;
}

-- The projects, or 500.
pub handle_list_projects : Manager → (ℕ → Probe) → Bool → List Row → ℕ ⊎ List Project
handle_list_projects m probe db_ok rows = elim (list db_ok rows) [
  | err e ↦ inl 500
  | ok ps ↦ inr (map (with_health m (check probe ps)) ps)
]

-- errors.Is, in the order of the tests.
pub create_status : ManagerError → ℕ
create_status (store_error err_invalid_name) = 400
create_status (store_error err_duplicate_name) = 409
create_status (store_error err_no_port_available) = 507
create_status (store_error err_reserved_name_suffix) = 500
create_status (store_error err_not_found) = 500
create_status (store_error err_database) = 500
create_status register_error = 500
create_status deregister_error = 500

pub created_status : ManagerError ⊎ Project → ℕ
created_status (inl e) = create_status e
created_status (inr p) = 201

-- The status with the rows that are left.
pub handle_create_project :
    Manager → Failures → Bool → Option Text → Text → ℕ → List Row → ℕ × List Row
handle_create_project m fails delete_ok none id now rows = (400, rows)
handle_create_project m fails delete_ok (some name) id now rows =
    let o = manager_create m fails delete_ok id name now rows in (created_status o.result, o.rows)

pub handle_get_project : Manager → (ℕ → Probe) → Bool → Text → List Row → ℕ ⊎ Project
handle_get_project m probe db_ok id rows = elim (get db_ok id rows) [
  | err err_not_found ↦ inl 404
  | err _ ↦ inl 500
  | ok p ↦ inr (with_health m (check probe (p ∷ [])) p)
]

pub deleted_status : Option ManagerError → ℕ
deleted_status none = 204
deleted_status (some (store_error err_not_found)) = 404
deleted_status (some e) = 500

pub handle_delete_project : Manager → Bool → Bool → Text → List Row → ℕ × List Row
handle_delete_project m get_ok delete_ok id rows =
    let o = manager_delete m get_ok delete_ok id rows in (deleted_status o.result, o.rows)
