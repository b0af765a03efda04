-- ===== src/Project/Manager.antt =====
-- internal/project/manager.go: the projects, kept in step with the agent-server. Its answers are
-- parameters; the calls made of it are recorded in order.
pub mod Laws
mod Tests
use appx.Base.{
  ℕ, ◌⊎◌, inl, inr, Bool, true, false, not, ◌&&◌, Option, none, some, List, [], ◌∷◌, ◌++◌, map,
  ◌==◌, if◌then◌else◌,
}
use appx.Text.{Text, codes, itoa, text_eq}
use appx.Project.Name.{dev_suffix}
use appx.Project.Store.{
  Project, Row, StoreError, Result, ok, err, Failures, get, get_by_name, create, delete, list,
}

pub record EnvTarget : Type 0 where
  pub port : ℕ
  pub url : Text

pub record Deployment : Type 0 where
  pub dev : EnvTarget
  pub prod : EnvTarget

pub data AgentCall : Type 0 where
  ensure_project : Text → Deployment → AgentCall
  delete_project : Text → AgentCall

-- An agent-server answers each call with success or an error.
abbrev pub AgentRegistrar : Type 0
AgentRegistrar = AgentCall → Bool

pub record Manager : Type 0 where
  pub project_root : Text
  pub base_domain : Text
  pub http_mode : Bool
  pub external_port : ℕ
  pub agent : Option AgentRegistrar

pub data ManagerError : Type 0 where
  store_error : StoreError → ManagerError
  register_error deregister_error : ManagerError

unfoldable pub scheme : Manager → Text
scheme m = if m.http_mode then codes "http" else codes "https"

unfoldable pub default_port : Manager → ℕ
default_port m = if m.http_mode then 80 else 443

unfoldable pub app_url : Manager → Text → Text
app_url m label =
    let host = if text_eq m.base_domain [] then label else label ++ b'.' ∷ m.base_domain in
    if not (m.external_port == 0) && not (m.external_port == default_port m)
    then scheme m ++ codes "://" ++ (host ++ b':' ∷ itoa m.external_port)
    else scheme m ++ codes "://" ++ host

unfoldable pub deployment_for : Manager → Project → Deployment
deployment_for m p = record {
  dev = record { port = p.dev_port; url = app_url m (p.name ++ dev_suffix) };
  prod = record { port = p.assigned_port; url = app_url m p.name };
}

-- What a call returns, the rows it leaves, and the calls it made.
pub record Outcome {ℓ} (A : Type ℓ) : Type ℓ where
  pub result : A
  pub rows : List Row
  pub calls : List AgentCall

-- The arguments of the store's Create come first; `delete_ok` says whether the rollback succeeds.
unfoldable pub manager_create :
    Manager → Failures → Bool → Text → Text → ℕ → List Row → Outcome (ManagerError ⊎ Project)
manager_create m fails delete_ok id name now rows =
    let (created, rows') = create fails id name now rows in
    elim created [
      | err e ↦ record { result = inl (store_error e); rows = rows'; calls = [] }
      | ok p ↦ elim m.agent [
        | none ↦ record { result = inr p; rows = rows'; calls = [] }
        | some answers ↦
            (let call = ensure_project p.name (deployment_for m p) in
              if answers call
              then record { result = inr p; rows = rows'; calls = call ∷ [] }
              else record {
                result = inl register_error;
                rows = (delete delete_ok p.id rows').1;
                calls = call ∷ [];
              })
      ]
    ]

unfoldable pub drop_row : Bool → Text → List Row → List AgentCall → Outcome (Option ManagerError)
drop_row delete_ok id rows calls =
    let (failed, rows') = delete delete_ok id rows in
    record {
      result = elim failed [ none ↦ none | some e ↦ some (store_error e) ];
      rows = rows';
      calls = calls;
    }

-- `none` is a call that returns no error.
unfoldable pub manager_delete :
    Manager → Bool → Bool → Text → List Row → Outcome (Option ManagerError)
manager_delete m get_ok delete_ok id rows = elim (get get_ok id rows) [
  | err e ↦ record { result = some (store_error e); rows = rows; calls = [] }
  | ok p ↦ elim m.agent [
    | none ↦ drop_row delete_ok id rows []
    | some answers ↦
        if answers (delete_project p.name)
        then drop_row delete_ok id rows (delete_project p.name ∷ [])
        else record {
          result = some deregister_error;
          rows = rows;
          calls = delete_project p.name ∷ [];
        }
  ]
]

-- filepath.Join of a clean absolute root and a slug.
pub project_dir : Manager → Text → Text
project_dir m name = if text_eq m.project_root [] then [] else m.project_root ++ b'/' ∷ name

failed_names : AgentRegistrar → Manager → List Project → List Text
failed_names answers m [] = []
failed_names answers m (p ∷ ps) =
    let rest = failed_names answers m ps in
    if answers (ensure_project p.name (deployment_for m p)) then rest else p.name ∷ rest

-- The names that could not be registered, or the store's error.
pub reconcile_agent_projects : Manager → Bool → List Row → Outcome (ManagerError ⊎ List Text)
reconcile_agent_projects m list_ok rows = elim m.agent [
  | none ↦ record { result = inr []; rows = rows; calls = [] }
  | some answers ↦ elim (list list_ok rows) [
    | err e ↦ record { result = inl (store_error e); rows = rows; calls = [] }
    | ok ps ↦ record {
      result = inr (failed_names answers m ps);
      rows = rows;
      calls = map (λ p. ensure_project p.name (deployment_for m p)) ps;
    }
  ]
]
