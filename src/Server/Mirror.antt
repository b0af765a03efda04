-- ===== src/Server/Mirror.antt =====
-- internal/server/agent_proxy.go: which requests of the browser reach the agent-server.
pub mod Laws
mod Tests
use appx.Base.{
  ℕ, ◌⊎◌, inl, inr, Bool, true, false, not, ◌||◌, Option, none, some, List, [], ◌∷◌, ◌++◌,
  if◌then◌else◌,
}
use appx.Text.{Text, codes, text_eq, split, trim_prefix}
use appx.Project.Store.{Row, Result, ok, err, get, get_by_name}

abbrev slash : ℕ
slash = b'/'

abbrev is_found : {A : Type 0} → Result A → Bool
is_found (ok a) = true
is_found (err e) = false

-- The case "projects", behind the first two segments.
projects_allowed : Bool → List Row → List Text → Bool
projects_allowed db_ok rows [] = false
projects_allowed db_ok rows (slug ∷ []) = false
projects_allowed db_ok rows (slug ∷ part ∷ more) =
    if not (text_eq part (codes "sessions"))
    then false
    else if text_eq slug []
    then false
    else is_found (get_by_name db_ok slug rows)

segments_allowed : Bool → List Row → Text → List Text → Bool
segments_allowed db_ok rows method [] = false
segments_allowed db_ok rows method (version ∷ []) = false
segments_allowed db_ok rows method (version ∷ area ∷ more) =
    if not (text_eq version (codes "v1"))
    then false
    else if text_eq area (codes "sessions")
    then text_eq method (codes "GET")
    else if text_eq area (codes "auth") || text_eq area (codes "custom")
    then true
    else if text_eq area (codes "projects")
    then projects_allowed db_ok rows more
    else false

-- The path has been cleaned.
pub mirror_access_allowed : Bool → List Row → Text → Text → Bool
mirror_access_allowed db_ok rows method mirror_path =
    segments_allowed db_ok rows method (split slash (trim_prefix mirror_path (codes "/")))

-- path.Clean is a parameter.
module _ (path_clean : Text → Text) where
  -- agentServerMirrorHandler: the path that is forwarded, or none for 403.
  pub mirror : Bool → List Row → Text → Text → Option Text
  mirror db_ok rows method pi_path =
      let mirror_path = path_clean (codes "/" ++ trim_prefix pi_path (codes "/")) in
      if mirror_access_allowed db_ok rows method mirror_path then some mirror_path else none

  pub clean_agent_server_path : Text → Text → Text
  clean_agent_server_path prefix agent_path =
      let cleaned = path_clean (codes "/" ++ trim_prefix agent_path (codes "/")) in
      if text_eq cleaned (codes "/") then prefix else prefix ++ cleaned

  -- agentServerProxyHandler with its Director: the path that is forwarded, or the status. The name
  -- of a project needs no escaping.
  pub agent_server_proxy : Bool → List Row → Text → Text → ℕ ⊎ Text
  agent_server_proxy db_ok rows project_id agent_path =
      if text_eq project_id [] then inl 400 else elim (get db_ok project_id rows) [
        | err e ↦ inl 404
        | ok p ↦ inr (
            clean_agent_server_path (codes "/v1/projects/" ++ p.name)
              (trim_prefix agent_path (codes "/")))
      ]
