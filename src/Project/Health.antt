-- ===== src/Project/Health.antt =====
-- internal/project/health.go: which of a project's two servers are up. What a port does when it is
-- probed is a parameter.
use appx.Base.{ℕ, Bool, true, false, List, [], ◌∷◌, ltb, if◌then◌else◌}
use appx.Text.{Text, text_eq}
use appx.Project.Store.{Project}

pub record Health : Type 0 where
  pub app : Bool
  pub dev : Bool

-- How far a probe gets: no connection, no write, an answer, a timeout of the read, or another error.
pub data Probe : Type 0 where
  dial_failed write_failed answered read_timed_out read_failed : Probe

pub port_serving : Probe → Bool
port_serving dial_failed = false
port_serving write_failed = false
port_serving answered = true
port_serving read_timed_out = true
port_serving read_failed = false

-- A missing key gives the zero value.
pub health_of : Text → List (Text × Health) → Health
health_of id [] = record { app = false; dev = false }
health_of id ((k, h) ∷ result) = if text_eq k id then h else health_of id result

pub put_health : Text → Health → List (Text × Health) → List (Text × Health)
put_health id h [] = (id, h) ∷ []
put_health id h ((k, old) ∷ result) =
    let rest = put_health id h result in if text_eq k id then (k, h) ∷ result else (k, old) ∷ rest

-- The two probes of a project fold their verdicts into its entry, each into its own field.
check_project : (ℕ → Probe) → Project → List (Text × Health) → List (Text × Health)
check_project probe p result =
    let seeded = put_health p.id (record { app = false; dev = false }) result in
    let with_app =
      if ltb 0 p.assigned_port
      then put_health p.id
          (record (health_of p.id seeded) { app = port_serving (probe p.assigned_port) }) seeded
      else seeded in
    if ltb 0 p.dev_port
    then put_health p.id
        (record (health_of p.id with_app) { dev = port_serving (probe p.dev_port) }) with_app
    else with_app

-- The probes run side by side and touch different fields, so any order gives this result.
pub check_from : (ℕ → Probe) → List Project → List (Text × Health) → List (Text × Health)
check_from probe [] result = result
check_from probe (p ∷ ps) result = check_from probe ps (check_project probe p result)

pub check : (ℕ → Probe) → List Project → List (Text × Health)
check probe ps = check_from probe ps []
