-- ===== src/Server/Router.antt =====
-- internal/server/router.go: which handler a request goes to, by its Host header.
pub mod Dispatch
mod Tests
use appx.Base.{
  ℕ, Bool, true, false, not, ◌&&◌, ◌||◌, Option, none, some, List, [], ◌∷◌, ◌==◌, if◌then◌else◌,
}
use appx.Text.{Text, text_eq, has_suffix, trim_suffix}
use appx.Text.HostPort.{split_host_port}
use appx.Project.Name.{dev_suffix}
use appx.Project.Store.{Project, Row, Result, ok, err, get_by_name}

-- stripPort
pub strip_port : Text → Text
strip_port host = elim (split_host_port host) [ none ↦ host | some (h, port) ↦ h ]

pub data Route : Type 0 where
  dashboard unknown_host project_not_found environment_not_available : Route
  -- Behind the auth middleware, to 127.0.0.1 at the port.
  proxy_to : ℕ → Route

-- aliasSet
pub is_alias : List Text → Text → Bool
is_alias [] host = false
is_alias (a ∷ aliases) host = text_eq a host || is_alias aliases host

pub target_port : Bool → Project → ℕ
target_port want_dev p = if want_dev then p.dev_port else p.assigned_port

pub project_route : Bool → List Row → Text → Route
project_route db_ok rows label =
    let want_dev = has_suffix label dev_suffix in
    let lookup_name = if want_dev then trim_suffix label dev_suffix else label in
    elim (get_by_name db_ok lookup_name rows) [
      | err e ↦ project_not_found
      | ok p ↦
          if target_port want_dev p == 0
          then environment_not_available
          else proxy_to (target_port want_dev p)
    ]

host_route : Text → List Text → Bool → List Row → Text → Route
host_route base aliases db_ok rows host =
    if text_eq host base || is_alias aliases host
    then dashboard
    else (let suffix = b'.' ∷ base in
        if not (has_suffix host suffix)
        then unknown_host
        else if text_eq (trim_suffix host suffix) []
        then unknown_host
        else project_route db_ok rows (trim_suffix host suffix))

-- Without a base domain every request goes to the dashboard.
pub dispatch : Text → List Text → Bool → List Row → Text → Route
dispatch base aliases db_ok rows host =
    if text_eq base [] then dashboard else host_route base aliases db_ok rows (strip_port host)
