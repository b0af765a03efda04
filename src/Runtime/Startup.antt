-- ===== src/Runtime/Startup.antt =====
-- cmd/appx/main.go: what the server reads from its environment, and the outer container that it brings
-- up. The environment is a function from names to texts, empty if unset; url.Parse, strings.TrimSpace,
-- strings.ToLower and time.ParseDuration are arguments.
pub mod Migration
pub mod Published
mod Tests
use appx.Base.{
  ℕ, zero, suc, ◌==◌, Bool, true, false, not, ◌&&◌, ◌||◌, Option, none, some, List, [], ◌∷◌, ◌++◌,
  if◌then◌else◌,
}
use appx.Text.{Text, codes, text_eq, split, trim_right}
use appx.Text.Int.{ℤ, pos, negsuc, atoi}
use appx.Project.Ports.{port_range_start, published_port_range_end}
use appx.Base.Maps.{lookup, insert, delete}
use appx.Runtime.Spec.{ContainerSpec, is_empty}
use appx.Runtime.Docker.{Supervisor, RuntimeError, History, recreate, ensure_running}
use appx.Runtime.Config.{
  Config, build_spec, default_name, default_workspace_volume, default_podman_volume,
}

abbrev pub Env : Type 0
Env = Text → Text

unfoldable pub env_or : Env → Text → Text → Text
env_or env key fallback = if not (is_empty (env key)) then env key else fallback

abbrev pub any_of : Text → List Text → Bool
any_of v [] = false
any_of v (w ∷ ws) = text_eq v w || any_of v ws

-- `lower_trim` is strings.ToLower after strings.TrimSpace.
unfoldable pub env_bool : (Text → Text) → Env → Text → Bool
env_bool lower_trim env key =
    any_of (lower_trim (env key)) (codes "1" ∷ codes "true" ∷ codes "yes" ∷ codes "on" ∷ [])

-- filepath.Join(dataDir, "projects") is an argument.
unfoldable pub host_project_root : (Text → Text) → Text → Bool → Text
host_project_root join_projects data_dir container_mode =
    if container_mode then [] else join_projects data_dir

abbrev pub anthropic_api_key : Text
anthropic_api_key = codes "ANTHROPIC_API_KEY"

unfoldable pub extra_keys : (Text → Text) → List Text → List Text
extra_keys trim_space [] = []
extra_keys trim_space (k ∷ ks) =
    let rest = extra_keys trim_space ks in
    if not (is_empty (trim_space k)) && not (text_eq (trim_space k) anthropic_api_key)
    then trim_space k ∷ rest
    else rest

unfoldable pub passthrough_keys : (Text → Text) → Env → List Text
passthrough_keys trim_space env =
    anthropic_api_key
    ∷ (if not (is_empty (env (codes "APPX_AGENT_ENV_PASSTHROUGH")))
        then extra_keys trim_space (split 44 (env (codes "APPX_AGENT_ENV_PASSTHROUGH")))
        else [])

-- 120 seconds, unless the setting is a duration.
unfoldable pub container_ready_timeout : (Text → Option ℤ) → Env → ℤ
container_ready_timeout parse_duration env =
    if not (is_empty (env (codes "APPX_AGENT_READY_TIMEOUT")))
    then elim (parse_duration (env (codes "APPX_AGENT_READY_TIMEOUT"))) [
      | none ↦ pos 120000000000
      | some d ↦ d
    ]
    else pos 120000000000

abbrev pub default_no_proxy : Text
default_no_proxy =
    codes "localhost,127.0.0.1,.docker.io,.docker.com,ghcr.io,.ghcr.io,quay.io,.quay.io,"
    ++ codes "registry.k8s.io,.gcr.io,gcr.io"

-- The port of the agent-server's URL, or 4001. A URL's port has digits only.
unfoldable pub api_port_of : (Text → Text) → Text → ℕ
api_port_of url_port url =
    if not (is_empty (url_port url))
    then elim (atoi (url_port url)) [ some (pos p) ↦ p | some (negsuc n) ↦ 4001 | none ↦ 4001 ]
    else 4001

unfoldable pub outer_config :
    (Text → Text) → (Text → Text) → Text → Env → Text → Text → Text → Config
outer_config trim_space url_port default_image env agent_server_url token host_gateway = record {
  image = env_or env (codes "APPX_AGENT_IMAGE") default_image;
  name = env_or env (codes "APPX_AGENT_CONTAINER_NAME") default_name;
  seccomp_profile_path = env (codes "APPX_AGENT_SECCOMP");
  api_bind_host = [];
  api_port = api_port_of url_port agent_server_url;
  app_bind_host = [];
  app_port_start = port_range_start;
  app_port_end = published_port_range_end;
  workspace_volume = env_or env (codes "APPX_AGENT_WORKSPACE_VOLUME") default_workspace_volume;
  podman_volume = env_or env (codes "APPX_AGENT_PODMAN_VOLUME") default_podman_volume;
  token = token;
  env_passthrough = passthrough_keys trim_space env;
  host_gateway = host_gateway;
  egress_proxy_url =
      env_or env (codes "APPX_AGENT_EGRESS_PROXY_URL") (codes "http://host.docker.internal:9080");
  no_proxy = env_or env (codes "APPX_AGENT_NO_PROXY") default_no_proxy;
  memory = env (codes "APPX_AGENT_MEMORY");
  cpus = env (codes "APPX_AGENT_CPUS");
  readiness_url = trim_right 47 agent_server_url ++ (47 ∷ []);
  restart_policy = [];
}

-- How ensureOuterContainer ends: the server goes on, or stops with an error.
pub data Startup : Type 0 where
  up : Startup
  no_seccomp_profile : Startup
  failed : RuntimeError → Startup

abbrev pub startup_of : Option RuntimeError → Startup
startup_of none = up
startup_of (some e) = failed e

-- `readable` says whether a file can be read; `d` has the ready timeout of the environment.
unfoldable pub ensure_outer_container :
    Supervisor → (Text → Bool) → ContainerSpec → Bool → History → Startup × History
ensure_outer_container d readable spec want_recreate h =
    if is_empty spec.seccomp_profile_path || not (readable spec.seccomp_profile_path)
    then (no_seccomp_profile, h)
    else (let (r, h') = (if want_recreate then recreate d spec h else ensure_running d spec h) in
        (startup_of r, h'))

abbrev pub is_zero : ℤ → Bool
is_zero (pos zero) = true
is_zero (pos (suc n)) = false
is_zero (negsuc n) = false

-- strconv.Atoi may give a negative number, which is kept.
abbrev pub setting_port : Text → ℤ
setting_port setting =
    if not (is_empty setting) then (elim (atoi setting) [ none ↦ pos 0 | some p ↦ p ]) else pos 0

-- The listen port: the flag, the setting if it is a number, or the mode's default.
unfoldable pub listen_port : ℤ → Text → Bool → ℤ
listen_port flag setting http_mode = elim (if is_zero flag then setting_port setting else flag) [
  | pos (suc n) ↦ pos (suc n)
  | pos zero ↦ if http_mode then pos 8080 else pos 443
  | negsuc n ↦ negsuc n
]

-- The domain of the session cookie.
unfoldable pub base_domain : Text → Text → Text
base_domain domain host =
    if not (is_empty domain)
    then domain
    else if not (is_empty host)
    then host
    else codes "localhost"

-- The files of a directory, by name, with their contents.
abbrev pub Dir : Type 0
Dir = List (Text × Text)

abbrev pub legacy_files : List Text
legacy_files =
    codes "appx.db"
    ∷ codes "appx.db-wal"
    ∷ codes "appx.db-shm"
    ∷ codes "cert.pem"
    ∷ codes "key.pem"
    ∷ codes "initial_password"
    ∷ []

-- One file: `rename_ok` says whether it can be moved.
unfoldable pub migrate_file : (Text → Bool) → Text → Dir × Dir → Dir × Dir
migrate_file rename_ok name (data_dir, internals) = elim (lookup name data_dir) [
  | none ↦ (data_dir, internals)
  | some content ↦ elim (lookup name internals) [
    | some present ↦ (data_dir, internals)
    | none ↦
        if rename_ok name
        then (delete name data_dir, insert name content internals)
        else (data_dir, internals)
  ]
]

unfoldable pub migrate_files : (Text → Bool) → List Text → Dir × Dir → Dir × Dir
migrate_files rename_ok [] dirs = dirs
migrate_files rename_ok (name ∷ names) dirs =
    migrate_files rename_ok names (migrate_file rename_ok name dirs)

unfoldable pub migrate_data_dir : (Text → Bool) → Dir × Dir → Dir × Dir
migrate_data_dir rename_ok dirs = migrate_files rename_ok legacy_files dirs
