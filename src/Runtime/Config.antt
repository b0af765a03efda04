-- ===== src/Runtime/Config.antt =====
-- internal/containerruntime/config.go, and the image of agentversion.go: from the configuration to
-- the specification of the container, the token of the agent-server, the choice of the command line
-- and of the gateway. strings.TrimSpace, the lookup of programs and the decoding of JSON are arguments.
pub mod Limits
pub mod Token
mod Tests
use appx.Base.{
  ℕ, Bool, true, false, not, ◌&&◌, Option, none, some, List, [], ◌∷◌, ◌++◌, if◌then◌else◌,
}
use appx.Text.{Text, codes, text_eq}
use appx.Auth.Sessions.{hex_encode}
use appx.Runtime.Spec.{ContainerSpec, VolumeMount, is_empty}

pub record Config : Type 0 where
  pub image : Text
  pub name : Text
  pub seccomp_profile_path : Text
  pub api_bind_host : Text
  pub api_port : ℕ
  pub app_bind_host : Text
  pub app_port_start : ℕ
  pub app_port_end : ℕ
  pub workspace_volume : Text
  pub podman_volume : Text
  pub token : Text
  pub env_passthrough : List Text
  pub host_gateway : Text
  pub egress_proxy_url : Text
  pub no_proxy : Text
  pub memory : Text
  pub cpus : Text
  pub readiness_url : Text
  pub restart_policy : Text

abbrev pub agent_image_repo : Text
agent_image_repo = codes "ghcr.io/appx-org/agent-server"

-- The version is the trimmed text of the embedded file.
unfoldable pub agent_image : (Text → Text) → Text → Text
agent_image trim_space agent_version_file = agent_image_repo ++ (58 ∷ trim_space agent_version_file)

abbrev pub default_name : Text
default_name = codes "builder-outer"

abbrev pub default_workspace_volume : Text
default_workspace_volume = codes "builder-workspace"

abbrev pub default_podman_volume : Text
default_podman_volume = codes "builder-podman-storage"

abbrev pub default_podman_dest : Text
default_podman_dest = codes "/home/builder/.local/share/containers"

abbrev pub default_workspace_dest : Text
default_workspace_dest = codes "/workspace"

abbrev pub default_bind_host : Text
default_bind_host = codes "127.0.0.1"

abbrev pub default_restart_policy : Text
default_restart_policy = codes "unless-stopped"

abbrev pub default_memory : Text
default_memory = codes "4g"

abbrev pub default_cpus : Text
default_cpus = codes "2.0"

abbrev pub unlimited_resources : Text
unlimited_resources = codes "unlimited"

abbrev pub or_default : Text → Text → Text
or_default value fallback = if is_empty value then fallback else value

-- The default, and then the opt-out that clears the field.
abbrev pub limit : Text → Text → Text
limit value fallback =
    if text_eq (or_default value fallback) unlimited_resources
    then []
    else or_default value fallback

abbrev pub token_env : Text → List (Text × Text)
token_env token = if is_empty token then [] else (codes "AGENT_SERVER_TOKEN", token) ∷ []

abbrev pub proxy_env : Text → Text → List (Text × Text)
proxy_env url no_proxy =
    if is_empty url
    then []
    else (codes "HTTPS_PROXY", url)
      ∷ (codes "NODE_USE_ENV_PROXY", codes "1")
      ∷ (if is_empty no_proxy then [] else (codes "NO_PROXY", no_proxy) ∷ [])

abbrev pub gateway_hosts : Text → List Text
gateway_hosts gateway =
    if is_empty gateway then [] else (codes "host.docker.internal:" ++ gateway) ∷ []

unfoldable pub build_spec : Text → Config → ContainerSpec
build_spec default_image cfg = record {
  image = or_default cfg.image default_image;
  name = or_default cfg.name default_name;
  seccomp_profile_path = cfg.seccomp_profile_path;
  api_bind_host = or_default cfg.api_bind_host default_bind_host;
  api_port = cfg.api_port;
  app_bind_host = or_default cfg.app_bind_host default_bind_host;
  app_port_start = cfg.app_port_start;
  app_port_end = cfg.app_port_end;
  volumes =
      record {
        name = or_default cfg.workspace_volume default_workspace_volume;
        dest = default_workspace_dest;
      }
      ∷ record {
        name = or_default cfg.podman_volume default_podman_volume;
        dest = default_podman_dest;
      }
      ∷ [];
  env =
      (codes "WORKSPACE_DIR", default_workspace_dest)
      ∷ (token_env cfg.token ++ proxy_env cfg.egress_proxy_url cfg.no_proxy);
  env_passthrough = cfg.env_passthrough;
  add_hosts = gateway_hosts cfg.host_gateway;
  memory = limit cfg.memory default_memory;
  cpus = limit cfg.cpus default_cpus;
  readiness_url = cfg.readiness_url;
  restart_policy = or_default cfg.restart_policy default_restart_policy;
}

-- The file of the token: absent, not readable, or its bytes.
pub data TokenFile : Type 0 where
  missing : TokenFile
  unreadable : TokenFile
  holds : Text → TokenFile

abbrev pub write_token : Bool → List ℕ → TokenFile → Option Text × TokenFile
write_token true random file = (some (hex_encode random), holds (hex_encode random ++ (10 ∷ [])))
write_token false random file = (none, file)

-- `random` holds the bytes of crypto/rand, if it has any; `write_ok` says whether the file is written.
abbrev pub new_token : Bool → Option (List ℕ) → TokenFile → Option Text × TokenFile
new_token write_ok none file = (none, file)
new_token write_ok (some random) file = write_token write_ok random file

unfoldable pub load_or_create_token :
    (Text → Text) → Bool → Option (List ℕ) → TokenFile → Option Text × TokenFile
load_or_create_token trim_space write_ok random unreadable = (none, unreadable)
load_or_create_token trim_space write_ok random missing = new_token write_ok random missing
load_or_create_token trim_space write_ok random (holds content) =
    if not (is_empty (trim_space content))
    then (some (trim_space content), holds content)
    else new_token write_ok random (holds content)

-- The first of docker and podman that is found, or docker.
unfoldable pub detect_bin : Text → (Text → Bool) → Text
detect_bin override found =
    if not (is_empty override)
    then override
    else if found (codes "docker")
    then codes "docker"
    else if found (codes "podman")
    then codes "podman"
    else codes "docker"

-- A network of `docker network inspect`: the gateways of docker's schema and of podman's.
pub record Network : Type 0 where
  pub ipam_gateways : List Text
  pub subnet_gateways : List Text

unfoldable pub first_set : List Text → Text
first_set [] = []
first_set (g ∷ gs) = if not (is_empty g) then g else first_set gs

abbrev pub gateway_of : List Network → Text
gateway_of [] = []
gateway_of (n ∷ ns) =
    if not (is_empty (first_set n.ipam_gateways))
    then first_set n.ipam_gateways
    else if not (is_empty (first_set n.subnet_gateways))
    then first_set n.subnet_gateways
    else gateway_of ns

-- `networks` is what the second command prints, if it succeeds and decodes.
unfoldable pub parse_gateway_json : Option (List Network) → Text
parse_gateway_json none = []
parse_gateway_json (some networks) = gateway_of networks

abbrev pub or_parsed : Text → Option (List Network) → Text
or_parsed gw networks = if is_empty gw then parse_gateway_json networks else gw

-- `template` is what the first command prints, if it succeeds.
unfoldable pub bridge_gateway : (Text → Text) → Option Text → Option (List Network) → Option Text
bridge_gateway trim_space none networks = none
bridge_gateway trim_space (some template) networks =
    if is_empty (or_parsed (trim_space template) networks)
    then none
    else some (or_parsed (trim_space template) networks)
