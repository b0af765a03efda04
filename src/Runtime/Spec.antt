-- ===== src/Runtime/Spec.antt =====
-- internal/containerruntime/spec.go, and the drift test of supervisor.go. The environment is a list
-- of keys and values; sort.Strings is an argument.
pub mod Flags
pub mod Drift
mod Tests
use appx.Base.{
  ℕ, ◌+◌, Bool, true, false, ◌||◌, not, Option, none, some, List, [], ◌∷◌, ◌++◌, map, if◌then◌else◌,
  ◌==◌,
}
use appx.Base.Maps.{lookup}
use appx.Text.{Text, codes, itoa, text_eq}

pub record VolumeMount : Type 0 where
  pub name : Text
  pub dest : Text

pub record ContainerSpec : Type 0 where
  pub image : Text
  pub name : Text
  pub seccomp_profile_path : Text
  pub api_bind_host : Text
  pub api_port : ℕ
  pub app_bind_host : Text
  pub app_port_start : ℕ
  pub app_port_end : ℕ
  pub volumes : List VolumeMount
  pub env : List (Text × Text)
  pub env_passthrough : List Text
  pub add_hosts : List Text
  pub memory : Text
  pub cpus : Text
  pub readiness_url : Text
  pub restart_policy : Text

abbrev pub is_empty : Text → Bool
is_empty [] = true
is_empty (x ∷ xs) = false

abbrev pub value_of : Text → List (Text × Text) → Text
value_of k env = elim (lookup k env) [ none ↦ [] | some v ↦ v ]

unfoldable pub sorted_env : (List Text → List Text) → List (Text × Text) → List Text
sorted_env sort_strings env =
    map (λ k. k ++ (61 ∷ value_of k env)) (sort_strings (map (λ e. e.0) env))

-- One flag before each value.
abbrev pub each : Text → List Text → List Text
each flag [] = []
each flag (v ∷ vs) = flag ∷ v ∷ each flag vs

abbrev pub optional : Text → Text → List Text
optional flag value = if is_empty value then [] else flag ∷ value ∷ []

-- The flags that do not depend on the configuration but for the name and the profile's path.
abbrev pub boundary : ContainerSpec → List Text
boundary s =
    codes "--device"
    ∷ codes "/dev/net/tun"
    ∷ codes "--security-opt"
    ∷ (codes "seccomp=" ++ s.seccomp_profile_path)
    ∷ codes "--security-opt"
    ∷ codes "apparmor=unconfined"
    ∷ codes "--security-opt"
    ∷ codes "systempaths=unconfined"
    ∷ []

-- fmt.Sprintf with %s:%d:%d, and with %s:%d-%d:%d-%d.
abbrev pub api_publish : ContainerSpec → Text
api_publish s = s.api_bind_host ++ (58 ∷ itoa s.api_port) ++ (58 ∷ itoa s.api_port)

abbrev pub port_range : ContainerSpec → Text
port_range s = itoa s.app_port_start ++ (45 ∷ itoa s.app_port_end)

abbrev pub app_publish : ContainerSpec → Text
app_publish s = s.app_bind_host ++ (58 ∷ port_range s) ++ (58 ∷ port_range s)

abbrev pub bind_of : VolumeMount → Text
bind_of v = v.name ++ (58 ∷ v.dest)

unfoldable pub run_args : (List Text → List Text) → ContainerSpec → List Text
run_args sort_strings s =
    codes "run"
    ∷ codes "-d"
    ∷ codes "--name"
    ∷ s.name
    ∷ (boundary s
        ++ optional (codes "--restart") s.restart_policy
        ++ optional (codes "--memory") s.memory
        ++ optional (codes "--cpus") s.cpus
        ++ each (codes "--add-host") s.add_hosts
        ++ each (codes "-e") s.env_passthrough
        ++ each (codes "-e") (sorted_env sort_strings s.env)
        ++ each (codes "-v") (map bind_of s.volumes)
        ++ (codes "-p" ∷ api_publish s ∷ codes "-p" ∷ app_publish s ∷ [])
        ++ (s.image ∷ []))

-- What Validate finds missing.
pub data Missing : Type 0 where
  no_image : Missing
  no_name : Missing
  no_seccomp_profile_path : Missing
  no_api_port : Missing
  no_app_port_range : Missing
  no_readiness_url : Missing

abbrev pub when : Bool → Missing → List Missing
when true m = m ∷ []
when false m = []

unfoldable pub validate : ContainerSpec → List Missing
validate s =
    when (is_empty s.image) no_image
    ++ when (is_empty s.name) no_name
    ++ when (is_empty s.seccomp_profile_path) no_seccomp_profile_path
    ++ when (s.api_port == 0) no_api_port
    ++ when (s.app_port_start == 0 || s.app_port_end == 0) no_app_port_range
    ++ when (is_empty s.readiness_url) no_readiness_url

pub record ContainerStatus : Type 0 where
  pub exists_ : Bool
  pub running : Bool
  pub state : Text
  pub image : Text
  pub image_id : Text
  pub published_ports : List Text

pub data DriftReason : Type 0 where
  image_differs : Text → Text → DriftReason
  port_not_published : Text → DriftReason

abbrev pub published : Text → List Text → Bool
published key [] = false
published key (p ∷ ps) = text_eq p key || published key ps

abbrev pub port_key : ℕ → Text
port_key p = itoa p ++ codes "/tcp"

abbrev pub port_drift : List Text → ℕ → List DriftReason
port_drift ports p =
    if published (port_key p) ports then [] else port_not_published (port_key p) ∷ []

unfoldable pub drift_reasons : ContainerSpec → ContainerStatus → List DriftReason
drift_reasons s status =
    (if text_eq status.image s.image then [] else image_differs status.image s.image ∷ [])
    ++ port_drift status.published_ports s.api_port
    ++ port_drift status.published_ports s.app_port_start
    ++ port_drift status.published_ports s.app_port_end
