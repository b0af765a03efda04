-- ===== src/Runtime/Docker.antt =====
-- internal/containerruntime/docker.go: the supervisor of the container. What the command line answers
-- depends on the commands so far, the latest first; strings.ToLower, the decoding of JSON and the
-- answers of the health probe are arguments. Errors carry what tells them apart, not their text.
pub mod Wait
pub mod Laws
mod Tests
use appx.Base.{
  ℕ, zero, suc, ◌+◌, Bool, true, false, ◌||◌, not, Option, none, some, List, [], ◌∷◌, if◌then◌else◌,
  ltb, filter, map,
}
use appx.Text.{Text, codes, index_of}
use appx.Runtime.Spec.{
  ContainerSpec, ContainerStatus, Missing, DriftReason, validate, run_args, drift_reasons,
}

-- What a command gives.
pub record RunResult : Type 0 where
  pub stdout : Text
  pub stderr : Text
  pub failed : Bool

-- An entry of `docker inspect`: the ports with the number of their bindings.
pub record DockerInspect : Type 0 where
  pub status : Text
  pub running : Bool
  pub config_image : Text
  pub image : Text
  pub port_bindings : List (Text × ℕ)

pub record Supervisor : Type 0 where
  pub runner : List (List Text) → RunResult
  pub unmarshal : Text → Option (List DockerInspect)
  pub to_lower : Text → Text
  pub sort_strings : List Text → List Text
  -- The n-th probe: whether it is answered, and how long it takes.
  pub ping : ℕ → Bool × ℕ
  pub ready_timeout : ℕ
  -- When the caller's context is done, from the start of the wait for health; `none` is never.
  pub context_left : Option ℕ
  pub poll_interval : ℕ

pub data RuntimeError : Type 0 where
  err_incomplete : List Missing → RuntimeError
  err_daemon_unavailable : RuntimeError
  err_image_missing : RuntimeError
  err_unhealthy : RuntimeError
  err_spec_drift : List DriftReason → RuntimeError
  err_other : RuntimeError

pub data Result (A : Type 0) : Type 0 where
  ok : A → Result A
  err : RuntimeError → Result A

abbrev pub contains : Text → Text → Bool
contains s p = elim (index_of s p) [ none ↦ false | some i ↦ true ]

abbrev pub contains_any : Text → List Text → Bool
contains_any s [] = false
contains_any s (p ∷ ps) = contains s p || contains_any s ps

unfoldable pub is_daemon_unavailable : (Text → Text) → Text → Bool
is_daemon_unavailable to_lower stderr = contains_any (to_lower stderr) (
    codes "cannot connect to the docker daemon"
    ∷ codes "is the docker daemon running"
    ∷ codes "cannot connect to podman"
    ∷ codes "permission denied while trying to connect"
    ∷ codes "command not found"
    ∷ codes "executable file not found"
    ∷ [])

unfoldable pub is_no_such_object : (Text → Text) → Text → Bool
is_no_such_object to_lower stderr =
    contains_any (to_lower stderr) (codes "no such object" ∷ codes "no such container" ∷ [])

unfoldable pub is_image_missing : (Text → Text) → Text → Bool
is_image_missing to_lower stderr = contains_any (to_lower stderr) (
    codes "unable to find image"
    ∷ codes "manifest unknown"
    ∷ codes "no such image"
    ∷ codes "image not known"
    ∷ codes "pull access denied"
    ∷ [])

abbrev pub absent : ContainerStatus
absent = record {
  exists_ = false;
  running = false;
  state = [];
  image = [];
  image_id = [];
  published_ports = [];
}

abbrev pub has_binding : Text × ℕ → Bool
has_binding (port, n) = ltb 0 n

abbrev pub status_of : DockerInspect → ContainerStatus
status_of di = record {
  exists_ = true;
  running = di.running;
  state = di.status;
  image = di.config_image;
  image_id = di.image;
  published_ports = map (λ e. e.0) (filter has_binding di.port_bindings);
}

abbrev pub inspect_args : Text → List Text
inspect_args name = codes "inspect" ∷ codes "--type" ∷ codes "container" ∷ name ∷ []

abbrev pub start_args : Text → List Text
start_args name = codes "start" ∷ name ∷ []

abbrev pub rm_args : Text → List Text
rm_args name = codes "rm" ∷ codes "-f" ∷ name ∷ []

abbrev pub parse_inspect : Option (List DockerInspect) → Result ContainerStatus
parse_inspect none = err err_other
parse_inspect (some []) = ok absent
parse_inspect (some (di ∷ rest)) = ok (status_of di)

-- The answer to `docker inspect`.
unfoldable pub read_status : Supervisor → RunResult → Result ContainerStatus
read_status d r =
    if r.failed
    then if is_daemon_unavailable d.to_lower r.stderr
      then err err_daemon_unavailable
      else if is_no_such_object d.to_lower r.stderr
      then ok absent
      else err err_other
    else parse_inspect (d.unmarshal r.stdout)

abbrev pub History : Type 0
History = List (List Text)

unfoldable pub status : Supervisor → Text → History → Result ContainerStatus × History
status d name h = let h' = inspect_args name ∷ h in (read_status d (d.runner h'), h')

unfoldable pub read_create : Supervisor → RunResult → Option RuntimeError
read_create d r =
    if r.failed
    then if is_daemon_unavailable d.to_lower r.stderr
      then some err_daemon_unavailable
      else if is_image_missing d.to_lower r.stderr
      then some err_image_missing
      else some err_other
    else none

unfoldable pub create : Supervisor → ContainerSpec → History → Option RuntimeError × History
create d spec h = let h' = run_args d.sort_strings spec ∷ h in (read_create d (d.runner h'), h')

unfoldable pub read_start : Supervisor → RunResult → Option RuntimeError
read_start d r =
    if r.failed
    then if is_daemon_unavailable d.to_lower r.stderr
      then some err_daemon_unavailable
      else some err_other
    else none

unfoldable pub start : Supervisor → Text → History → Option RuntimeError × History
start d name h = let h' = start_args name ∷ h in (read_start d (d.runner h'), h')

pub data Health : Type 0 where
  healthy : Health
  unhealthy : Health
  out_of_fuel : Health

-- context.WithDeadline: the timeout, or the end of the caller's context if that comes first.
unfoldable pub deadline : Supervisor → ℕ
deadline d = elim d.context_left [
  | none ↦ d.ready_timeout
  | some left ↦ if ltb left d.ready_timeout then left else d.ready_timeout
]

-- One turn of the loop at `now`, the n-th probe: after a probe that fails, the wait ends at the
-- deadline or goes on after the poll interval, whichever comes first (the deadline if both do).
unfoldable pub wait_from : ℕ → Supervisor → ℕ → ℕ → Health
wait_from zero d now n = out_of_fuel
wait_from (suc fuel) d now n =
    let next = now + (d.ping n).1 + d.poll_interval in
    let rest = wait_from fuel d next (suc n) in
    if (d.ping n).0 then healthy else if ltb next (deadline d) then rest else unhealthy

-- Each turn takes the poll interval at least, so the deadline bounds their number.
unfoldable pub wait_healthy : Supervisor → Health
wait_healthy d = wait_from (suc (deadline d)) d 0 0

abbrev pub health_error : Health → Option RuntimeError
health_error healthy = none
health_error unhealthy = some err_unhealthy
health_error out_of_fuel = some err_other

-- The error of a step, or else of the wait for health after it.
abbrev pub then_wait : Supervisor → Option RuntimeError × History → Option RuntimeError × History
then_wait d (some e, h) = (some e, h)
then_wait d (none, h) = (health_error (wait_healthy d), h)

-- `none` is success. The container exists, with these reasons of drift.
unfoldable pub ensure_existing :
    Supervisor
    → ContainerSpec
    → ContainerStatus
    → List DriftReason
    → History
    → Option RuntimeError × History
ensure_existing d spec st (r ∷ rs) h = (some (err_spec_drift (r ∷ rs)), h)
ensure_existing d spec st [] h =
    if not st.running then then_wait d (start d spec.name h) else then_wait d (none, h)

unfoldable pub ensure_from :
    Supervisor → ContainerSpec → Result ContainerStatus × History → Option RuntimeError × History
ensure_from d spec (err e, h) = (some e, h)
ensure_from d spec (ok st, h) =
    if not st.exists_
    then then_wait d (create d spec h)
    else ensure_existing d spec st (drift_reasons spec st) h

abbrev pub ensure_valid :
    Supervisor → ContainerSpec → List Missing → History → Option RuntimeError × History
ensure_valid d spec (m ∷ ms) h = (some (err_incomplete (m ∷ ms)), h)
ensure_valid d spec [] h = ensure_from d spec (status d spec.name h)

unfoldable pub ensure_running : Supervisor → ContainerSpec → History → Option RuntimeError × History
ensure_running d spec h = ensure_valid d spec (validate spec) h

unfoldable pub read_rm : Supervisor → RunResult → Option RuntimeError
read_rm d r =
    if r.failed
    then if is_daemon_unavailable d.to_lower r.stderr
      then some err_daemon_unavailable
      else if not (is_no_such_object d.to_lower r.stderr)
      then some err_other
      else none
    else none

abbrev pub then_create :
    Supervisor → ContainerSpec → Option RuntimeError × History → Option RuntimeError × History
then_create d spec (some e, h) = (some e, h)
then_create d spec (none, h) = then_wait d (create d spec h)

unfoldable pub recreate : Supervisor → ContainerSpec → History → Option RuntimeError × History
recreate d spec h = elim (validate spec) [
  | m ∷ ms ↦ (some (err_incomplete (m ∷ ms)), h)
  | [] ↦ (let h' = rm_args spec.name ∷ h in then_create d spec (read_rm d (d.runner h'), h'))
]
