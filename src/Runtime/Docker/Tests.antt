-- ===== src/Runtime/Docker/Tests.antt =====
-- Runs of the supervisor against a scripted command line, and the properties at them.
use appx.Base.{ℕ, ◌≡◌, ◌<◌, refl, arith, ltb, true, false, none, some, [], ◌∷◌}
use appx.Text.{Text, codes}
use appx.Runtime.Spec.{ContainerSpec, ContainerStatus}
use appx.Runtime.Docker.{
  Supervisor, RunResult, DockerInspect, ensure_running, recreate, wait_healthy, err_unhealthy,
  err_spec_drift, err_daemon_unavailable, inspect_args, start_args, rm_args, healthy, unhealthy,
}
use appx.Runtime.Spec.{image_differs}
use appx.Runtime.Docker.Wait.{Waited, IsEarlier, wait_healthy-Waited}
use appx.Runtime.Docker.Laws.{Trace, Ready, ensure_running-Trace, ensure_running-Ready}

abbrev spec : ContainerSpec
spec = record {
  image = codes "i";
  name = codes "n";
  seccomp_profile_path = codes "/s";
  api_bind_host = codes "h";
  api_port = 4;
  app_bind_host = codes "h";
  app_port_start = 1;
  app_port_end = 2;
  volumes = [];
  env = [];
  env_passthrough = [];
  add_hosts = [];
  memory = [];
  cpus = [];
  readiness_url = codes "u";
  restart_policy = [];
}

abbrev stopped : DockerInspect
stopped = record {
  status = codes "exited";
  running = false;
  config_image = codes "i";
  image = codes "sha";
  port_bindings = (codes "4/tcp", 1) ∷ (codes "1/tcp", 1) ∷ (codes "2/tcp", 1) ∷ [];
}

-- A command line that always answers the same, with a probe that is answered the third time.
abbrev scripted : RunResult → DockerInspect → Supervisor
scripted answer di = record {
  runner = λ h. answer;
  unmarshal = λ text. some (di ∷ []);
  to_lower = λ t. t;
  sort_strings = λ ks. ks;
  ping = λ n. (ltb 1 n, 1);
  ready_timeout = 9;
  context_left = some 39;
  poll_interval = 2;
}

abbrev fine : RunResult
fine = record { stdout = []; stderr = []; failed = false }

abbrev docker : Supervisor
docker = scripted fine stopped

abbrev no_daemon : Supervisor
no_daemon =
    scripted (record { stdout = []; stderr = codes "is the docker daemon running"; failed = true })
      stopped

starts_stopped :
    ensure_running docker spec [] ≡ (none, start_args (codes "n") ∷ inspect_args (codes "n") ∷ [])
unfolding ensure_running appx.Runtime.Spec.validate appx.Runtime.Docker.ensure_from
    appx.Runtime.Docker.status appx.Runtime.Docker.read_status appx.Runtime.Docker.ensure_existing
    appx.Runtime.Spec.drift_reasons appx.Text.text_eq appx.Text.itoa appx.Runtime.Docker.start
    appx.Runtime.Docker.read_start wait_healthy appx.Runtime.Docker.wait_from
    appx.Runtime.Docker.deadline
starts_stopped = refl

daemon_down :
    ensure_running no_daemon spec [] ≡ (some err_daemon_unavailable, inspect_args (codes "n") ∷ [])
unfolding ensure_running appx.Runtime.Spec.validate appx.Runtime.Docker.ensure_from
    appx.Runtime.Docker.status appx.Runtime.Docker.read_status
    appx.Runtime.Docker.is_daemon_unavailable appx.Text.index_of
daemon_down = refl

drifts : ensure_running (scripted fine (record stopped { config_image = codes "j" })) spec [] ≡ (
  some (err_spec_drift (image_differs (codes "j") (codes "i") ∷ [])),
  inspect_args (codes "n") ∷ [],
)
unfolding ensure_running appx.Runtime.Spec.validate appx.Runtime.Docker.ensure_from
    appx.Runtime.Docker.status appx.Runtime.Docker.read_status appx.Runtime.Docker.ensure_existing
    appx.Runtime.Spec.drift_reasons appx.Text.text_eq appx.Text.itoa
drifts = refl

-- The context of the caller ends before the timeout.
cancelled : wait_healthy (record docker { context_left = some 5 }) ≡ unhealthy
unfolding wait_healthy appx.Runtime.Docker.wait_from appx.Runtime.Docker.deadline
cancelled = refl

too_slow : wait_healthy (record docker { ready_timeout = 5 }) ≡ unhealthy
unfolding wait_healthy appx.Runtime.Docker.wait_from appx.Runtime.Docker.deadline
too_slow = refl

positive : 0 < docker.poll_interval
positive = omega arith

wait_healthy-Waited_example :
    (last : ℕ) × IsEarlier 9 (some 39) last × Waited docker last 0 0 (wait_healthy docker)
wait_healthy-Waited_example = wait_healthy-Waited docker positive

ensure_running-Trace_example : Trace docker spec [] (ensure_running docker spec []).1
ensure_running-Trace_example = ensure_running-Trace docker spec []

succeeds : (ensure_running docker spec []).0 ≡ none
unfolding ensure_running appx.Runtime.Spec.validate appx.Runtime.Docker.ensure_from
    appx.Runtime.Docker.status appx.Runtime.Docker.read_status appx.Runtime.Docker.ensure_existing
    appx.Runtime.Spec.drift_reasons appx.Text.text_eq appx.Text.itoa appx.Runtime.Docker.start
    appx.Runtime.Docker.read_start wait_healthy appx.Runtime.Docker.wait_from
    appx.Runtime.Docker.deadline
succeeds = refl

ensure_running-Ready_example : (st : ContainerStatus) × Ready docker spec [] st
ensure_running-Ready_example = ensure_running-Ready docker spec [] succeeds
