-- ===== src/Runtime/Spec/Tests.antt =====
-- A run of RunArgs, and the property at it.
use appx.Base.{ℕ, ◌≡◌, refl, List, [], ◌∷◌, ◌++◌, All, true, false}
use appx.Text.{Text, codes}
use appx.Runtime.Spec.{ContainerSpec, run_args, validate, no_name, no_api_port}
use appx.Runtime.Spec.Flags.{Allowed, options, run_args-Allowed}

abbrev small : ContainerSpec
small = record {
  image = codes "i";
  name = codes "n";
  seccomp_profile_path = codes "/s";
  api_bind_host = codes "h";
  api_port = 4;
  app_bind_host = codes "h";
  app_port_start = 1;
  app_port_end = 2;
  volumes = record { name = codes "v"; dest = codes "/d" } ∷ [];
  env = (codes "K", codes "x") ∷ [];
  env_passthrough = codes "P" ∷ [];
  add_hosts = [];
  memory = codes "4g";
  cpus = [];
  readiness_url = codes "u";
  restart_policy = [];
}

small_args :
    run_args (λ ks. ks) small
    ≡ codes "run"
      ∷ codes "-d"
      ∷ codes "--name"
      ∷ codes "n"
      ∷ codes "--device"
      ∷ codes "/dev/net/tun"
      ∷ codes "--security-opt"
      ∷ codes "seccomp=/s"
      ∷ codes "--security-opt"
      ∷ codes "apparmor=unconfined"
      ∷ codes "--security-opt"
      ∷ codes "systempaths=unconfined"
      ∷ codes "--memory"
      ∷ codes "4g"
      ∷ codes "-e"
      ∷ codes "P"
      ∷ codes "-e"
      ∷ codes "K=x"
      ∷ codes "-v"
      ∷ codes "v:/d"
      ∷ codes "-p"
      ∷ codes "h:4:4"
      ∷ codes "-p"
      ∷ codes "h:1-2:1-2"
      ∷ codes "i"
      ∷ []
unfolding run_args appx.Runtime.Spec.sorted_env appx.Base.Maps.lookup appx.Text.itoa
    appx.Text.text_eq
small_args = refl

half_built : validate (record small { name = []; api_port = 0 }) ≡ no_name ∷ no_api_port ∷ []
unfolding validate
half_built = refl

run_args-Allowed_example :
    (os : List (Text × Text)) × (run_args (λ ks. ks) small
      ≡ codes "run" ∷ codes "-d" ∷ options os ++ (codes "i" ∷ []))
    × All (λ o. Allowed small o.0 o.1) os
run_args-Allowed_example = run_args-Allowed (λ ks. ks) small
