-- ===== src/Runtime/Startup/Published.antt =====
-- The container that cmd/appx/main.go starts publishes the ports that the project store allocates.
use appx.Base.{
  ℕ, ◌+◌, ◌≤◌, ◌<◌, ◌≡◌, refl, sym, ap, ◌∙◌, map, append_assoc, List, Bool, false, Option, some,
  arith, ◌==◌, [], ◌∷◌, ◌++◌,
}
use appx.Text.{Text, codes, itoa, trim_right}
use appx.Project.Ports.{next_available_port_pair, port_range_start, published_port_range_end}
use appx.Project.Ports.Lowest.{Search, found, at_most_one, first, next_available_port_pair-Search}
use appx.Runtime.Spec.{
  ContainerSpec, validate, is_empty, run_args, api_publish, app_publish, boundary, optional, each,
  sorted_env, bind_of,
}
use appx.Runtime.Config.{build_spec}
use appx.Runtime.Config.Limits.{validate-build_spec}
use appx.Runtime.Startup.{Env, outer_config, api_port_of}

-- The two halves of a publish option: a bind host, and the same range of ports outside and inside.
abbrev pub range_option : Text → ℕ → ℕ → Text
range_option host first_port last_port =
    host
    ++ (codes ":" ++ (itoa first_port ++ (codes "-" ++ itoa last_port)))
    ++ (codes ":" ++ (itoa first_port ++ (codes "-" ++ itoa last_port)))

-- A command line that publishes a port on a host: it has an option -p with a range in which the port
-- lies.
pub record Publishes (args : List Text) (host : Text) (q : ℕ) : Type 0 where
  pub front : List Text
  pub rest : List Text
  pub first_port : ℕ
  pub last_port : ℕ
  pub has_option : args ≡ front ++ (codes "-p" ∷ range_option host first_port last_port ∷ rest)
  pub reached : (first_port ≤ q) × (q ≤ last_port)

tail_option :
    (xs : List Text) (a b c d e : Text)
    → xs ++ (a ∷ b ∷ c ∷ d ∷ []) ++ (e ∷ []) ≡ (xs ++ (a ∷ b ∷ [])) ++ (c ∷ d ∷ e ∷ [])
tail_option xs a b c d e =
    append_assoc xs (a ∷ b ∷ c ∷ d ∷ []) (e ∷ [])
    ∙ sym (append_assoc xs (a ∷ b ∷ []) (c ∷ d ∷ e ∷ []))

-- The arguments between the name and the published ports.
before_ports : (List Text → List Text) → ContainerSpec → List Text
before_ports sort_strings s =
    boundary s
    ++ optional (codes "--restart") s.restart_policy
    ++ optional (codes "--memory") s.memory
    ++ optional (codes "--cpus") s.cpus
    ++ each (codes "--add-host") s.add_hosts
    ++ each (codes "-e") s.env_passthrough
    ++ each (codes "-e") (sorted_env sort_strings s.env)
    ++ each (codes "-v") (map bind_of s.volumes)

run_args-Publishes :
    (sort_strings : List Text → List Text) (s : ContainerSpec) (q : ℕ)
    → s.app_port_start ≤ q
    → q ≤ s.app_port_end
    → Publishes (run_args sort_strings s) s.app_bind_host q
unfolding run_args before_ports
run_args-Publishes sort_strings s q low high = record {
  front =
      codes "run"
      ∷ codes "-d"
      ∷ codes "--name"
      ∷ s.name
      ∷ (before_ports sort_strings s ++ (codes "-p" ∷ api_publish s ∷ []));
  rest = s.image ∷ [];
  first_port = s.app_port_start;
  last_port = s.app_port_end;
  has_option =
      ap (λ xs. codes "run" ∷ codes "-d" ∷ codes "--name" ∷ s.name ∷ xs)
        (tail_option (before_ports sort_strings s) (codes "-p") (api_publish s) (codes "-p")
          (app_publish s) s.image);
  reached = (low, high);
}

Search-range :
    (used : ℕ → Bool) (r : Option (ℕ × ℕ)) (a b : ℕ)
    → Search used port_range_start (published_port_range_end + 1) r
    → r ≡ some (a, b)
    → (port_range_start ≤ a) × (a < b) × (b ≤ published_port_range_end)
Search-range used _ a b (found p d (first l u f below) (first l' u' f' below')) e =
    let same : p ≡ a = cc in let also : d ≡ b = cc in (omega arith, omega arith, omega arith)
Search-range used _ a b (at_most_one f) e = cc

-- Both ports that the store gives a new project are published by the command line that creates the
-- server's container, whatever the environment is, on 127.0.0.1: each lies in the range of one of its
-- -p options, which maps every port of the range to itself.
pub allocated-Publishes :
    (sort_strings : List Text → List Text) (trim_space url_port : Text → Text)
    (default_image : Text) (env : Env) (agent_server_url token host_gateway : Text)
    (used : ℕ → Bool) (a b : ℕ)
    → next_available_port_pair used ≡ some (a, b)
    → Publishes
        (run_args sort_strings (
          build_spec default_image (
            outer_config trim_space url_port default_image env agent_server_url token
              host_gateway)))
        (codes "127.0.0.1")
        a
      × Publishes
          (run_args sort_strings (
            build_spec default_image (
              outer_config trim_space url_port default_image env agent_server_url token
                host_gateway)))
          (codes "127.0.0.1")
          b
unfolding build_spec outer_config
allocated-Publishes sort_strings trim_space url_port default_image env agent_server_url token
      host_gateway used a b h =
    let (low, less, high) =
      Search-range used (next_available_port_pair used) a b (next_available_port_pair-Search used)
        h in
    (
      run_args-Publishes sort_strings _ a low (omega arith),
      run_args-Publishes sort_strings _ b (omega arith) high,
    )

append-full : (s : Text) (c : ℕ) → is_empty (s ++ (c ∷ [])) ≡ false
append-full [] c = refl
append-full (x ∷ s) c = refl

-- With a seccomp profile, an image by default and a port other than 0 in the agent-server's URL, the
-- specification that the server starts from passes Validate.
pub validate-outer_config :
    (trim_space url_port : Text → Text) (default_image : Text) (env : Env)
    (agent_server_url token host_gateway : Text)
    → is_empty default_image ≡ false
    → is_empty
        (outer_config trim_space url_port default_image env agent_server_url token
          host_gateway).seccomp_profile_path
      ≡ false
    → (api_port_of url_port agent_server_url == 0) ≡ false
    → validate (
        build_spec default_image
          (outer_config trim_space url_port default_image env agent_server_url token host_gateway))
      ≡ []
unfolding outer_config
validate-outer_config trim_space url_port default_image env agent_server_url token host_gateway
      image seccomp port =
    validate-build_spec default_image _ image seccomp port refl
      (append-full (trim_right 47 agent_server_url) 47)
