-- ===== src/Runtime/Startup/Tests.antt =====
-- Runs of what main reads from its environment, and the properties at them.
use appx.Base.{
  ℕ, ◌≡◌, refl, Bool, true, false, Option, none, some, List, [], ◌∷◌, ◌++◌, if◌then◌else◌, ◌==◌,
}
use appx.Text.{Text, codes, text_eq}
use appx.Text.Int.{pos, negsuc}
use appx.Project.Ports.{next_available_port_pair}
use appx.Runtime.Spec.{is_empty, run_args}
use appx.Runtime.Config.{build_spec}
use appx.Runtime.Startup.{
  Env, Dir, outer_config, api_port_of, env_bool, passthrough_keys, listen_port, base_domain,
  migrate_data_dir,
}
use appx.Runtime.Startup.Migration.{Migrated, migrate_data_dir-Migrated}
use appx.Runtime.Startup.Published.{Publishes, allocated-Publishes}

abbrev env : Env
env key =
    if text_eq key (codes "APPX_AGENT_SECCOMP")
    then codes "/s"
    else if text_eq key (codes "APPX_AGENT_ENV_PASSTHROUGH")
    then codes "A,,ANTHROPIC_API_KEY,B"
    else []

keys : passthrough_keys (λ t. t) env ≡ codes "ANTHROPIC_API_KEY" ∷ codes "A" ∷ codes "B" ∷ []
unfolding passthrough_keys text_eq appx.Runtime.Startup.extra_keys appx.Text.split
keys = refl

http_port : listen_port (pos 0) [] true ≡ pos 8080
unfolding listen_port
http_port = refl

bad_port : listen_port (pos 0) (codes "x") false ≡ pos 443
unfolding listen_port appx.Text.Int.atoi
bad_port = refl

cookie_host : base_domain [] (codes "h") ≡ codes "h"
unfolding base_domain
cookie_host = refl

abbrev old_layout : Dir × Dir
old_layout = (
  (codes "appx.db", codes "1") ∷ (codes "key.pem", codes "2") ∷ [],
  (codes "key.pem", codes "3") ∷ [],
)

moved : migrate_data_dir (λ name. true) old_layout ≡ (
  (codes "key.pem", codes "2") ∷ [],
  (codes "appx.db", codes "1") ∷ (codes "key.pem", codes "3") ∷ [],
)
unfolding migrate_data_dir appx.Runtime.Startup.migrate_files appx.Runtime.Startup.migrate_file
    appx.Base.Maps.lookup text_eq appx.Base.Maps.delete appx.Base.Maps.insert
moved = refl

migrate_data_dir-Migrated_example :
    Migrated (codes "key.pem") old_layout (migrate_data_dir (λ name. true) old_layout)
migrate_data_dir-Migrated_example =
    migrate_data_dir-Migrated (λ name. true) (codes "key.pem") old_layout

first_pair : next_available_port_pair (λ p. p == 10000) ≡ some (10001, 10002)
unfolding next_available_port_pair appx.Project.Ports.scan
first_pair = refl

abbrev args : List Text
args =
    run_args (λ ks. ks)
      (build_spec (codes "i") (outer_config (λ t. t) (λ t. []) (codes "i") env [] [] []))

allocated-Publishes_example :
    Publishes args (codes "127.0.0.1") 10001 × Publishes args (codes "127.0.0.1") 10002
allocated-Publishes_example =
    allocated-Publishes (λ ks. ks) (λ t. t) (λ t. []) (codes "i") env [] [] [] (λ p. p == 10000)
      10001 10002 first_pair

has_profile :
    is_empty (outer_config (λ t. t) (λ t. []) (codes "i") env [] [] []).seccomp_profile_path ≡ false
unfolding outer_config text_eq
has_profile = refl

default_port : (api_port_of (λ t. []) [] == 0) ≡ false
unfolding api_port_of
default_port = refl
