-- ===== src/Runtime/Config/Tests.antt =====
-- Runs of BuildSpec and of the token's file, and the properties at them.
use appx.Base.{
  ℕ, ◌/◌, ◌%◌, ◌&&◌, if◌then◌else◌, arith, ap, ◌∙◌, ◌≡◌, ◌↔◌, refl, true, false, none, some, List,
  [], ◌∷◌, ◌++◌, ◌==◌,
}
use appx.Text.{Text, codes, text_eq}
use appx.Auth.Sessions.{hex_digit, hex_encode}
use appx.Runtime.Spec.{is_empty}
use appx.Runtime.Config.{
  Config, build_spec, unlimited_resources, load_or_create_token, missing, holds, detect_bin,
}
use appx.Runtime.Config.Limits.{build_spec_unlimited}
use appx.Runtime.Config.Token.{load_or_create_token-load_or_create_token}

abbrev open_config : Config
open_config = record {
  image = [];
  name = [];
  seccomp_profile_path = codes "/s";
  api_bind_host = [];
  api_port = 4001;
  app_bind_host = [];
  app_port_start = 10000;
  app_port_end = 10199;
  workspace_volume = [];
  podman_volume = [];
  token = [];
  env_passthrough = [];
  host_gateway = [];
  egress_proxy_url = [];
  no_proxy = [];
  memory = codes "unlimited";
  cpus = [];
  readiness_url = codes "u";
  restart_policy = [];
}

no_memory_limit : (build_spec (codes "i") open_config).memory ≡ []
unfolding build_spec appx.Text.text_eq
no_memory_limit = refl

default_cpu_limit : (build_spec (codes "i") open_config).cpus ≡ codes "2.0"
unfolding build_spec appx.Text.text_eq
default_cpu_limit = refl

build_spec_unlimited_example :
    (((build_spec (codes "i") open_config).memory ≡ [])
      ↔ (open_config.memory ≡ unlimited_resources))
    × (((build_spec (codes "i") open_config).cpus ≡ []) ↔ (open_config.cpus ≡ unlimited_resources))
    × ((build_spec (codes "i") open_config).memory ≡ (
        if text_eq open_config.memory []
        then codes "4g"
        else if text_eq open_config.memory (codes "unlimited")
        then []
        else open_config.memory))
    × ((build_spec (codes "i") open_config).cpus ≡ (
        if text_eq open_config.cpus []
        then codes "2.0"
        else if text_eq open_config.cpus (codes "unlimited")
        then []
        else open_config.cpus))
build_spec_unlimited_example = build_spec_unlimited (codes "i") open_config

podman_found : detect_bin [] (λ name. false) ≡ codes "docker"
unfolding detect_bin
podman_found = refl

-- TrimSpace, for a text of hexadecimal digits with line ends behind it.
abbrev trim : Text → Text
trim [] = []
trim (c ∷ s) = let rest = trim s in if c == 10 && is_empty rest then [] else c ∷ rest

trim-cons : (c : ℕ) (s : Text) → (c == 10) ≡ false → trim (c ∷ s) ≡ c ∷ trim s
trim-cons c s h = ground arith

hex_digit-not_newline : (n : ℕ) → (hex_digit n == 10) ≡ false
hex_digit-not_newline n = ground arith

trim-hex : (bytes : List ℕ) → trim (hex_encode bytes ++ (10 ∷ [])) ≡ hex_encode bytes
unfolding hex_encode
trim-hex [] = refl
trim-hex (b ∷ bs) =
    trim-cons _ (hex_digit (b % 16) ∷ (hex_encode bs ++ (10 ∷ []))) (hex_digit-not_newline (b / 16))
    ∙ ap (◌∷◌ (hex_digit (b / 16))) (
        trim-cons _ (hex_encode bs ++ (10 ∷ [])) (hex_digit-not_newline (b % 16))
        ∙ ap (◌∷◌ (hex_digit (b % 16))) (trim-hex bs))

first_token :
    load_or_create_token trim true (some (171 ∷ 5 ∷ [])) missing
    ≡ (some (codes "ab05"), holds (codes "ab05" ++ (10 ∷ [])))
unfolding load_or_create_token hex_encode
first_token = refl

load_or_create_token-load_or_create_token_example :
    load_or_create_token trim false none (holds (codes "ab05" ++ (10 ∷ [])))
    ≡ (some (codes "ab05"), holds (codes "ab05" ++ (10 ∷ [])))
load_or_create_token-load_or_create_token_example =
    load_or_create_token-load_or_create_token trim trim-hex true false 171 (5 ∷ []) none missing
      (holds (codes "ab05" ++ (10 ∷ []))) (codes "ab05") first_token
