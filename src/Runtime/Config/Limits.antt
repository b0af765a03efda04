-- ===== src/Runtime/Config/Limits.antt =====
-- What BuildSpec of internal/containerruntime/config.go promises of the specification.
use appx.Base.{
  ◌≡◌, ◌≢◌, ◌↔◌, refl, sym, ◌∙◌, inl, inr, true, false, ◌||◌, List, [], ◌∷◌, ◌++◌, arith, taken,
  not_taken, Bool, Bool-cases, ◌==◌, if◌then◌else◌,
}
use appx.Text.{Text, codes, text_eq}
use appx.Text.Equality.{text_eq→eq, text_eq_iff}
use appx.Runtime.Spec.{ContainerSpec, Missing, validate, is_empty, when}
use appx.Runtime.Config.{
  Config, build_spec, or_default, default_name, limit, unlimited_resources, default_memory,
  default_cpus,
}

is_empty-nil : (t : Text) → is_empty t ≡ true → t ≡ []
is_empty-nil [] h = refl
is_empty-nil (x ∷ t) h = cc

is_empty-false : (t : Text) → is_empty t ≡ false → t ≢ []
is_empty-false [] h e = cc
is_empty-false (x ∷ t) h e = cc

or_default_full :
    (value fallback : Text)
    → is_empty fallback ≡ false
    → is_empty (or_default value fallback) ≡ false
or_default_full [] fallback h = h
or_default_full (x ∷ value) fallback h = refl

-- With a default that is none of the two, only the opt-out clears the field.
or_default-unlimited :
    (value fallback : Text)
    → text_eq fallback unlimited_resources ≡ false
    → text_eq (or_default value fallback) unlimited_resources ≡ text_eq value unlimited_resources
or_default-unlimited [] fallback h = h ∙ unfold text_eq in refl
or_default-unlimited (x ∷ value) fallback h = refl

limit-nil_iff :
    (value fallback : Text)
    → is_empty fallback ≡ false
    → text_eq fallback unlimited_resources ≡ false
    → (limit value fallback ≡ []) ↔ (value ≡ unlimited_resources)
limit-nil_iff value fallback full bounded = (
  (λ h. elim (Bool-cases (text_eq (or_default value fallback) unlimited_resources)) [
    | inl out ↦
        text_eq→eq value unlimited_resources
          (sym (or_default-unlimited value fallback bounded) ∙ out)
    | inr kept ↦ absurd (
        is_empty-false (or_default value fallback) (or_default_full value fallback full)
          (sym (not_taken _ _ _ kept) ∙ h))
  ]),
  (λ h.
      taken _ _ _ (
        or_default-unlimited value fallback bounded ∙ (text_eq_iff value unlimited_resources).1 h)),
)

limit-cases :
    (value fallback : Text)
    → text_eq fallback unlimited_resources ≡ false
    → limit value fallback ≡ (
        if text_eq value []
        then fallback
        else if text_eq value unlimited_resources
        then []
        else value)
limit-cases [] fallback h = not_taken _ _ _ h ∙ unfold text_eq in refl
limit-cases (x ∷ value) fallback h = unfold text_eq in refl

-- An empty setting of the memory gives 4g and one of the processors 2.0, the setting `unlimited` gives
-- no limit, and any other is taken as it is; so the container has no limit only if the configuration
-- says `unlimited`.
pub build_spec_unlimited :
    (default_image : Text) (cfg : Config)
    → (((build_spec default_image cfg).memory ≡ []) ↔ (cfg.memory ≡ unlimited_resources))
      × (((build_spec default_image cfg).cpus ≡ []) ↔ (cfg.cpus ≡ unlimited_resources))
      × ((build_spec default_image cfg).memory ≡ (
          if text_eq cfg.memory []
          then codes "4g"
          else if text_eq cfg.memory (codes "unlimited")
          then []
          else cfg.memory))
      × ((build_spec default_image cfg).cpus ≡ (
          if text_eq cfg.cpus []
          then codes "2.0"
          else if text_eq cfg.cpus (codes "unlimited")
          then []
          else cfg.cpus))
unfolding build_spec
build_spec_unlimited default_image cfg = (
  limit-nil_iff cfg.memory default_memory refl (unfold text_eq in refl),
  limit-nil_iff cfg.cpus default_cpus refl (unfold text_eq in refl),
  limit-cases cfg.memory default_memory (unfold text_eq in refl),
  limit-cases cfg.cpus default_cpus (unfold text_eq in refl),
)

nil-when :
    (xs : List Missing) (b : Bool) (m : Missing) → (xs ++ when b m ≡ []) ↔ ((xs ≡ []) × (b ≡ false))
nil-when [] true m = ((λ h. cc), (λ h. absurd cc))
nil-when [] false m = ((λ h. (refl, refl)), (λ h. refl))
nil-when (x ∷ xs) b m = ((λ h. cc), (λ h. absurd cc))

-- What Validate asks for.
pub record IsComplete (s : ContainerSpec) : Type 0 where
  pub image : is_empty s.image ≡ false
  pub name : is_empty s.name ≡ false
  pub seccomp : is_empty s.seccomp_profile_path ≡ false
  pub api_port : (s.api_port == 0) ≡ false
  pub app_ports : (s.app_port_start == 0 || s.app_port_end == 0) ≡ false
  pub readiness_url : is_empty s.readiness_url ≡ false

validate-IsComplete : (s : ContainerSpec) → IsComplete s → validate s ≡ []
unfolding validate
validate-IsComplete s c =
    ground (arith, c.image, c.name, c.seccomp, c.api_port, c.app_ports, c.readiness_url)

-- With a default image, a specification that BuildSpec makes passes Validate if the configuration has
-- the path of the seccomp profile, the three ports and the readiness URL.
pub validate-build_spec :
    (default_image : Text) (cfg : Config)
    → is_empty default_image ≡ false
    → is_empty cfg.seccomp_profile_path ≡ false
    → (cfg.api_port == 0) ≡ false
    → (cfg.app_port_start == 0 || cfg.app_port_end == 0) ≡ false
    → is_empty cfg.readiness_url ≡ false
    → validate (build_spec default_image cfg) ≡ []
unfolding build_spec
validate-build_spec default_image cfg image seccomp api apps url = validate-IsComplete _ (record {
  image = or_default_full cfg.image default_image image;
  name = or_default_full cfg.name default_name refl;
  seccomp = seccomp;
  api_port = api;
  app_ports = apps;
  readiness_url = url;
})
