-- ===== src/Terminal/Container/Slug.antt =====
-- A project's name that the server has accepted opens a shell in the container.
use appx.Base.{
  ◌≡◌, refl, ap, ◌∙◌, subst, not_taken, true, false, not, none, some, [], ◌∷◌, arith, All, ◌≤◌,
  length,
}
use appx.Text.{Text, codes, text_eq, has_byte}
use appx.Text.Equality.{text_eq-false}
use appx.Project.Name.{validate_name, is_slug_byte}
use appx.Project.Name.Slug.{validate_name-IsSlug, validate_name-Free}
use appx.Terminal.Container.{
  ContainerShell, CommandSpec, command_for, valid_slug, all_segment_bytes, is_empty, or_default,
  default_container_shell,
}

slug_bytes : (s : Text) → All (λ c. is_slug_byte c ≡ true) s → all_segment_bytes s ≡ true
unfolding all_segment_bytes
slug_bytes [] h = refl
slug_bytes (c ∷ s) (h, hs) = ground (arith, slug_bytes s hs)

not_dots :
    (name : Text)
    → has_byte 46 name ≡ false
    → (text_eq name (codes ".") ≡ false) × (text_eq name (codes "..") ≡ false)
unfolding has_byte
not_dots name h = (
  text_eq-false name (codes ".")
      (λ e. absurd (let f = subst (λ x. has_byte 46 x ≡ false) e h in cc)),
  text_eq-false name (codes "..")
      (λ e. absurd (let f = subst (λ x. has_byte 46 x ≡ false) e h in cc)),
)

filled : (name : Text) → 2 ≤ length name → is_empty name ≡ false
filled [] h = absurd (omega arith)
filled (x ∷ name) h = refl

-- A name that ValidateName accepts, validSlug accepts.
pub valid_slug-validate_name : (name : Text) → validate_name name ≡ none → valid_slug name ≡ true
unfolding valid_slug
valid_slug-validate_name name h =
    let (bytes, long, _, _) = validate_name-IsSlug name h in
    let (dot, dots) = not_dots name (validate_name-Free 46 name refl h) in
    rw
      (
        filled name long,
        dot,
        dots,
        validate_name-Free b'/' name refl h,
        validate_name-Free 92 name refl h,
        slug_bytes name bytes,
      )
      refl

-- For a name that ValidateName accepts, with a command line and a container, CommandFor gives a command:
-- an exec of the shell in the container, in the workspace directory joined with the name.
pub command_for_valid :
    (path_join : Text → Text → Text) (c : ContainerShell) (name : Text)
    → validate_name name ≡ none
    → is_empty c.bin ≡ false
    → is_empty c.container ≡ false
    → (spec : CommandSpec) × (command_for path_join c name ≡ some spec)
      × (spec.name ≡ c.bin)
      × (spec.args
          ≡ codes "exec"
            ∷ codes "-i"
            ∷ codes "-t"
            ∷ codes "-e"
            ∷ codes "TERM=xterm-256color"
            ∷ codes "-w"
            ∷ path_join (or_default c.workspace_dir (codes "/workspace")) name
            ∷ c.container
            ∷ or_default c.shell default_container_shell
            ∷ codes "-l"
            ∷ [])
unfolding command_for
command_for_valid path_join c name h bin container =
    let spec : CommandSpec = record {
      name = c.bin;
      args =
          codes "exec"
          ∷ codes "-i"
          ∷ codes "-t"
          ∷ codes "-e"
          ∷ codes "TERM=xterm-256color"
          ∷ codes "-w"
          ∷ path_join (or_default c.workspace_dir (codes "/workspace")) name
          ∷ c.container
          ∷ or_default c.shell default_container_shell
          ∷ codes "-l"
          ∷ [];
      dir = [];
      env = none;
    } in
    (
      spec,
      not_taken _ _ _ bin
          ∙ not_taken _ _ _ container
          ∙ not_taken _ _ _ (ap not (valid_slug-validate_name name h)),
      refl,
      refl,
    )
