-- ===== src/Terminal/Container/Tests.antt =====
-- Names that open a shell and names that do not, and the property at one.
use appx.Base.{◌≡◌, refl, false, none, some, [], ◌∷◌, ◌++◌}
use appx.Text.{Text, codes}
use appx.Project.Name.{validate_name}
use appx.Terminal.Container.{
  ContainerShell, CommandSpec, command_for, valid_slug, or_default, default_container_shell,
}
use appx.Terminal.Container.Slug.{command_for_valid}

abbrev shell : ContainerShell
shell = record { bin = codes "docker"; container = codes "outer"; workspace_dir = []; shell = [] }

abbrev join_paths : Text → Text → Text
join_paths a b = a ++ (47 ∷ b)

escaping : valid_slug (codes "../x") ≡ false
unfolding valid_slug appx.Text.text_eq appx.Text.has_byte
escaping = refl

valid : validate_name (codes "shop") ≡ none
unfolding validate_name appx.Project.Name.name_matches appx.Project.Name.tail_matches
    appx.Text.has_suffix
valid = refl

command_for_valid_example :
    (spec : CommandSpec) × (command_for join_paths shell (codes "shop") ≡ some spec)
    × (spec.name ≡ codes "docker")
    × (spec.args
        ≡ codes "exec"
          ∷ codes "-i"
          ∷ codes "-t"
          ∷ codes "-e"
          ∷ codes "TERM=xterm-256color"
          ∷ codes "-w"
          ∷ join_paths (or_default [] (codes "/workspace")) (codes "shop")
          ∷ codes "outer"
          ∷ or_default [] default_container_shell
          ∷ codes "-l"
          ∷ [])
command_for_valid_example = command_for_valid join_paths shell (codes "shop") valid refl refl
