-- ===== src/Terminal/Container.antt =====
-- internal/terminal/container.go: the command that opens a shell in the agent's container. path.Join is
-- an argument.
pub mod Slug
mod Tests
use appx.Base.{
  ℕ, Bool, true, false, not, ◌||◌, ◌&&◌, Option, none, some, List, [], ◌∷◌, if◌then◌else◌, leb,
  ◌==◌,
}
use appx.Text.{Text, codes, text_eq, has_byte}

pub record CommandSpec : Type 0 where
  pub name : Text
  pub args : List Text
  pub dir : Text
  -- `none` is nil.
  pub env : Option (List Text)

pub record ContainerShell : Type 0 where
  pub bin : Text
  pub container : Text
  pub workspace_dir : Text
  pub shell : Text

abbrev pub is_empty : Text → Bool
is_empty [] = true
is_empty (x ∷ xs) = false

abbrev pub default_container_shell : Text
default_container_shell = codes "/bin/bash"

abbrev pub is_segment_byte : ℕ → Bool
is_segment_byte c = (leb b'a' c && leb c b'z') || (leb b'0' c && leb c b'9') || c == b'-'

unfoldable pub all_segment_bytes : Text → Bool
all_segment_bytes [] = true
all_segment_bytes (c ∷ s) = is_segment_byte c && all_segment_bytes s

-- Whether validSlug gives no error. The bytes of a character above ASCII are none of those allowed.
unfoldable pub valid_slug : Text → Bool
valid_slug name =
    not (is_empty name)
    && (not (
          text_eq name (codes ".")
          || text_eq name (codes "..")
          || (has_byte b'/' name || has_byte 92 name))
        && all_segment_bytes name)

abbrev pub or_default : Text → Text → Text
or_default value fallback = if is_empty value then fallback else value

unfoldable pub command_for : (Text → Text → Text) → ContainerShell → Text → Option CommandSpec
command_for path_join c project_name =
    if is_empty c.bin
    then none
    else if is_empty c.container
    then none
    else if not (valid_slug project_name)
    then none
    else some (record {
      name = c.bin;
      args =
          codes "exec"
          ∷ codes "-i"
          ∷ codes "-t"
          ∷ codes "-e"
          ∷ codes "TERM=xterm-256color"
          ∷ codes "-w"
          ∷ path_join (or_default c.workspace_dir (codes "/workspace")) project_name
          ∷ c.container
          ∷ or_default c.shell default_container_shell
          ∷ codes "-l"
          ∷ [];
      dir = [];
      env = none;
    })
