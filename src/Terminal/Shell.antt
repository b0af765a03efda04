-- ===== src/Terminal/Shell.antt =====
-- internal/server/shell_handlers.go: the shell of a project, and the resizing of any shell. What the
-- container offers and whether a process starts are arguments; a reply is its status.
use appx.Base.{ℕ, ◌⊎◌, inl, inr, Bool, ◌||◌, Option, none, some, List, [], ◌==◌, if◌then◌else◌}
use appx.Text.{Text, text_eq}
use appx.Project.Store.{Row, err_not_found, ok, err, get}
use appx.Project.Manager.{Manager, project_dir}

-- A process to attach to a terminal, or the directory for a login shell.
pub data ShellCommand (Spec : Type 0) : Type 0 where
  command : Spec → ShellCommand Spec
  login_shell : Text → ShellCommand Spec

module _ {Spec : Type 0} where
  -- CommandFor and CreateCommand in a container, or Create in the project's directory.
  -- `container` is none if there is none; `starts` gives the id of the session that a command starts.
  open_shell :
      Manager → Option (Text → Option Spec) → (ShellCommand Spec → Option Text) → Text → ℕ ⊎ Text
  open_shell m none starts name =
      if text_eq (project_dir m name) []
      then inl 501
      else elim (starts (login_shell (project_dir m name))) [ none ↦ inl 502 | some id ↦ inr id ]
  open_shell m (some command_for) starts name = elim (command_for name) [
    | none ↦ inl 501
    | some spec ↦ elim (starts (command spec)) [ none ↦ inl 502 | some id ↦ inr id ]
  ]

  -- The id of the session, which is answered with 201, or the status of the error.
  pub handle_project_shell_create :
      Manager
      → Option (Text → Option Spec)
      → (ShellCommand Spec → Option Text)
      → Bool
      → Text
      → List Row
      → ℕ ⊎ Text
  handle_project_shell_create m container starts db_ok id rows = elim (get db_ok id rows) [
    | err err_not_found ↦ inl 404
    | err _ ↦ inl 500
    | ok p ↦ open_shell m container starts p.name
  ]

-- The server's own shell: the id of the session, or the status of the error.
pub handle_shell_create : (Text → Option Text) → ℕ ⊎ Text
handle_shell_create create_in = elim (create_in []) [ none ↦ inl 500 | some id ↦ inr id ]

-- `none` is a body that does not decode; `resize` says whether the session was found and resized.
pub handle_shell_resize : (Text → ℕ → ℕ → Bool) → Option (ℕ × ℕ) → Text → ℕ
handle_shell_resize resize none id = 400
handle_shell_resize resize (some (cols, rows)) id =
    if cols == 0 || rows == 0 then 400 else if resize id cols rows then 204 else 404
