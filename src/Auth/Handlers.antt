-- ===== src/Auth/Handlers.antt =====
-- internal/server/auth_handlers.go and settings_handlers.go: login, logout, the change of password,
-- and the terminal's buffer size. `none` for a body is one that does not decode.
pub mod Laws
mod Tests
use appx.Base.{
  ℕ, ◌+◌, Bool, true, false, not, ◌||◌, Option, none, some, List, [], ◌∷◌, ltb, if◌then◌else◌,
}
use appx.Text.{Text, codes, itoa, text_eq}
use appx.Text.Int.{ℤ, pos, negsuc, print_int, atoi}
use appx.Text.HostPort.{split_host_port}
use appx.Auth.Sessions.{Session, create_session, delete_session, delete_all_sessions}
use appx.Auth.Passwords.{Store, set_password, check_password, get_setting, set_setting}

pub data Status : Type 0 where
  ok_status bad_request unauthorized internal_error : Status

-- What SetSessionCookie does, what a logout does, or nothing.
pub data CookieChange : Type 0 where
  unchanged cleared : CookieChange
  set_to : Text → CookieChange

pub record Reply : Type 0 where
  pub status : Status
  pub cookie : CookieChange
  pub store : Store

abbrev answer : Status → Store → Reply
answer status s = record { status = status; cookie = unchanged; store = s }

-- Which of the database calls of a handler succeed.
pub record Works : Type 0 where
  pub read_hash : Bool
  pub write_hash : Bool
  pub delete_all : Bool
  pub insert_session : Bool

-- clientIP
pub client_ip : Text → Text
client_ip remote_addr = elim (split_host_port remote_addr) [
  | none ↦ remote_addr
  | some (host, port) ↦ host
]

module _ (sha256 : Text → List ℕ) (generate : ℕ → Text → Text → Option Text)
    (compare_hash : Text → Text → Bool) where
  -- The end of a login and of a change of password.
  pub start_session : Works → Option (List ℕ) → ℕ → Store → Reply
  start_session w random now s =
      let (token, ss) = create_session sha256 w.insert_session random now s.sessions in
      elim token [
        | none ↦ answer internal_error s
        | some t ↦ record {
          status = ok_status;
          cookie = set_to t;
          store = record s { sessions = ss };
        }
      ]

  pub handle_login : Works → Option Text → Option (List ℕ) → ℕ → Store → Reply
  handle_login w none random now s = answer bad_request s
  handle_login w (some password) random now s =
      elim (check_password generate compare_hash w.read_hash password s) [
        | none ↦ answer unauthorized s
        | some false ↦ answer unauthorized s
        | some true ↦ start_session w random now s
      ]

  pub handle_logout : Bool → Option Text → Store → Reply
  handle_logout db_ok none s = record { status = ok_status; cookie = cleared; store = s }
  handle_logout db_ok (some token) s = record {
    status = ok_status;
    cookie = cleared;
    store = record s { sessions = delete_session sha256 db_ok token s.sessions };
  }

  pub replace_password : Works → Text → Text → Option (List ℕ) → ℕ → Store → Reply
  replace_password w salt new random now s =
      let (accepted, s') = set_password generate compare_hash w.write_hash salt new s in
      if accepted
      then start_session w random now
          (record s' { sessions = delete_all_sessions w.delete_all s'.sessions })
      else answer bad_request s'

  -- The body holds the current and the new password.
  pub handle_change_password :
      Works → Option (Text × Text) → Text → Option (List ℕ) → ℕ → Store → Reply
  handle_change_password w none salt random now s = answer bad_request s
  handle_change_password w (some (current, new)) salt random now s =
      elim (check_password generate compare_hash w.read_hash current s) [
        | none ↦ answer unauthorized s
        | some false ↦ answer unauthorized s
        | some true ↦ replace_password w salt new random now s
      ]

abbrev pub buffer_key : Text
buffer_key = codes "terminal_buffer_size"

pub handle_get_terminal_buffer_size : Bool → Store → ℤ
handle_get_terminal_buffer_size db_ok s = elim (get_setting db_ok buffer_key s) [
  | none ↦ pos 512
  | some v ↦ if text_eq v [] then pos 512 else elim (atoi v) [ none ↦ pos 512 | some n ↦ n ]
]

pub below : ℤ → ℕ → Bool
below (pos n) k = ltb n k
below (negsuc n) k = true

pub above : ℤ → ℕ → Bool
above (pos n) k = ltb k n
above (negsuc n) k = false

pub handle_set_terminal_buffer_size : Bool → Option ℤ → Store → Status × Store
handle_set_terminal_buffer_size db_ok none s = (bad_request, s)
handle_set_terminal_buffer_size db_ok (some value) s =
    if below value 64 || above value 4096
    then (bad_request, s)
    else (let (written, s') = set_setting db_ok buffer_key (print_int value) s in
        if written then (ok_status, s') else (internal_error, s'))
