-- ===== src/Terminal/Socket.antt =====
-- internal/terminal/handler.go: what the WebSocket handler of a terminal decides; the frames themselves
-- are I/O. The decoding of URLs and JSON are arguments.
pub mod Limits
mod Tests
use appx.Base.{
  ℕ, zero, suc, ◌-◌, Bool, true, false, not, ◌||◌, Option, none, some, List, [], ◌∷◌, if◌then◌else◌,
  ltb, length, drop, ◌⊎◌, inl, inr,
}
use appx.Text.{Text, codes, text_eq, trim_suffix, after_last}
use appx.Text.Int.{ℤ, pos, negsuc}
use appx.Terminal.Sessions.{
  Manager, Execer, CallError, write_input, resize, replay_buffer, subscribe, get_session,
}

abbrev pub max_message_size : ℕ
max_message_size = 1048576

abbrev pub max_resize_dimension : ℕ
max_resize_dimension = 500

abbrev pub max_replay_bytes : ℕ
max_replay_bytes = 65536

-- `parse_host` is the host of a URL that parses.
unfoldable pub check_origin : (Text → Option Text) → Text → Text → Bool
check_origin parse_host origin host =
    if text_eq origin []
    then false
    else elim (parse_host origin) [ none ↦ false | some h ↦ text_eq h host ]

-- The last segment of the path; a path without a slash is refused.
unfoldable pub session_id_of : Text → Option Text
session_id_of path = after_last 47 (trim_suffix path (codes "/"))

unfoldable pub capped_replay : Option (List ℕ) → List ℕ
capped_replay none = []
capped_replay (some replay) =
    if ltb max_replay_bytes (length replay)
    then drop (length replay - max_replay_bytes) replay
    else replay

-- How a connection starts: refused before the upgrade, by the upgrade, or closed at once; or open with
-- its subscription and the replay.
pub data Connection : Type 0 where
  bad_path : Connection
  not_upgraded : Connection
  session_not_found : Connection
  opened : Text → ℕ → List ℕ → Connection

abbrev pub opened_with : Text → Option ℕ × Manager → Connection × Manager
opened_with id (none, m) = (session_not_found, m)
opened_with id (some c, m) = (opened id c (capped_replay (replay_buffer id m)), m)

abbrev pub upgraded : Text → Option ℕ → Manager → Connection × Manager
upgraded id none m = (session_not_found, m)
upgraded id (some p) m = opened_with id (subscribe id m)

-- `upgrades` says whether the upgrade succeeds, the check of the origin included.
unfoldable pub connect : Bool → Text → Manager → Connection × Manager
connect upgrades path m = elim (session_id_of path) [
  | none ↦ (bad_path, m)
  | some id ↦ if upgrades then upgraded id (get_session id m) m else (not_upgraded, m)
]

-- A frame of the client: bytes for the shell, or a text that decodes to a resize message or does not.
pub data Frame : Type 0 where
  binary : List ℕ → Frame
  resizes : ℤ → ℤ → Frame
  malformed : Frame
  other_type : Frame

-- What a frame makes the handler do.
pub data Action : Type 0 where
  ignore : Action
  write : List ℕ → Action
  resize_to : ℕ → ℕ → Action

abbrev pub clamp : ℕ → ℕ
clamp n = if ltb max_resize_dimension n then max_resize_dimension else n

unfoldable pub dispatch_frame : Frame → Action
dispatch_frame (binary input) = write input
dispatch_frame (resizes (pos (suc cols)) (pos (suc rows))) =
    resize_to (clamp (suc cols)) (clamp (suc rows))
dispatch_frame (resizes _ _) = ignore
dispatch_frame malformed = ignore
dispatch_frame other_type = ignore

-- The error of the call is logged; the pump goes on.
unfoldable pub handle_frame :
    Execer → (ℕ → List ℕ → Bool) → Text → Manager → Frame → Option CallError
handle_frame docker conn_write id m frame = elim (dispatch_frame frame) [
  | ignore ↦ none
  | write input ↦ write_input conn_write id input m
  | resize_to cols rows ↦ resize docker id cols rows m
]
