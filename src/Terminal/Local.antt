-- ===== src/Terminal/Local.antt =====
-- internal/terminal/local.go: the manager of shells on a PTY of the server. The environment, the user
-- database and the PTY are arguments. What the goroutines share stands in a store, as in Terminal.Sessions.
pub mod Output
mod Tests
use appx.Base.{
  ℕ, suc, ◌+◌, Bool, true, false, not, Option, none, some, List, [], ◌∷◌, ◌++◌, if◌then◌else◌, ◌⊎◌,
  inl, inr, leb, length, drop,
}
use appx.Base.Effects.{Effect, ok, panic, ◌>>=◌}
use appx.Base.Maps.{lookup, insert, delete}
use appx.Text.{Text, codes, text_eq, split, trim_right}
use appx.Terminal.Ring.{RingBuffer, new_ring_buffer, write, bytes}
use appx.Terminal.Fanout.{Chan, new_chan, update, unsubscribed, subscribed, broadcast, close_all}
use appx.Terminal.Container.{CommandSpec, is_empty}

pub record LocalSession : Type 0 where
  pub id : Text
  pub created_at : ℕ
  pub ptmx : ℕ
  pub ptmx_closed : Bool
  pub buf : RingBuffer
  pub subs : List ℕ
  pub done : Bool
  pub close_once : Bool

pub record LocalManager : Type 0 where
  pub sessions : List (Text × ℕ)
  pub buf_size : ℕ
  pub objects : ℕ → LocalSession
  pub next_object : ℕ
  pub chans : ℕ → Chan
  pub next_chan : ℕ

abbrev pub new_session : Text → ℕ → ℕ → ℕ → LocalSession
new_session id now ptmx buf_size = record {
  id = id;
  created_at = now;
  ptmx = ptmx;
  ptmx_closed = false;
  buf = new_ring_buffer buf_size;
  subs = [];
  done = false;
  close_once = false;
}

abbrev pub new_local_manager : ℕ → LocalManager
new_local_manager buf_size = record {
  sessions = [];
  buf_size = buf_size;
  objects = λ p. new_session [] 0 0 0;
  next_object = 0;
  chans = λ c. new_chan;
  next_chan = 0;
}

-- os/user: the name and the home of the current user.
pub record User : Type 0 where
  pub username : Text
  pub home_dir : Text

unfoldable pub split_colon : Text → List Text
split_colon s = split 58 (trim_right 10 s)

-- fields[6], if there are at least seven fields and it is not empty.
abbrev pub shell_field : List Text → Option Text
shell_field fields = elim (drop 6 fields) [
  | [] ↦ none
  | shell ∷ rest ↦ if is_empty shell then none else some shell
]

abbrev pub passwd_shell : (Text → Option Text) → Option User → Text
passwd_shell getent none = codes "/bin/sh"
passwd_shell getent (some u) = elim (getent u.username) [
  | none ↦ codes "/bin/sh"
  | some line ↦ elim (shell_field (split_colon line)) [
    | none ↦ codes "/bin/sh"
    | some shell ↦ shell
  ]
]

abbrev pub home_of : Text → Option User → Text
home_of home none = home
home_of home (some u) = if is_empty u.home_dir then home else u.home_dir

-- The shell and the home directory.
unfoldable pub login_shell : (Text → Text) → Option User → (Text → Option Text) → Text × Text
login_shell getenv user getent = (
  if not (is_empty (getenv (codes "SHELL")))
      then getenv (codes "SHELL")
      else passwd_shell getent user,
  home_of (getenv (codes "HOME")) user,
)

abbrev pub login_spec : List Text → Text → Text × Text → CommandSpec
login_spec environ cwd (shell, home) = record {
  name = shell;
  args = codes "-l" ∷ [];
  dir = if is_empty cwd then home else cwd;
  env = some (environ ++ (codes "TERM=xterm-256color" ∷ (codes "HOME=" ++ home) ∷ []));
}

pub data LocalError : Type 0 where
  err_no_executable : LocalError
  err_pty_start : LocalError
  err_session_not_found : LocalError
  err_call_failed : LocalError

-- The session enters the registry.
unfoldable pub register : Text → ℕ → ℕ → LocalManager → ℕ × LocalManager
register id ptmx now m = (
  m.next_object,
  record m {
    sessions = insert id m.next_object m.sessions;
    objects = update m.objects m.next_object (new_session id now ptmx m.buf_size);
    next_object = suc m.next_object;
  },
)

-- No environment means the server's own with TERM; an empty one is taken as it is.
abbrev pub environment : List Text → Option (List Text) → List Text
environment environ none = environ ++ (codes "TERM=xterm-256color" ∷ [])
environment environ (some es) = es

-- `pty_start` gives the number of the PTY that the command starts on.
unfoldable pub create_command :
    (CommandSpec → Option ℕ)
    → List Text
    → Text
    → ℕ
    → CommandSpec
    → LocalManager
    → (LocalError ⊎ ℕ) × LocalManager
create_command pty_start environ id now spec m =
    if is_empty spec.name
    then (inl err_no_executable, m)
    else elim (pty_start (record spec { env = some (environment environ spec.env) })) [
      | none ↦ (inl err_pty_start, m)
      | some ptmx ↦ (let (p, m') = register id ptmx now m in (inr p, m'))
    ]

unfoldable pub create_local :
    (CommandSpec → Option ℕ)
    → List Text
    → Text × Text
    → Text
    → ℕ
    → Text
    → LocalManager
    → (LocalError ⊎ ℕ) × LocalManager
create_local pty_start environ shell_home id now cwd m =
    create_command pty_start environ id now (login_spec environ cwd shell_home) m

abbrev pub outcome : Bool → Option LocalError
outcome true = none
outcome false = some err_call_failed

unfoldable pub write_local : (ℕ → List ℕ → Bool) → Text → List ℕ → LocalManager → Option LocalError
write_local pty_write id input m = elim (lookup id m.sessions) [
  | none ↦ some err_session_not_found
  | some p ↦ outcome (pty_write (m.objects p).ptmx input)
]

unfoldable pub resize_local : (ℕ → ℕ → ℕ → Bool) → Text → ℕ → ℕ → LocalManager → Option LocalError
resize_local set_size id cols rows m = elim (lookup id m.sessions) [
  | none ↦ some err_session_not_found
  | some p ↦ outcome (set_size (m.objects p).ptmx cols rows)
]

abbrev pub with_subs : LocalSession → List ℕ → LocalSession
with_subs s subs = record s { subs = subs }

unfoldable pub subscribe_local : Text → LocalManager → Option ℕ × LocalManager
subscribe_local id m = elim (lookup id m.sessions) [
  | none ↦ (none, m)
  | some p ↦ (
    some m.next_chan,
    record m {
      objects =
          update m.objects p (with_subs (m.objects p) (subscribed m.next_chan (m.objects p).subs));
      chans = update m.chans m.next_chan new_chan;
      next_chan = suc m.next_chan;
    },
  )
]

unfoldable pub unsubscribe_local : Text → ℕ → LocalManager → LocalManager
unsubscribe_local id c m = elim (lookup id m.sessions) [
  | none ↦ m
  | some p ↦ record m {
    objects = update m.objects p (with_subs (m.objects p) (unsubscribed c (m.objects p).subs));
  }
]

unfoldable pub replay_local : Text → LocalManager → Option (List ℕ)
replay_local id m = elim (lookup id m.sessions) [
  | none ↦ none
  | some p ↦ some (bytes (m.objects p).buf)
]

-- Whether the channel that Done gives is closed: a session that is not found has ended.
unfoldable pub done_local : Text → LocalManager → Bool
done_local id m = elim (lookup id m.sessions) [ none ↦ true | some p ↦ (m.objects p).done ]

-- closeOnce: a second close(done) would panic.
abbrev pub end_session : LocalSession → Effect LocalSession
end_session s =
    if s.close_once
    then ok s
    else if s.done
    then panic
    else ok (record s { ptmx_closed = true; done = true; close_once = true })

unfoldable pub end_local : ℕ → LocalManager → Effect LocalManager
end_local p m = do s ← end_session (m.objects p); ok (record m { objects = update m.objects p s })

unfoldable pub close_local : Text → LocalManager → Effect LocalManager
close_local id m = elim (lookup id m.sessions) [
  | none ↦ ok m
  | some p ↦ end_local p (record m { sessions = delete id m.sessions })
]

-- One chunk of output.
unfoldable pub output_local : ℕ → List ℕ → LocalManager → Effect LocalManager
output_local p sent m = do
  (kept, chans) ← broadcast sent (m.objects p).subs m.chans
  ok (record m {
    objects =
        update m.objects p
          (record (m.objects p) { buf = write (m.objects p).buf sent; subs = kept });
    chans = chans;
  })

-- After the loop: the subscribers' channels are closed, the session ends and leaves the registry.
unfoldable pub finish_pump : ℕ → LocalManager → Effect LocalManager
finish_pump p m = do
  chans ← close_all (m.objects p).subs m.chans
  m' ←
      end_local p
        (record m { objects = update m.objects p (with_subs (m.objects p) []); chans = chans })
  ok (record m' { sessions = delete (m'.objects p).id m'.sessions })

abbrev pub no_bytes : List ℕ → Bool
no_bytes [] = true
no_bytes (x ∷ xs) = false

-- What Read gives: some bytes, and whether it fails.
unfoldable pub pump_local : ℕ → List (List ℕ × Bool) → LocalManager → Effect LocalManager
pump_local p [] m = ok m
pump_local p ((sent, failed) ∷ reads) m = do
  m' ← (if no_bytes sent then ok m else output_local p sent m)
  if failed then finish_pump p m' else pump_local p reads m'
