-- ===== src/Terminal/Sessions.antt =====
-- internal/terminal/manager.go: the registry of terminal sessions in containers. A session and a
-- channel are objects that several goroutines share, so each has a number and stands in a store. The
-- container's exec calls, random ids and the clock are arguments. A Go map is a list here; where the
-- source takes some entry of a map, a number says which.
pub mod Safe
pub mod Kept
pub mod Run
pub mod Index
pub mod Reach
pub mod Shutdown
pub mod Output
pub mod Calls
mod Tests
use appx.Base.{
  ℕ, zero, suc, ◌+◌, Bool, true, false, Option, none, some, List, [], ◌∷◌, if◌then◌else◌, map, ◌⊎◌,
  inl, inr,
}
use appx.Base.Effects.{Effect, ok, panic, ◌>>=◌}
use appx.Base.Maps.{lookup, insert, delete}
use appx.Text.{Text, codes}
use appx.Terminal.Ring.{RingBuffer, new_ring_buffer, write, bytes}
use appx.Terminal.Fanout.{Chan, new_chan, update, unsubscribed, subscribed, broadcast, close_all}

pub record ExecCreateOptions : Type 0 where
  pub cmd : List Text
  pub attach_stdin : Bool
  pub attach_stdout : Bool
  pub attach_stderr : Bool
  pub tty : Bool
  pub working_dir : Text
  pub env : List Text
  pub user : Text
  pub privileged : Bool
  pub container_id : Text

-- The container runtime: an exec's id, and the number of the connection to it.
pub record Execer : Type 0 where
  pub exec_create : Text → ExecCreateOptions → Option Text
  pub exec_attach : Text → Option ℕ
  pub exec_resize : Text → ℕ → ℕ → Bool

pub record Session : Type 0 where
  pub id : Text
  pub project_id : Text
  pub created_at : ℕ
  pub exec_id : Text
  pub conn : ℕ
  pub conn_closed : Bool
  pub buf : RingBuffer
  pub subs : List ℕ
  pub done : Bool
  pub close_once : Bool

pub record Manager : Type 0 where
  pub buf_size : ℕ
  pub sessions : List (Text × ℕ)
  pub by_project : List (Text × List (Text × ℕ))
  pub objects : ℕ → Session
  pub next_object : ℕ
  pub chans : ℕ → Chan
  pub next_chan : ℕ

abbrev pub new_session : Text → Text → ℕ → Text → ℕ → ℕ → Session
new_session id project_id now exec_id conn buf_size = record {
  id = id;
  project_id = project_id;
  created_at = now;
  exec_id = exec_id;
  conn = conn;
  conn_closed = false;
  buf = new_ring_buffer buf_size;
  subs = [];
  done = false;
  close_once = false;
}

abbrev pub new_manager : ℕ → Manager
new_manager buf_size = record {
  buf_size = buf_size;
  sessions = [];
  by_project = [];
  objects = λ p. new_session [] [] 0 [] 0 0;
  next_object = 0;
  chans = λ c. new_chan;
  next_chan = 0;
}

-- Reading a project that is not in the map gives no sessions.
unfoldable pub project_sessions : Text → List (Text × List (Text × ℕ)) → List (Text × ℕ)
project_sessions project_id m = elim (lookup project_id m) [ none ↦ [] | some ss ↦ ss ]

abbrev pub is_empty {ℓ} : {A : Type ℓ} → List A → Bool
is_empty [] = true
is_empty (x ∷ xs) = false

-- Any entry, as a Go map gives them: each number chooses one, and each one is chosen by some number.
unfoldable pub some_entry : ℕ → List (Text × ℕ) → Option ℕ
some_entry choice [] = none
some_entry zero ((id, p) ∷ rest) = some p
some_entry (suc choice) ((id, p) ∷ []) = some p
some_entry (suc choice) ((id, p) ∷ e ∷ rest) = some_entry choice (e ∷ rest)

-- The first critical section of CreateSession.
unfoldable pub existing_session : ℕ → Text → Manager → Option ℕ
existing_session choice project_id m = some_entry choice (project_sessions project_id m.by_project)

-- The second one, after the exec has started.
unfoldable pub register : Text → Text → Text → ℕ → ℕ → Manager → ℕ × Manager
register id project_id exec_id conn now m = (
  m.next_object,
  record m {
    sessions = insert id m.next_object m.sessions;
    by_project =
        insert project_id (insert id m.next_object (project_sessions project_id m.by_project))
          m.by_project;
    objects =
        update m.objects m.next_object (new_session id project_id now exec_id conn m.buf_size);
    next_object = suc m.next_object;
  },
)

abbrev pub shell_options : ExecCreateOptions
shell_options = record {
  cmd = codes "/bin/bash" ∷ [];
  attach_stdin = true;
  attach_stdout = true;
  attach_stderr = true;
  tty = true;
  working_dir = [];
  env = codes "TERM=xterm-256color" ∷ [];
  user = [];
  privileged = false;
  container_id = [];
}

pub data CreateError : Type 0 where
  err_exec_create : CreateError
  err_exec_attach : CreateError

-- CreateSession with no other call between its critical sections.
unfoldable pub create_session :
    Execer → ℕ → Text → ℕ → Text → Text → Manager → (CreateError ⊎ ℕ) × Manager
create_session docker choice id now project_id container m =
    elim (existing_session choice project_id m) [
      | some p ↦ (inr p, m)
      | none ↦ elim (docker.exec_create container shell_options) [
        | none ↦ (inl err_exec_create, m)
        | some exec_id ↦ elim (docker.exec_attach exec_id) [
          | none ↦ (inl err_exec_attach, m)
          | some conn ↦ (let (p, m') = register id project_id exec_id conn now m in (inr p, m'))
        ]
      ]
    ]

unfoldable pub get_session : Text → Manager → Option ℕ
get_session id m = lookup id m.sessions

unfoldable pub list_sessions : Text → Manager → List ℕ
list_sessions project_id m = map (λ e. e.1) (project_sessions project_id m.by_project)

abbrev pub with_subs : Session → List ℕ → Session
with_subs s subs = record s { subs = subs }

-- Subscribe after its lookup.
unfoldable pub add_subscriber : ℕ → Manager → ℕ × Manager
add_subscriber p m = (
  m.next_chan,
  record m {
    objects =
        update m.objects p (with_subs (m.objects p) (subscribed m.next_chan (m.objects p).subs));
    chans = update m.chans m.next_chan new_chan;
    next_chan = suc m.next_chan;
  },
)

unfoldable pub subscribe : Text → Manager → Option ℕ × Manager
subscribe id m = elim (lookup id m.sessions) [
  | none ↦ (none, m)
  | some p ↦ (let (c, m') = add_subscriber p m in (some c, m'))
]

-- Unsubscribe after its lookup.
unfoldable pub drop_subscriber : ℕ → ℕ → Manager → Manager
drop_subscriber p c m = record m {
  objects = update m.objects p (with_subs (m.objects p) (unsubscribed c (m.objects p).subs));
}

unfoldable pub unsubscribe : Text → ℕ → Manager → Manager
unsubscribe id c m = elim (lookup id m.sessions) [ none ↦ m | some p ↦ drop_subscriber p c m ]

abbrev pub without_from :
    Text
    → Text
    → List (Text × List (Text × ℕ))
    → Option (List (Text × ℕ))
    → List (Text × List (Text × ℕ))
without_from id project_id m none = m
without_from id project_id m (some ss) =
    if is_empty (delete id ss) then delete project_id m else insert project_id (delete id ss) m

-- A project that has no session left leaves the index.
unfoldable pub without : Text → Text → List (Text × List (Text × ℕ)) → List (Text × List (Text × ℕ))
without id project_id m = without_from id project_id m (lookup project_id m)

-- CloseSession under the manager's lock: the session leaves the registry.
unfoldable pub unlink : Text → Manager → Option (ℕ × Manager)
unlink id m = elim (lookup id m.sessions) [
  | none ↦ none
  | some p ↦ some (
    p,
    record m {
      sessions = delete id m.sessions;
      by_project = without id (m.objects p).project_id m.by_project;
    },
  )
]

-- close(done): a second close panics.
abbrev pub close_done : Session → Effect Session
close_done s = if s.done then panic else ok (record s { done = true })

-- The function that closeOnce runs, once.
unfoldable pub shut : ℕ → Manager → Effect Manager
shut p m = if (m.objects p).close_once then ok m else (do
  s ← close_done (m.objects p)
  chans ← close_all s.subs m.chans
  ok (record m {
    objects = update m.objects p (record s { conn_closed = true; subs = []; close_once = true });
    chans = chans;
  }))

unfoldable pub close_session : Text → Manager → Effect Manager
close_session id m = elim (unlink id m) [ none ↦ ok m | some (p, m') ↦ shut p m' ]

unfoldable pub close_sessions : List Text → Manager → Effect Manager
close_sessions [] m = ok m
close_sessions (id ∷ ids) m = do m' ← close_session id m; close_sessions ids m'

unfoldable pub close_project_sessions : Text → Manager → Effect Manager
close_project_sessions project_id m =
    close_sessions (map (λ e. e.0) (project_sessions project_id m.by_project)) m

unfoldable pub close_all_sessions : Manager → Effect Manager
close_all_sessions m = close_sessions (map (λ e. e.0) m.sessions) m

pub data CallError : Type 0 where
  err_session_not_found : CallError
  err_call_failed : CallError

abbrev pub outcome : Bool → Option CallError
outcome true = none
outcome false = some err_call_failed

-- `conn_write` is the write to a connection: whether it succeeds.
unfoldable pub write_input : (ℕ → List ℕ → Bool) → Text → List ℕ → Manager → Option CallError
write_input conn_write id input m = elim (lookup id m.sessions) [
  | none ↦ some err_session_not_found
  | some p ↦ outcome (conn_write (m.objects p).conn input)
]

unfoldable pub resize : Execer → Text → ℕ → ℕ → Manager → Option CallError
resize docker id cols rows m = elim (lookup id m.sessions) [
  | none ↦ some err_session_not_found
  | some p ↦ outcome (docker.exec_resize (m.objects p).exec_id cols rows)
]

unfoldable pub replay_buffer : Text → Manager → Option (List ℕ)
replay_buffer id m = elim (lookup id m.sessions) [
  | none ↦ none
  | some p ↦ some (bytes (m.objects p).buf)
]

-- One piece of output, under the session's lock.
unfoldable pub output : ℕ → List ℕ → Manager → Effect Manager
output p sent m = do
  (kept, chans) ← broadcast sent (m.objects p).subs m.chans
  ok (record m {
    objects =
        update m.objects p
          (record (m.objects p) { buf = write (m.objects p).buf sent; subs = kept });
    chans = chans;
  })

-- What Read gives: some bytes, and whether it fails.
unfoldable pub pump_output : ℕ → List (List ℕ × Bool) → Manager → Effect Manager
pump_output p [] m = ok m
pump_output p ((sent, failed) ∷ reads) m = do
  m' ← (if is_empty sent then ok m else output p sent m)
  if failed then close_session (m'.objects p).id m' else pump_output p reads m'
