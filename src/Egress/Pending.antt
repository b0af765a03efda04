-- ===== src/Egress/Pending.antt =====
-- internal/egress/pending.go: the agent's requests for more hosts, and who resolves them.
-- The lock is released between the two halves of Resolve, so they are two steps here: calls from
-- several goroutines interleave between them.
pub use appx.Base.Effects.{Effect, ok, panic, blocks, ◌>>=◌}
pub mod Safe
pub mod Outcome
mod Tests
use appx.Base.{
  ℕ, zero, suc, ◌+◌, Bool, true, false, not, ◌&&◌, Option, none, some, List, [], ◌∷◌, if◌then◌else◌,
  ltb, ◌==◌,
}
use appx.Text.{Text, text_eq}
use appx.Text.Int.{ℤ}
use appx.Egress.Store.{Store, add_to_allowlist}

-- A Go channel of capacity 1.
pub record Chan : Type 0 where
  pub queued : List Bool
  pub closed : Bool

abbrev pub new_chan : Chan
new_chan = record { queued = []; closed = false }

-- `done` is the number of the request's channel.
pub record PendingRequest : Type 0 where
  pub id : Text
  pub host : Text
  pub port : ℤ
  pub reason : Text
  pub created_at : ℕ
  pub done : ℕ

pub record PendingRegistry : Type 0 where
  pub requests : List PendingRequest
  pub chans : ℕ → Chan
  pub next_chan : ℕ
  pub store : Option Store
  pub timeout : ℕ

-- A send on a closed channel and a second close panic; a send on a full channel blocks.
abbrev pub update : (ℕ → Chan) → ℕ → Chan → ℕ → Chan
update chans c v j = if j == c then v else chans j

abbrev pub is_empty : List Bool → Bool
is_empty [] = true
is_empty (x ∷ xs) = false

unfoldable pub send : ℕ → Bool → PendingRegistry → Effect PendingRegistry
send c value r =
    if (r.chans c).closed
    then panic
    else if is_empty (r.chans c).queued
    then ok (record r { chans = update r.chans c (record { queued = value ∷ []; closed = false }) })
    else blocks

-- select { case done <- value: default: }
unfoldable pub try_send : ℕ → Bool → PendingRegistry → Effect PendingRegistry
try_send c value r =
    if (r.chans c).closed
    then panic
    else if is_empty (r.chans c).queued
    then ok (record r { chans = update r.chans c (record { queued = value ∷ []; closed = false }) })
    else ok r

unfoldable pub close : ℕ → PendingRegistry → Effect PendingRegistry
close c r =
    if (r.chans c).closed
    then panic
    else ok (record r {
      chans = update r.chans c (record { queued = (r.chans c).queued; closed = true });
    })

unfoldable pub find : Text → List PendingRequest → Option PendingRequest
find id [] = none
find id (r ∷ rs) = if text_eq r.id id then some r else find id rs

unfoldable pub delete : Text → List PendingRequest → List PendingRequest
delete id [] = []
delete id (r ∷ rs) = let rest = delete id rs in if text_eq r.id id then rest else r ∷ rest

-- The random id is an argument.
unfoldable pub add : Text → Text → ℤ → Text → ℕ → PendingRegistry → PendingRequest × PendingRegistry
add id host port reason now r =
    let req : PendingRequest = record {
      id = id;
      host = host;
      port = port;
      reason = reason;
      created_at = now;
      done = r.next_chan;
    } in
    (
      req,
      record r {
        requests = req ∷ delete id r.requests;
        chans = update r.chans r.next_chan new_chan;
        next_chan = suc r.next_chan;
      },
    )

-- The first half of Resolve, under the lock: the request leaves the map.
unfoldable pub take_request : Text → PendingRegistry → Option (PendingRequest × PendingRegistry)
take_request id r = elim (find id r.requests) [
  | none ↦ none
  | some req ↦ some (req, record r { requests = delete id r.requests })
]

abbrev pub approve_in_store : Bool → Bool → PendingRequest → Option Store → Option Store
approve_in_store approved db_ok req none = none
approve_in_store false db_ok req (some s) = some s
approve_in_store true db_ok req (some s) = some (add_to_allowlist db_ok req.host req.port s).1

-- The second half: the allowlist (its error is dropped), the answer, the close.
unfoldable pub deliver : Bool → Bool → PendingRequest → PendingRegistry → Effect PendingRegistry
deliver approved db_ok req r = do
  r' ← send req.done approved (record r { store = approve_in_store approved db_ok req r.store })
  close req.done r'

pub data Resolved : Type 0 where
  not_found : Resolved
  resolved : Effect PendingRegistry → Resolved

unfoldable pub resolve : Text → Bool → Bool → PendingRegistry → Resolved
resolve id approved db_ok r = elim (take_request id r) [
  | none ↦ not_found
  | some (req, r') ↦ resolved (deliver approved db_ok req r')
]

-- The loop of cleanup; `kept` are the requests that it has passed over.
unfoldable pub cleanup_from :
    ℕ → List PendingRequest → List PendingRequest → PendingRegistry → Effect PendingRegistry
cleanup_from now kept [] r = ok (record r { requests = kept })
cleanup_from now kept (q ∷ qs) r = elim (ltb (q.created_at + r.timeout) now) [
  | true ↦ (do r' ← try_send q.done false r; r'' ← close q.done r'; cleanup_from now kept qs r'')
  | false ↦ cleanup_from now (q ∷ kept) qs r
]

unfoldable pub cleanup : ℕ → PendingRegistry → Effect PendingRegistry
cleanup now r = cleanup_from now [] r.requests r

-- List cleans up first.
unfoldable pub list_requests : ℕ → PendingRegistry → Effect (List PendingRequest × PendingRegistry)
list_requests now r = do r' ← cleanup now r; ok (r'.requests, r')

abbrev pub new_registry : Option Store → PendingRegistry
new_registry store = record {
  requests = [];
  chans = λ c. new_chan;
  next_chan = 0;
  store = store;
  timeout = 60000000000;
}

-- The registry with the calls of Resolve that are between their halves.
pub record System : Type 0 where
  pub registry : PendingRegistry
  pub in_flight : List (PendingRequest × Bool)

pub data Event : Type 0 where
  adds : Text → Text → ℤ → Text → ℕ → Event
  takes : Text → Bool → Event
  delivers : ℕ → Bool → Event
  cleans : ℕ → Event

abbrev pub nth : ℕ → List (PendingRequest × Bool) → Option (PendingRequest × Bool)
nth n [] = none
nth zero (x ∷ xs) = some x
nth (suc n) (x ∷ xs) = nth n xs

abbrev pub remove_nth : ℕ → List (PendingRequest × Bool) → List (PendingRequest × Bool)
remove_nth n [] = []
remove_nth zero (x ∷ xs) = xs
remove_nth (suc n) (x ∷ xs) = x ∷ remove_nth n xs

unfoldable pub step : Event → System → Effect System
step (adds id host port reason now) s =
    ok (record s { registry = (add id host port reason now s.registry).1 })
step (takes id approved) s = elim (take_request id s.registry) [
  | none ↦ ok s
  | some (req, r) ↦ ok (record { registry = r; in_flight = (req, approved) ∷ s.in_flight })
]
step (delivers n db_ok) s = elim (nth n s.in_flight) [
  | none ↦ ok s
  | some (req, approved) ↦ (do
    r ← deliver approved db_ok req s.registry
    ok (record { registry = r; in_flight = remove_nth n s.in_flight }))
]
step (cleans now) s = do r ← cleanup now s.registry; ok (record s { registry = r })

unfoldable pub run : List Event → System → Effect System
run [] s = ok s
run (e ∷ es) s = do s' ← step e s; run es s'
