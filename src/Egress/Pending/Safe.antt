-- ===== src/Egress/Pending/Safe.antt =====
-- No order of calls makes the registry panic or block: each channel is answered and closed once.
use appx.Base.{
  ℕ, zero, suc, ◌+◌, ◌≤◌, ◌<◌, ◌≡◌, ◌≢◌, refl, ◌∙◌, inl, inr, Bool, true, false, Option, some,
  Option-cases, List, [], ◌∷◌, arith, Bool-cases, if◌then◌else◌, ltb, ◌==◌,
}
use appx.Text.{Text}
use appx.Text.Int.{ℤ}
use appx.Egress.Store.{Store}
use appx.Egress.Pending.{
  Chan, new_chan, PendingRequest, PendingRegistry, ok, update, send, try_send, close, find, delete,
  add, take_request, approve_in_store, deliver, cleanup_from, cleanup, System, Event, adds, takes,
  delivers, cleans, nth, remove_nth, step, run, new_registry,
}

-- How many of the requests hold a channel.
abbrev pub holders : ℕ → List PendingRequest → ℕ
holders c [] = 0
holders c (r ∷ rs) = (if r.done == c then 1 else 0) + holders c rs

abbrev pub flying : ℕ → List (PendingRequest × Bool) → ℕ
flying c [] = 0
flying c ((r, b) ∷ rs) = (if r.done == c then 1 else 0) + flying c rs

-- A channel that is open, empty and handed out.
pub record IsOpen (chans : ℕ → Chan) (next c : ℕ) : Type 0 where
  pub handed : c < next
  pub still_open : (chans c).closed ≡ false
  pub unanswered : (chans c).queued ≡ []

pub record IsSafe (reqs : List PendingRequest) (flight : List (PendingRequest × Bool))
    (chans : ℕ → Chan) (next : ℕ) : Type 0 where
  pub once : (c : ℕ) → holders c reqs + flying c flight ≤ 1
  pub live : (c : ℕ) → 0 < holders c reqs + flying c flight → IsOpen chans next c

abbrev pub SafeSystem : System → Type 0
SafeSystem s = IsSafe s.registry.requests s.in_flight s.registry.chans s.registry.next_chan

holders-delete :
    (c : ℕ) (id : Text) (rs : List PendingRequest) → holders c (delete id rs) ≤ holders c rs
unfolding delete
holders-delete c id [] = omega arith
holders-delete c id (r ∷ rs) = ground (arith, holders-delete c id rs)

holders-find :
    (c : ℕ) (id : Text) (rs : List PendingRequest) (r : PendingRequest)
    → find id rs ≡ some r
    → holders c (delete id rs) + (if r.done == c then 1 else 0) ≤ holders c rs
unfolding find delete
holders-find c id [] r h = cc
holders-find c id (q ∷ rs) r h = ground (arith, holders-find c id rs r, holders-delete c id rs)

flying-nth :
    (c n : ℕ) (fs : List (PendingRequest × Bool)) (r : PendingRequest) (b : Bool)
    → nth n fs ≡ some (r, b)
    → flying c (remove_nth n fs) + (if r.done == c then 1 else 0) ≡ flying c fs
flying-nth c n [] r b h = cc
flying-nth c zero ((q, b') ∷ fs) r b h = ground arith
flying-nth c (suc n) ((q, b') ∷ fs) r b h = omega (arith, flying-nth c n fs r b h)

-- A request whose channel is open and empty is answered, and its channel closed.
abbrev pub answered : (ℕ → Chan) → ℕ → Bool → ℕ → Chan
answered chans c b =
    update (update chans c (record { queued = b ∷ []; closed = false })) c
      (record { queued = b ∷ []; closed = true })

pub deliver-ok :
    (approved db_ok : Bool) (req : PendingRequest) (r : PendingRegistry)
    → IsOpen r.chans r.next_chan req.done
    → deliver approved db_ok req r
      ≡ ok (record r {
        store = approve_in_store approved db_ok req r.store;
        chans = answered r.chans req.done approved;
      })
unfolding deliver send close
deliver-ok approved db_ok req r h = ground (arith, h)

IsOpen-answered :
    (chans : ℕ → Chan) (next c d : ℕ) (b : Bool)
    → c ≢ d
    → IsOpen chans next c
    → IsOpen (answered chans d b) next c
IsOpen-answered chans next c d b ne h = record {
  handed = h.handed;
  still_open = ground (arith, h.still_open);
  unanswered = ground (arith, h.unanswered);
}

-- A held channel is not held after its only holder has gone.
IsSafe-answered :
    (reqs reqs' : List PendingRequest) (flight flight' : List (PendingRequest × Bool))
    (chans : ℕ → Chan) (next d : ℕ) (b : Bool)
    → IsSafe reqs flight chans next
    → ((c : ℕ)
        → holders c reqs' + flying c flight' + (if d == c then 1 else 0)
          ≤ holders c reqs + flying c flight)
    → IsSafe reqs' flight' (answered chans d b) next
IsSafe-answered reqs reqs' flight flight' chans next d b v fewer = record {
  once = λ c. omega (arith, v.once c, fewer c);
  live = λ c h.
      IsOpen-answered chans next c d b (λ e. ground (arith, v.once c, fewer c))
        (v.live c (omega (arith, fewer c)));
}

-- The channel of a new request is held by that request only.
module _ (reqs reqs' : List PendingRequest) (flight : List (PendingRequest × Bool))
    (chans : ℕ → Chan) (next : ℕ) (v : IsSafe reqs flight chans next)
    (more : (c : ℕ) → holders c reqs' ≤ (if next == c then 1 else 0) + holders c reqs) where
  none_hold : (c : ℕ) → (next == c) ≡ true → holders c reqs + flying c flight ≡ 0
  none_hold c e = ground (arith, v.live c)

  IsOpen-new :
      (c : ℕ)
      → 0 < holders c reqs' + flying c flight
      → IsOpen (update chans next new_chan) (suc next) c
  IsOpen-new c h = elim (Bool-cases (next == c)) [
    | inl new ↦ record {
      handed = ground arith;
      still_open = ground arith;
      unanswered = ground arith;
    }
    | inr old ↦
        (let o : IsOpen chans next c = v.live c (ground (arith, more c)) in
          record {
            handed = ground (arith, o.handed);
            still_open = ground (arith, o.still_open);
            unanswered = ground (arith, o.unanswered);
          })
  ]

  IsSafe-new : IsSafe reqs' flight (update chans next new_chan) (suc next)
  IsSafe-new = record {
    once = λ c. ground (arith, v.once c, more c, none_hold c);
    live = IsOpen-new;
  }

add-SafeSystem :
    (id host : Text) (port : ℤ) (reason : Text) (now : ℕ) (s : System)
    → SafeSystem s
    → SafeSystem (record s { registry = (add id host port reason now s.registry).1 })
unfolding add
add-SafeSystem id host port reason now s v =
    IsSafe-new s.registry.requests _ s.in_flight s.registry.chans s.registry.next_chan v
      (λ c. omega (arith, holders-delete c id s.registry.requests))

take-SafeSystem :
    (id : Text) (approved : Bool) (s : System) (req : PendingRequest)
    → SafeSystem s
    → find id s.registry.requests ≡ some req
    → SafeSystem (record {
      registry = record s.registry { requests = delete id s.registry.requests };
      in_flight = (req, approved) ∷ s.in_flight;
    })
take-SafeSystem id approved s req v h = record {
  once = λ c. omega (arith, v.once c, holders-find c id s.registry.requests req h);
  live = λ c k. v.live c (omega (arith, holders-find c id s.registry.requests req h));
}

-- The channel of a request in flight is open.
flying-IsOpen :
    (n : ℕ) (s : System) (req : PendingRequest) (b : Bool)
    → SafeSystem s
    → nth n s.in_flight ≡ some (req, b)
    → IsOpen s.registry.chans s.registry.next_chan req.done
flying-IsOpen n s req b v h =
    v.live req.done (ground (arith, flying-nth req.done n s.in_flight req b h))

expire :
    (now : ℕ) (kept : List PendingRequest) (q : PendingRequest) (qs : List PendingRequest)
    (r : PendingRegistry)
    → ltb (q.created_at + r.timeout) now ≡ true
    → IsOpen r.chans r.next_chan q.done
    → cleanup_from now kept (q ∷ qs) r
      ≡ cleanup_from now kept qs (record r { chans = answered r.chans q.done false })
unfolding cleanup_from try_send close
expire now kept q qs r old h = ground (arith, h)

keep :
    (now : ℕ) (kept : List PendingRequest) (q : PendingRequest) (qs : List PendingRequest)
    (r : PendingRegistry)
    → ltb (q.created_at + r.timeout) now ≡ false
    → cleanup_from now kept (q ∷ qs) r ≡ cleanup_from now (q ∷ kept) qs r
unfolding cleanup_from
keep now kept q qs r young = ground arith

-- A request that the loop of cleanup closes leaves the map.
cleanup_from-IsSafe :
    (now : ℕ) (kept qs : List PendingRequest) (flight : List (PendingRequest × Bool))
    (r : PendingRegistry)
    → ((c : ℕ) → holders c kept + holders c qs + flying c flight ≤ 1)
    → ((c : ℕ) → 0 < holders c kept + holders c qs + flying c flight → IsOpen r.chans r.next_chan c)
    → (t : PendingRegistry) × (cleanup_from now kept qs r ≡ ok t)
      × IsSafe t.requests flight t.chans t.next_chan
cleanup_from-IsSafe now kept [] flight r once live = (
  record r { requests = kept },
  unfold cleanup_from in refl,
  record { once = λ c. omega (arith, once c); live = λ c h. live c (omega arith) },
)
cleanup_from-IsSafe now kept (q ∷ qs) flight r once live =
    elim (Bool-cases (ltb (q.created_at + r.timeout) now)) [
      | inl old ↦
          (let rest =
              cleanup_from-IsSafe now kept qs flight
                (record r { chans = answered r.chans q.done false }) (λ c. omega (arith, once c))
                (λ c h.
                  IsOpen-answered r.chans r.next_chan c q.done false (λ e. ground (arith, once c))
                    (live c (omega arith))) in
            (rest.0, expire now kept q qs r old (live q.done (ground arith)) ∙ rest.1, rest.2))
      | inr young ↦
          (let rest =
              cleanup_from-IsSafe now (q ∷ kept) qs flight r (λ c. omega (arith, once c))
                (λ c h. live c (omega arith)) in
            (rest.0, keep now kept q qs r young ∙ rest.1, rest.2))
    ]

-- Each step is taken, and keeps the system safe.
pub step-SafeSystem :
    (e : Event) (s : System) → SafeSystem s → (t : System) × (step e s ≡ ok t) × SafeSystem t
unfolding step
step-SafeSystem (adds id host port reason now) s v =
    (_, refl, add-SafeSystem id host port reason now s v)
step-SafeSystem (takes id approved) s v = elim (Option-cases (find id s.registry.requests)) [
  | inl missing ↦ (s, unfold take_request in ground arith, v)
  | inr (req, hit) ↦ (
    record {
      registry = record s.registry { requests = delete id s.registry.requests };
      in_flight = (req, approved) ∷ s.in_flight;
    },
    unfold take_request in ground arith,
    take-SafeSystem id approved s req v hit,
  )
]
step-SafeSystem (delivers n db_ok) s v = elim (Option-cases (nth n s.in_flight)) [
  | inl missing ↦ (s, ground arith, v)
  | inr ((req, approved), hit) ↦ (
    record {
      registry = record s.registry {
        store = approve_in_store approved db_ok req s.registry.store;
        chans = answered s.registry.chans req.done approved;
      };
      in_flight = remove_nth n s.in_flight;
    },
    ground (arith, deliver-ok approved db_ok req s.registry (flying-IsOpen n s req approved v hit)),
    IsSafe-answered s.registry.requests s.registry.requests s.in_flight (remove_nth n s.in_flight)
        s.registry.chans s.registry.next_chan req.done approved v
        (λ c. omega (arith, flying-nth c n s.in_flight req approved hit)),
  )
]
step-SafeSystem (cleans now) s v =
    let swept =
      cleanup_from-IsSafe now [] s.registry.requests s.in_flight s.registry
        (λ c. omega (arith, v.once c)) (λ c h. v.live c (omega arith)) in
    (record s { registry = swept.0 }, unfold cleanup in rw (swept.1) refl, swept.2)

run-cons :
    (e : Event) (es : List Event) (s t : System) → step e s ≡ ok t → run (e ∷ es) s ≡ run es t
unfolding run
run-cons e es s t h = ground arith

run-SafeSystem :
    (es : List Event) (s : System) → SafeSystem s → (t : System) × (run es s ≡ ok t) × SafeSystem t
run-SafeSystem [] s v = (s, unfold run in refl, v)
run-SafeSystem (e ∷ es) s v =
    let (s', stepped, v') = step-SafeSystem e s v in
    let (t, rest, w) = run-SafeSystem es s' v' in (t, run-cons e es s s' stepped ∙ rest, w)

pub new_registry-SafeSystem :
    (store : Option Store) → SafeSystem (record { registry = new_registry store; in_flight = [] })
new_registry-SafeSystem store = record {
  once = λ c. omega arith;
  live = λ c h. absurd (omega arith);
}

-- Whatever calls of Add, Resolve (in its two halves) and cleanup interleave, none panics on a closed
-- channel and none blocks on a full one.
pub run-ok :
    (store : Option Store) (es : List Event)
    → (t : System) × (run es (record { registry = new_registry store; in_flight = [] }) ≡ ok t)
run-ok store es =
    let (t, e, _) =
      run-SafeSystem es (record { registry = new_registry store; in_flight = [] })
        (new_registry-SafeSystem store) in
    (t, e)
