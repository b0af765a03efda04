-- ===== src/Egress/Pending/Outcome.antt =====
-- What the waiting agent is told, and what an approval leaves behind.
use appx.Base.{
  ◌<◌, ◌≡◌, ◌≢◌, refl, ap, ◌∙◌, Bool, true, false, Option, none, some, List, [], ◌∷◌, arith,
}
use appx.Text.{Text}
use appx.Text.Equality.{text_eq_iff}
use appx.Egress.Store.{Store, is_allowed, add_to_allowlist}
use appx.Egress.Store.Updates.{add_to_allowlist_grows}
use appx.Egress.Pending.{
  PendingRequest, PendingRegistry, ok, find, delete, take_request, approve_in_store, not_found,
  resolved, resolve,
}
use appx.Egress.Pending.Safe.{SafeSystem, answered, deliver-ok, holders}

find-delete : (id : Text) (rs : List PendingRequest) → find id (delete id rs) ≡ none
unfolding find delete
find-delete id [] = refl
find-delete id (r ∷ rs) = ground (arith, find-delete id rs)

pub find-delete_ne :
    (id other : Text) (rs : List PendingRequest)
    → other ≢ id
    → find other (delete id rs) ≡ find other rs
unfolding find delete
find-delete_ne id other [] ne = refl
find-delete_ne id other (r ∷ rs) ne =
    ground (arith, find-delete_ne id other rs ne, text_eq_iff r.id id, text_eq_iff r.id other)

find-held :
    (id : Text) (rs : List PendingRequest) (r : PendingRequest)
    → find id rs ≡ some r
    → 0 < holders r.done rs
unfolding find
find-held id [] r h = cc
find-held id (q ∷ rs) r h = ground (arith, find-held id rs r)

-- The registry after a request was resolved.
abbrev after : Text → Bool → Bool → PendingRegistry → PendingRequest → PendingRegistry
after id approved db_ok r req = record r {
  requests = delete id r.requests;
  store = approve_in_store approved db_ok req r.store;
  chans = answered r.chans req.done approved;
}

resolve-after :
    (id : Text) (approved db_ok : Bool) (r : PendingRegistry) (req : PendingRequest)
    → SafeSystem (record { registry = r; in_flight = [] })
    → find id r.requests ≡ some req
    → resolve id approved db_ok r ≡ resolved (ok (after id approved db_ok r req))
unfolding resolve take_request
resolve-after id approved db_ok r req v h = ground (
  arith,
  deliver-ok approved db_ok req (record r { requests = delete id r.requests })
      (v.live req.done (omega (arith, find-held id r.requests req h))),
)

-- With no other call under way, resolving a pending request answers it: its channel holds exactly
-- the verdict and is closed, and the request has left the map.
pub resolve_answers :
    (id : Text) (approved db_ok : Bool) (r : PendingRegistry) (req : PendingRequest)
    → SafeSystem (record { registry = r; in_flight = [] })
    → find id r.requests ≡ some req
    → (t : PendingRegistry) × (resolve id approved db_ok r ≡ resolved (ok t))
      × ((t.chans req.done).queued ≡ approved ∷ [])
      × ((t.chans req.done).closed ≡ true)
      × (find id t.requests ≡ none)
resolve_answers id approved db_ok r req v h = (
  after id approved db_ok r req,
  resolve-after id approved db_ok r req v h,
  ground arith,
  ground arith,
  find-delete id r.requests,
)

-- A refusal leaves the allowlist as it was.
pub resolve_denies :
    (id : Text) (db_ok : Bool) (r t : PendingRegistry) (req : PendingRequest)
    → SafeSystem (record { registry = r; in_flight = [] })
    → find id r.requests ≡ some req
    → resolve id false db_ok r ≡ resolved (ok t)
    → t.store ≡ r.store
resolve_denies id db_ok r t req v h e =
    let same : t ≡ after id false db_ok r req = cc (e, resolve-after id false db_ok r req v h) in
    ap (λ x. x.store) same ∙ denied r.store
  where
    denied : (s : Option Store) → approve_in_store false db_ok req s ≡ s
    denied none = refl
    denied (some s) = refl

-- With no other call under way, resolving a request leaves every other request pending as it was.
pub resolve_others :
    (id other : Text) (approved db_ok : Bool) (r t : PendingRegistry) (req : PendingRequest)
    → SafeSystem (record { registry = r; in_flight = [] })
    → find id r.requests ≡ some req
    → resolve id approved db_ok r ≡ resolved (ok t)
    → other ≢ id
    → find other t.requests ≡ find other r.requests
resolve_others id other approved db_ok r t req v h e ne =
    let same : t ≡ after id approved db_ok r req =
      cc (e, resolve-after id approved db_ok r req v h) in
    rw same (find-delete_ne id other r.requests ne)

-- With no other call under way, approving a request makes its destination allowed in the store,
-- whether or not the database takes it.
pub resolve_approves :
    (id : Text) (db_ok : Bool) (r t : PendingRegistry) (req : PendingRequest) (s : Store)
    → SafeSystem (record { registry = r; in_flight = [] })
    → find id r.requests ≡ some req
    → r.store ≡ some s
    → resolve id true db_ok r ≡ resolved (ok t)
    → (u : Store) × (t.store ≡ some u) × (is_allowed u.allowlist req.host req.port ≡ true)
resolve_approves id db_ok r t req s v h stored e =
    let same : t ≡ after id true db_ok r req = cc (e, resolve-after id true db_ok r req v h) in
    (
      (add_to_allowlist db_ok req.host req.port s).1,
      rw (same, stored) refl,
      add_to_allowlist_grows req.host req.port s db_ok,
    )

-- A request that is not pending, or no longer, is refused and nothing changes.
pub resolve_unknown :
    (id : Text) (approved db_ok : Bool) (r : PendingRegistry)
    → find id r.requests ≡ none
    → resolve id approved db_ok r ≡ not_found
unfolding resolve take_request
resolve_unknown id approved db_ok r h = ground arith
