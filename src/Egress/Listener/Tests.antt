-- ===== src/Egress/Listener/Tests.antt =====
-- A request that nobody answers.
use appx.Base.{sym, subst, some, ◌≡◌, true, false, none, []}
use appx.Text.{codes}
use appx.Text.Int.{pos}
use appx.Egress.Pending.{PendingRequest, PendingRegistry, ok, add, find, new_registry, adds, step}
use appx.Egress.Store.{new_store, missing}
use appx.Egress.Pending.Safe.{SafeSystem, step-SafeSystem, new_registry-SafeSystem}
use appx.Egress.Listener.{timer, finish}
use appx.Egress.Listener.Laws.{finish_timer}

abbrev lost : PendingRequest
lost = (add (codes "1") (codes "a.b") (pos 443) [] 5 (new_registry none)).0

-- The request is pending when the timer fires.
abbrev waiting_registry : PendingRegistry
waiting_registry =
    (add (codes "1") (codes "a.b") (pos 443) [] 5 (new_registry (some (new_store missing [] 1)))).1

waiting-SafeSystem : SafeSystem (record { registry = waiting_registry; in_flight = [] })
waiting-SafeSystem =
    let (t, e, v) =
      step-SafeSystem (adds (codes "1") (codes "a.b") (pos 443) [] 5)
        (record { registry = new_registry (some (new_store missing [] 1)); in_flight = [] })
        (new_registry-SafeSystem (some (new_store missing [] 1))) in
    let same : record { registry = waiting_registry; in_flight = [] } ≡ t = unfold step in cc e in
    subst SafeSystem (sym same) v

finish_timer_example :
    ((finish timer lost waiting_registry).0 ≡ record { allowed = false; timeout = true })
    × (t : PendingRegistry) × ((finish timer lost waiting_registry).1 ≡ ok t)
    × (find lost.id t.requests ≡ none)
    × (t.store ≡ waiting_registry.store)
finish_timer_example = finish_timer lost waiting_registry waiting-SafeSystem
