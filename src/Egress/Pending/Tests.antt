-- ===== src/Egress/Pending/Tests.antt =====
-- One request, approved.
use appx.Base.{subst, sym, ◌≡◌, refl, true, false, none, some, [], ◌∷◌}
use appx.Text.{Text, codes, text_eq}
use appx.Text.Int.{pos}
use appx.Egress.Store.{Store, entries, new_store}
use appx.Egress.Pending.{
  PendingRequest, PendingRegistry, ok, add, find, resolved, resolve, new_registry, System, adds,
  takes, delivers, cleans, step, run,
}
use appx.Egress.Pending.Safe.{SafeSystem, run-ok, step-SafeSystem, new_registry-SafeSystem}
use appx.Egress.Pending.Outcome.{resolve_answers}

abbrev empty_store : Store
empty_store = new_store (entries []) [] 1

abbrev empty : PendingRegistry
empty = new_registry (some empty_store)

abbrev asked : PendingRegistry
asked = (add (codes "1") (codes "a.b") (pos 443) (codes "why") 5 empty).1

abbrev question : PendingRequest
question = (add (codes "1") (codes "a.b") (pos 443) (codes "why") 5 empty).0

run-ok_example :
    (t : System) × (run
        (adds (codes "1") (codes "a.b") (pos 443) [] 5
          ∷ takes (codes "1") true
          ∷ cleans 9
          ∷ delivers 0 true
          ∷ [])
        (record { registry = empty; in_flight = [] })
      ≡ ok t)
run-ok_example = run-ok (some empty_store) (
    adds (codes "1") (codes "a.b") (pos 443) [] 5
    ∷ takes (codes "1") true
    ∷ cleans 9
    ∷ delivers 0 true
    ∷ [])

asked-SafeSystem : SafeSystem (record { registry = asked; in_flight = [] })
asked-SafeSystem =
    let (t, e, v) =
      step-SafeSystem (adds (codes "1") (codes "a.b") (pos 443) (codes "why") 5)
        (record { registry = empty; in_flight = [] })
        (new_registry-SafeSystem (some empty_store)) in
    let same : record { registry = asked; in_flight = [] } ≡ t = unfold step in cc e in
    subst SafeSystem (sym same) v

found : find (codes "1") asked.requests ≡ some question
unfolding find add appx.Text.text_eq
found = refl

resolve_answers_example :
    (t : PendingRegistry) × (resolve (codes "1") true false asked ≡ resolved (ok t))
    × ((t.chans question.done).queued ≡ true ∷ [])
    × ((t.chans question.done).closed ≡ true)
    × (find (codes "1") t.requests ≡ none)
resolve_answers_example =
    resolve_answers (codes "1") true false asked question asked-SafeSystem found

abbrev answered_registry : PendingRegistry
answered_registry = resolve_answers_example.0

kept_store : asked.store ≡ some empty_store
unfolding add
kept_store = refl
