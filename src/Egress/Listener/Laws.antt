-- ===== src/Egress/Listener/Laws.antt =====
-- A timeout refuses the agent and withdraws its request.
use appx.Base.{◌≡◌, refl, true, false, none, Option-cases, inl, inr, []}
use appx.Egress.Pending.{PendingRequest, PendingRegistry, ok, find}
use appx.Egress.Pending.Safe.{SafeSystem}
use appx.Egress.Pending.Outcome.{resolve_answers, resolve_unknown, resolve_denies}
use appx.Egress.Listener.{timer, after_timeout, finish}

-- When the timer fires, with no other call under way: the answer is a refusal that names the timeout, no
-- call panics or blocks, the request is no longer pending, and the allowlist is as it was.
pub finish_timer :
    (req : PendingRequest) (r : PendingRegistry)
    → SafeSystem (record { registry = r; in_flight = [] })
    → ((finish timer req r).0 ≡ record { allowed = false; timeout = true })
      × (t : PendingRegistry) × ((finish timer req r).1 ≡ ok t)
      × (find req.id t.requests ≡ none)
      × (t.store ≡ r.store)
unfolding finish
finish_timer req r v = elim (Option-cases (find req.id r.requests)) [
  | inl gone ↦ (
    refl,
    r,
    rw (resolve_unknown req.id false true r gone) (unfold after_timeout in refl),
    gone,
    refl,
  )
  | inr (q, held) ↦
      (let (t, done, queued, shut, removed) = resolve_answers req.id false true r q v held in
        (
          refl,
          t,
          rw done (unfold after_timeout in refl),
          removed,
          resolve_denies req.id true r t q v held done,
        ))
]
