-- ===== src/Runtime/Docker/Wait.antt =====
-- The wait for health in internal/containerruntime/docker.go ends.
use appx.Base.{
  ℕ, zero, suc, ◌+◌, ◌<◌, ◌≤◌, ◌≡◌, inl, inr, true, false, arith, Bool-cases, ltb, ltb→lt,
  ltb_false→le, Option, none, some, if◌then◌else◌,
}
use appx.Runtime.Docker.{Supervisor, Health, healthy, unhealthy, deadline, wait_from, wait_healthy}

-- The ends of the wait until `last`, from the n-th probe on, at `now`; running out of fuel is none of them.
pub data Waited (d : Supervisor) (last : ℕ) : ℕ → ℕ → Health → Type 0 where
  answered : (now n : ℕ) → (d.ping n).0 ≡ true → Waited d last now n healthy
  timed_out :
      (now n : ℕ)
      → (d.ping n).0 ≡ false
      → last ≤ now + (d.ping n).1 + d.poll_interval
      → Waited d last now n unhealthy
  polls :
      (now n : ℕ) (r : Health)
      → (d.ping n).0 ≡ false
      → now + (d.ping n).1 + d.poll_interval < last
      → Waited d last (now + (d.ping n).1 + d.poll_interval) (suc n) r
      → Waited d last now n r

turn-Waited :
    (d : Supervisor) (now n : ℕ) (rest : Health)
    → (now + (d.ping n).1 + d.poll_interval < deadline d
        → Waited d (deadline d) (now + (d.ping n).1 + d.poll_interval) (suc n) rest)
    → Waited d (deadline d) now n (
        if (d.ping n).0
        then healthy
        else if ltb (now + (d.ping n).1 + d.poll_interval) (deadline d)
        then rest
        else unhealthy)
turn-Waited d now n rest h = elim (Bool-cases (d.ping n).0) [
  | inl up ↦ rw up (answered now n up)
  | inr down ↦ elim (Bool-cases (ltb (now + (d.ping n).1 + d.poll_interval) (deadline d))) [
    | inl early ↦ rw (down, early) (polls now n rest down (ltb→lt _ _ early) (h (ltb→lt _ _ early)))
    | inr late ↦ rw (down, late) (timed_out now n down (ltb_false→le _ _ late))
  ]
]

wait_from-Waited :
    (fuel : ℕ) (d : Supervisor) (now n : ℕ)
    → 0 < d.poll_interval
    → now ≤ deadline d
    → deadline d < fuel + now
    → Waited d (deadline d) now n (wait_from fuel d now n)
unfolding wait_from
wait_from-Waited zero d now n positive early enough = absurd (omega arith)
wait_from-Waited (suc fuel) d now n positive early enough = turn-Waited d now n _ (λ h.
    wait_from-Waited fuel d (now + (d.ping n).1 + d.poll_interval) (suc n) positive (omega arith)
      (omega arith))

-- The deadline is the timeout or the end of the caller's context, whichever comes first.
pub data IsEarlier (timeout : ℕ) : Option ℕ → ℕ → Type 0 where
  no_context : IsEarlier timeout none timeout
  context_first : (left : ℕ) → left < timeout → IsEarlier timeout (some left) left
  timeout_first : (left : ℕ) → timeout ≤ left → IsEarlier timeout (some left) timeout

earlier :
    (timeout : ℕ) (o : Option ℕ)
    → IsEarlier timeout o
        (elim o [ none ↦ timeout | some left ↦ if ltb left timeout then left else timeout ])
earlier timeout none = no_context
earlier timeout (some left) = elim (Bool-cases (ltb left timeout)) [
  | inl less ↦ rw less (context_first left (ltb→lt _ _ less))
  | inr more ↦ rw more (timeout_first left (ltb_false→le _ _ more))
]

-- If the poll interval is not 0, the wait for health ends: after the first probe that is answered, or
-- after a failed probe whose next turn would not start before the deadline, which is the timeout or the
-- end of the caller's context, whichever comes first. Every turn but the first starts before the
-- deadline. It never runs out of fuel.
pub wait_healthy-Waited :
    (d : Supervisor)
    → 0 < d.poll_interval
    → (last : ℕ) × IsEarlier d.ready_timeout d.context_left last
      × Waited d last 0 0 (wait_healthy d)
unfolding wait_healthy deadline
wait_healthy-Waited d positive = (
  deadline d,
  earlier d.ready_timeout d.context_left,
  wait_from-Waited (suc (deadline d)) d 0 0 positive (omega arith) (omega arith),
)
