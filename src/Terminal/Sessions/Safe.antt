-- ===== src/Terminal/Sessions/Safe.antt =====
-- Whatever critical sections interleave, no channel is closed twice and none is sent to when closed.
use appx.Base.{
  ℕ, ◌≤◌, ◌<◌, ◌≡◌, sym, ap, ◌∙◌, inl, inr, false, none, some, List, [], ◌∷◌, arith, Bool-cases,
  ◌==◌, ==_iff, subst,
}
use appx.Base.Effects.{Effect, ok, ◌>>=◌}
use appx.Text.{Text}
use appx.Terminal.Fanout.{Chan, update, count, receive}
use appx.Terminal.Fanout.Delivery.{update-same, update-other}
use appx.Terminal.Ring.Refine
use appx.Terminal.Sessions.{
  Session, Manager, register, add_subscriber, drop_subscriber, unlink, shut, output,
}

-- The critical sections, and a subscriber's receive from a channel. A pointer that a call has looked up may be any pointer by the time that it
-- is used, so it is an argument of its own.
pub data Event : Type 0 where
  registers : Text → Text → Text → ℕ → ℕ → Event
  adds_subscriber : ℕ → Event
  drops_subscriber : ℕ → ℕ → Event
  unlinks : Text → Event
  shuts : ℕ → Event
  outputs : ℕ → List ℕ → Event
  receives : ℕ → Event

unfoldable pub step : Event → Manager → Effect Manager
step (registers id project_id exec_id conn now) m = ok (register id project_id exec_id conn now m).1
step (adds_subscriber p) m = ok (add_subscriber p m).1
step (drops_subscriber p c) m = ok (drop_subscriber p c m)
step (unlinks id) m = elim (unlink id m) [ none ↦ ok m | some (p, m') ↦ ok m' ]
step (shuts p) m = shut p m
step (outputs p sent) m = output p sent m
step (receives c) m = ok (record m { chans = receive c m.chans })

unfoldable pub run : List Event → Manager → Effect Manager
run [] m = ok m
run (e ∷ es) m = do m' ← step e m; run es m'

-- A subscribed channel is open, and subscribed to one session, once.
pub record IsSafe (objects : ℕ → Session) (chans : ℕ → Chan) (next : ℕ) : Type 0 where
  pub once : (p c : ℕ) → count c (objects p).subs ≤ 1
  pub sole : (p q c : ℕ) → 0 < count c (objects p).subs → 0 < count c (objects q).subs → p ≡ q
  pub handed : (p c : ℕ) → 0 < count c (objects p).subs → c < next
  pub live : (p c : ℕ) → 0 < count c (objects p).subs → (chans c).closed ≡ false
  pub ring : (p : ℕ) → Refine.IsValid (objects p).buf
  pub once_done : (p : ℕ) → (objects p).close_once ≡ (objects p).done

fewer_anywhere :
    (objects : ℕ → Session) (p q c : ℕ) (s : Session)
    → count c s.subs ≤ count c (objects p).subs
    → count c (update objects p s q).subs ≤ count c (objects q).subs
fewer_anywhere objects p q c s h = elim (Bool-cases (q == p)) [
  | inl same ↦
      subst (λ x. count c (update objects p s x).subs ≤ count c (objects x).subs)
        (sym ((==_iff q p).0 same)) (ground (arith, h))
  | inr other ↦ ground arith
]

module _ (objects : ℕ → Session) (chans after : ℕ → Chan) (next p : ℕ) (s : Session)
    (v : IsSafe objects chans next) (fewer : (c : ℕ) → count c s.subs ≤ count c (objects p).subs)
    (still : (c : ℕ) → 0 < count c s.subs → (after c).closed ≡ false)
    (others : (c : ℕ) → count c (objects p).subs ≡ 0 → after c ≡ chans c) where
  held_before : (q c : ℕ) → 0 < count c (update objects p s q).subs → 0 < count c (objects q).subs
  held_before q c h = omega (arith, fewer_anywhere objects p q c s (fewer c))

  -- A channel of another session is none of the session's.
  held_elsewhere :
      (q c : ℕ) → (q == p) ≡ false → 0 < count c (objects q).subs → count c (objects p).subs ≡ 0
  held_elsewhere q c other h = ground (arith, v.sole q p c)

  live_after : (q c : ℕ) → 0 < count c (update objects p s q).subs → (after c).closed ≡ false
  live_after q c h = elim (Bool-cases (q == p)) [
    | inl same ↦ still c (ground (arith, h))
    | inr other ↦
        (let k = held_before q c h in
          ap (λ ch. ch.closed) (others c (held_elsewhere q c other k)) ∙ v.live q c k)
  ]

  ring_after : (q : ℕ) → Refine.IsValid s.buf → Refine.IsValid (update objects p s q).buf
  ring_after q h = elim (Bool-cases (q == p)) [
    | inl same ↦
        subst (λ x. Refine.IsValid (update objects p s x).buf) (sym ((==_iff q p).0 same))
          (subst (λ x. Refine.IsValid x.buf) (sym (update-same objects p s)) h)
    | inr other ↦
        subst (λ x. Refine.IsValid x.buf) (sym (update-other objects p q s other)) (v.ring q)
  ]

  -- The subscribers of one session become fewer, and only its channels change.
  pub IsSafe-fewer :
      s.close_once ≡ s.done → Refine.IsValid s.buf → IsSafe (update objects p s) after next
  IsSafe-fewer e ring = record {
    once = λ q c. omega (arith, v.once q c, fewer_anywhere objects p q c s (fewer c));
    sole = λ q r c h k. v.sole q r c (held_before q c h) (held_before r c k);
    handed = λ q c h. v.handed q c (held_before q c h);
    live = live_after;
    ring = λ q. ring_after q ring;
    once_done = λ q. ground (arith, v.once_done q, e);
  }

-- A receive neither opens nor closes a channel.
receive-closed : (c d : ℕ) (chans : ℕ → Chan) → (receive c chans d).closed ≡ (chans d).closed
unfolding receive
receive-closed c d chans = elim (Bool-cases (d == c)) [
  | inl same ↦
      subst (λ x. (receive c chans x).closed ≡ (chans x).closed) (sym ((==_iff d c).0 same))
        (ap (λ ch. ch.closed) (update-same chans c _))
  | inr other ↦ ap (λ ch. ch.closed) (update-other chans c d _ other)
]

pub IsSafe-receive :
    (objects : ℕ → Session) (chans : ℕ → Chan) (next c : ℕ)
    → IsSafe objects chans next
    → IsSafe objects (receive c chans) next
IsSafe-receive objects chans next c v = record {
  once = v.once;
  sole = v.sole;
  handed = v.handed;
  live = λ p d h. receive-closed c d chans ∙ v.live p d h;
  ring = v.ring;
  once_done = v.once_done;
}
