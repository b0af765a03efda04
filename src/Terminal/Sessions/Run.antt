-- ===== src/Terminal/Sessions/Run.antt =====
-- Every critical section keeps the manager safe, so every run of them does.
use appx.Base.{
  ℕ, ◌≤◌, ◌≡◌, refl, sym, ◌∙◌, inl, inr, true, false, Option-cases, List, [], ◌∷◌, arith,
  Bool-cases, if◌then◌else◌, ◌==◌, ==_iff, subst,
}
use appx.Base.Effects.{ok}
use appx.Base.Maps.{lookup, delete}
use appx.Text.{Text}
use appx.Terminal.Fanout.{Chan, update, count, unsubscribed, subscribed, broadcast, close_all}
use appx.Terminal.Fanout.Delivery.{
  IsLive, broadcast-IsSent, close_all-IsAllClosed, count-unsubscribed, count-subscribed, kept_open,
}
use appx.Terminal.Ring.{write}
use appx.Terminal.Ring.Refine.{IsValid, write-IsValid, new_ring_buffer-IsValid}
use appx.Terminal.Sessions.{
  Session, Manager, register, add_subscriber, drop_subscriber, unlink, shut, output, new_manager,
  without, with_subs,
}
use appx.Terminal.Sessions.Safe.{
  receives, IsSafe-receive, Event, registers, adds_subscriber, drops_subscriber, unlinks, shuts,
  outputs, step, run, IsSafe, IsSafe-fewer,
}
use appx.Terminal.Sessions.Kept.{
  IsKept, IsKept-refl, update-kept, object-IsKept, IsShut, object-IsShut,
}

abbrev pub SafeManager : Manager → Type 0
SafeManager m = IsSafe m.objects m.chans m.next_chan

-- The subscribers of one session are live.
pub subs-IsLive :
    (p : ℕ) (objects : ℕ → Session) (chans : ℕ → Chan) (next : ℕ)
    → IsSafe objects chans next
    → IsLive (objects p).subs chans
subs-IsLive p objects chans next v = record { once = λ c. v.once p c; live = λ c. v.live p c }

register-SafeManager :
    (id project_id exec_id : Text) (conn now : ℕ) (m : Manager)
    → SafeManager m
    → SafeManager (register id project_id exec_id conn now m).1
unfolding register
register-SafeManager id project_id exec_id conn now m v =
    IsSafe-fewer m.objects m.chans m.chans m.next_chan m.next_object _ v (λ c. omega arith)
      (λ c h. absurd (omega arith)) (λ c h. refl) refl (new_ring_buffer-IsValid m.buf_size)

drop_subscriber-SafeManager :
    (p c : ℕ) (m : Manager) → SafeManager m → SafeManager (drop_subscriber p c m)
unfolding drop_subscriber
drop_subscriber-SafeManager p c m v =
    let fewer : (d : ℕ) → count d (unsubscribed c (m.objects p).subs) ≤ count d (m.objects p).subs =
      λ d. ground (arith, count-unsubscribed d c (m.objects p).subs) in
    IsSafe-fewer m.objects m.chans m.chans m.next_chan p _ v fewer
      (λ d h. v.live p d (omega (arith, fewer d))) (λ d h. refl) (v.once_done p) (v.ring p)

count-update :
    (c p q : ℕ) (objects : ℕ → Session) (s : Session)
    → count c (update objects p s q).subs
      ≡ (if q == p then count c s.subs else count c (objects q).subs)
count-update c p q objects s = ground arith

-- A new channel is subscribed to the session that it was made for.
module _ (p : ℕ) (m : Manager) (v : SafeManager m) where
  abbrev subs_after : List ℕ
  subs_after = subscribed m.next_chan (m.objects p).subs

  abbrev after_adding : ℕ → Session
  after_adding = update m.objects p (with_subs (m.objects p) subs_after)

  unheld : (q : ℕ) → count m.next_chan (m.objects q).subs ≡ 0
  unheld q = ground (arith, v.handed q m.next_chan)

  -- Other channels are held as before.
  count-after_adding :
      (q c : ℕ)
      → (m.next_chan == c) ≡ false
      → count c (after_adding q).subs ≡ count c (m.objects q).subs
  count-after_adding q c other = elim (Bool-cases (q == p)) [
    | inl same ↦
        subst (λ x. count c (after_adding x).subs ≡ count c (m.objects x).subs)
          (sym ((==_iff q p).0 same))
          (ground (arith, count-subscribed c m.next_chan (m.objects p).subs))
    | inr differs ↦ ground arith
  ]

  count-after_adding_new :
      (q : ℕ) → count m.next_chan (after_adding q).subs ≡ (if q == p then 1 else 0)
  count-after_adding_new q = ground (
    arith,
    count-update m.next_chan p q m.objects (with_subs (m.objects p) subs_after),
    count-subscribed m.next_chan m.next_chan (m.objects p).subs,
    unheld q,
  )

  -- A statement on channels holds of the new one and of the others.
  new_or_other :
      {P : ℕ → Type 0}
      → P m.next_chan
      → ((c : ℕ) → (m.next_chan == c) ≡ false → P c)
      → (c : ℕ) → P c
  new_or_other {P} new other c = elim (Bool-cases (m.next_chan == c)) [
    | inl same ↦ subst P ((==_iff m.next_chan c).0 same) new
    | inr differs ↦ other c differs
  ]

  ring_kept : (q : ℕ) → IsValid (after_adding q).buf
  ring_kept q = subst IsValid (sym (update-kept (λ s. s.buf) m.objects p q _ refl)) (v.ring q)

  add_subscriber-SafeManager : SafeManager (add_subscriber p m).1
  unfolding add_subscriber
  add_subscriber-SafeManager = record {
    once = λ q.
        new_or_other (ground (arith, count-after_adding_new q))
          (λ c other. ground (arith, count-after_adding q c other, v.once q c));
    sole = λ q r.
        new_or_other (λ h k. ground (arith, count-after_adding_new q, count-after_adding_new r))
          (λ c other h k.
            v.sole q r c (omega (arith, count-after_adding q c other))
              (omega (arith, count-after_adding r c other)));
    handed = λ q.
        new_or_other (λ h. omega arith)
          (λ c other h. omega (arith, v.handed q c (omega (arith, count-after_adding q c other))));
    live = λ q.
        new_or_other (λ h. ground arith)
          (λ c other h. ground (arith, v.live q c (omega (arith, count-after_adding q c other))));
    ring = λ q. ring_kept q;
    once_done = λ q. ground (arith, v.once_done q);
  }

unlink-SafeManager :
    (id : Text) (m : Manager)
    → SafeManager m
    → (t : Manager) × (step (unlinks id) m ≡ ok t) × SafeManager t
unfolding step unlink
unlink-SafeManager id m v = elim (Option-cases (lookup id m.sessions)) [
  | inl missing ↦ (m, ground arith, v)
  | inr (p, hit) ↦ (
    record m {
      sessions = delete id m.sessions;
      by_project = without id (m.objects p).project_id m.by_project;
    },
    ground arith,
    v,
  )
]

abbrev pub shut_down : ℕ → Manager → (ℕ → Chan) → Manager
shut_down p m after = record m {
  objects =
      update m.objects p
        (record (m.objects p) { conn_closed = true; subs = []; done = true; close_once = true });
  chans = after;
}

pub shut_first :
    (p : ℕ) (m : Manager) (after : ℕ → Chan)
    → (m.objects p).close_once ≡ false
    → (m.objects p).done ≡ false
    → close_all (m.objects p).subs m.chans ≡ ok after
    → shut p m ≡ ok (shut_down p m after)
unfolding shut
shut_first p m after first undone e = ground arith

pub shut-SafeManager :
    (p : ℕ) (m : Manager)
    → SafeManager m
    → (t : Manager) × (shut p m ≡ ok t) × SafeManager t × IsKept m t × IsShut p m t
unfolding shut
shut-SafeManager p m v = elim (Bool-cases (m.objects p).close_once) [
  | inl again ↦ (
    m,
    ground arith,
    v,
    IsKept-refl m,
    record { stopped = sym (v.once_done p) ∙ again; still = λ q h. h },
  )
  | inr first ↦
      (let (after, e, s) =
          close_all-IsAllClosed (m.objects p).subs m.chans
            (subs-IsLive p m.objects m.chans m.next_chan v) in
        (
          shut_down p m after,
          shut_first p m after first (sym (v.once_done p) ∙ first) e,
          IsSafe-fewer m.objects m.chans after m.next_chan p _ v (λ c. omega arith)
              (λ c h. absurd (omega arith)) (λ c h. s.others c h) refl (v.ring p),
          object-IsKept p m _ after m.next_chan refl refl,
          object-IsShut p m _ after refl,
        ))
]

abbrev pub with_output : ℕ → List ℕ → Manager → List ℕ → (ℕ → Chan) → Manager
with_output p sent m kept after = record m {
  objects =
      update m.objects p (record (m.objects p) { buf = write (m.objects p).buf sent; subs = kept });
  chans = after;
}

pub output_sent :
    (p : ℕ) (sent : List ℕ) (m : Manager) (kept : List ℕ) (after : ℕ → Chan)
    → broadcast sent (m.objects p).subs m.chans ≡ ok (kept, after)
    → output p sent m ≡ ok (with_output p sent m kept after)
unfolding output
output_sent p sent m kept after e = rw e refl

pub output-SafeManager :
    (p : ℕ) (sent : List ℕ) (m : Manager)
    → SafeManager m
    → (t : Manager) × (output p sent m ≡ ok t) × SafeManager t × IsKept m t
output-SafeManager p sent m v =
    let (kept, after, e, s) =
      broadcast-IsSent sent (m.objects p).subs m.chans
        (subs-IsLive p m.objects m.chans m.next_chan v) in
    (
      with_output p sent m kept after,
      output_sent p sent m kept after e,
      IsSafe-fewer m.objects m.chans after m.next_chan p _ v (λ c. ground (arith, s.stays c))
          (λ c h.
            kept_open sent (m.objects p).subs kept m.chans after c
              (subs-IsLive p m.objects m.chans m.next_chan v) s h)
          (λ c h. s.untouched c h) (v.once_done p)
          (write-IsValid (m.objects p).buf sent (v.ring p)),
      object-IsKept p m _ after m.next_chan refl refl,
    )

-- Each critical section ends, and keeps the manager safe.
pub step-SafeManager :
    (e : Event) (m : Manager) → SafeManager m → (t : Manager) × (step e m ≡ ok t) × SafeManager t
unfolding step
step-SafeManager (registers id project_id exec_id conn now) m v =
    (_, refl, register-SafeManager id project_id exec_id conn now m v)
step-SafeManager (adds_subscriber p) m v = (_, refl, add_subscriber-SafeManager p m v)
step-SafeManager (drops_subscriber p c) m v = (_, refl, drop_subscriber-SafeManager p c m v)
step-SafeManager (unlinks id) m v = unlink-SafeManager id m v
step-SafeManager (shuts p) m v = let (t, e, w, _, _) = shut-SafeManager p m v in (t, e, w)
step-SafeManager (outputs p sent) m v =
    let (t, e, w, _) = output-SafeManager p sent m v in (t, e, w)
step-SafeManager (receives c) m v = (_, refl, IsSafe-receive m.objects m.chans m.next_chan c v)

run-cons :
    (e : Event) (es : List Event) (m t : Manager) → step e m ≡ ok t → run (e ∷ es) m ≡ run es t
unfolding run
run-cons e es m t h = rw h refl

run-SafeManager :
    (es : List Event) (m : Manager)
    → SafeManager m
    → (t : Manager) × (run es m ≡ ok t) × SafeManager t
run-SafeManager [] m v = (m, unfold run in refl, v)
run-SafeManager (e ∷ es) m v =
    let (m', stepped, v') = step-SafeManager e m v in
    let (t, rest, w) = run-SafeManager es m' v' in (t, run-cons e es m m' stepped ∙ rest, w)

pub new_manager-SafeManager : (buf_size : ℕ) → SafeManager (new_manager buf_size)
new_manager-SafeManager buf_size = record {
  once = λ p c. omega arith;
  sole = λ p q c h k. absurd (omega arith);
  handed = λ p c h. absurd (omega arith);
  live = λ p c h. refl;
  ring = λ p. new_ring_buffer-IsValid 0;
  once_done = λ p. refl;
}

-- From a new manager, whatever critical sections of CreateSession, Subscribe, Unsubscribe,
-- CloseSession and pumpOutput run, and whatever subscribers receive from their channels, in any order and
-- on any sessions, none of them panics, each channel that is subscribed is open, and it is subscribed to
-- one session, once.
pub run-new_manager :
    (buf_size : ℕ) (es : List Event)
    → (t : Manager) × (run es (new_manager buf_size) ≡ ok t) × SafeManager t
run-new_manager buf_size es =
    run-SafeManager es (new_manager buf_size) (new_manager-SafeManager buf_size)
