-- ===== src/Terminal/Sessions/Reach.antt =====
-- The managers that some order of critical sections and of receives reaches, when each session's id is new.
use appx.Base.{ℕ, ◌≡◌, refl, ◌∙◌, inl, inr, none, some, Option-cases, arith, subst, []}
use appx.Base.Effects.{Effect, ok}
use appx.Base.Maps.{lookup, delete}
use appx.Text.{Text}
use appx.Terminal.Fanout.{receive}
use appx.Terminal.Sessions.{
  Manager, add_subscriber, drop_subscriber, unlink, new_manager, without, project_sessions,
}
use appx.Terminal.Sessions.Safe.{
  Event, registers, adds_subscriber, drops_subscriber, unlinks, shuts, outputs, receives, step,
}
use appx.Terminal.Sessions.Run.{
  SafeManager, step-SafeManager, new_manager-SafeManager, shut-SafeManager, output-SafeManager,
}
use appx.Terminal.Sessions.Kept.{IsKept, object-IsKept}
use appx.Terminal.Sessions.Index.{
  IsIndexed, new_manager-IsIndexed, register-IsIndexed, unlinked-IsIndexed,
}

abbrev pub IsFresh : Event → Manager → Type 0
IsFresh (registers id project_id exec_id conn now) m = lookup id m.sessions ≡ none
IsFresh _ m = Unit

pub data Reached (buf_size : ℕ) : Manager → Type 0 where
  starts : Reached buf_size (new_manager buf_size)
  steps :
      (e : Event) (m t : Manager)
      → Reached buf_size m
      → IsFresh e m
      → step e m ≡ ok t
      → Reached buf_size t

adds_subscriber-IsKept : (p : ℕ) (m : Manager) → IsKept m (add_subscriber p m).1
unfolding add_subscriber
adds_subscriber-IsKept p m = object-IsKept p m _ _ _ refl refl

drops_subscriber-IsKept : (p c : ℕ) (m : Manager) → IsKept m (drop_subscriber p c m)
unfolding drop_subscriber
drops_subscriber-IsKept p c m = object-IsKept p m _ _ _ refl refl

receives-IsKept : (c : ℕ) (m : Manager) → IsKept m (record m { chans = receive c m.chans })
receives-IsKept c m = record {
  same_sessions = refl;
  same_index = refl;
  same_next = refl;
  same_project = λ p. refl;
  same_id = λ p. refl;
}

pub IsIndexed-IsKept : (m t : Manager) → IsKept m t → IsIndexed m → IsIndexed t
IsIndexed-IsKept m t k v =
    let before : (id : Text) (p : ℕ)
        → lookup id t.sessions ≡ some p
        → lookup id m.sessions ≡ some p =
      λ id p h. subst (λ x. lookup id x ≡ some p) k.same_sessions h in
    let in_index : (l id : Text) (p : ℕ)
        → lookup id (project_sessions l t.by_project) ≡ some p
        → lookup id (project_sessions l m.by_project) ≡ some p =
      λ l id p h. subst (λ x. lookup id (project_sessions l x) ≡ some p) k.same_index h in
    record {
      listed = λ id p h. rw (k.same_project p, k.same_index) (v.listed id p (before id p h));
      known = λ l id p h. rw (k.same_sessions) (v.known l id p (in_index l id p h));
      owned = λ l id p h. k.same_project p ∙ v.owned l id p (in_index l id p h);
      handed = λ id p h. rw (k.same_next) (v.handed id p (before id p h));
      named = λ id p h. k.same_id p ∙ v.named id p (before id p h);
      no_empty = λ l h. v.no_empty l (subst (λ x. lookup l x ≡ some []) k.same_index h);
    }

pub unlink_hit :
    (id : Text) (p : ℕ) (m : Manager)
    → lookup id m.sessions ≡ some p
    → unlink id m
      ≡ some (
        p,
        record m {
          sessions = delete id m.sessions;
          by_project = without id (m.objects p).project_id m.by_project;
        },
      )
unfolding unlink
unlink_hit id p m h = rw (unlink, h) refl

-- A section that ends in two ways ends in one.
unique_end : (r : Effect Manager) (s t : Manager) → r ≡ ok s → r ≡ ok t → s ≡ t
unique_end r s t h k = cc

-- Each critical section keeps the registry and its index in step.
step-IsIndexed :
    (e : Event) (m : Manager)
    → SafeManager m
    → IsFresh e m
    → IsIndexed m
    → (t : Manager) × (step e m ≡ ok t) × IsIndexed t
unfolding step
step-IsIndexed (registers id project_id exec_id conn now) m safe fresh v =
    (_, refl, register-IsIndexed id project_id exec_id conn now m v fresh)
step-IsIndexed (adds_subscriber p) m safe fresh v =
    (_, refl, IsIndexed-IsKept m _ (adds_subscriber-IsKept p m) v)
step-IsIndexed (drops_subscriber p c) m safe fresh v =
    (_, refl, IsIndexed-IsKept m _ (drops_subscriber-IsKept p c m) v)
step-IsIndexed (unlinks id) m safe fresh v = elim (Option-cases (lookup id m.sessions)) [
  | inl missing ↦ (m, unfold unlink in ground arith, v)
  | inr (p, hit) ↦ (_, rw (step, unlink_hit id p m hit) refl, unlinked-IsIndexed id p m v hit)
]
step-IsIndexed (shuts p) m safe fresh v =
    let (t, e, _, k, _) = shut-SafeManager p m safe in (t, e, IsIndexed-IsKept m t k v)
step-IsIndexed (outputs p sent) m safe fresh v =
    let (t, e, _, k) = output-SafeManager p sent m safe in (t, e, IsIndexed-IsKept m t k v)
step-IsIndexed (receives c) m safe fresh v = (_, refl, IsIndexed-IsKept m _ (receives-IsKept c m) v)

pub Reached-SafeManager : (b : ℕ) (m : Manager) → Reached b m → SafeManager m
Reached-SafeManager b _ starts = new_manager-SafeManager b
Reached-SafeManager b _ (steps e m t r fresh h) =
    let (s, e', w) = step-SafeManager e m (Reached-SafeManager b m r) in
    subst SafeManager (unique_end (step e m) s t e' h) w

-- However the critical sections of the manager's calls and the receives interleave, with a new id for each session: the
-- registry and the index by project hold the same sessions, each under its own id and project, and the
-- index has no project without sessions.
pub Reached-IsIndexed : (b : ℕ) (m : Manager) → Reached b m → IsIndexed m
Reached-IsIndexed b _ starts = new_manager-IsIndexed b
Reached-IsIndexed b _ (steps e m t r fresh h) =
    let (s, e', w) =
      step-IsIndexed e m (Reached-SafeManager b m r) fresh (Reached-IsIndexed b m r) in
    subst IsIndexed (unique_end (step e m) s t e' h) w
