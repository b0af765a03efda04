-- ===== src/Terminal/Sessions/Kept.antt =====
-- What the calls of internal/terminal/manager.go that handle one session leave as it is.
use appx.Base.{ℕ, ◌≡◌, refl, sym, ap, ◌∙◌, inl, inr, true, Bool-cases, subst, ◌==◌, ==_iff, arith}
use appx.Terminal.Fanout.{Chan, update}
use appx.Terminal.Fanout.Delivery.{update-same}
use appx.Terminal.Sessions.{Session, Manager}

-- What no critical section but CreateSession's and CloseSession's first changes.
pub record IsKept (m t : Manager) : Type 0 where
  pub same_sessions : t.sessions ≡ m.sessions
  pub same_index : t.by_project ≡ m.by_project
  pub same_next : t.next_object ≡ m.next_object
  pub same_project : (p : ℕ) → (t.objects p).project_id ≡ (m.objects p).project_id
  pub same_id : (p : ℕ) → (t.objects p).id ≡ (m.objects p).id

pub update-kept {ℓ} :
    {A : Type ℓ} (f : Session → A) (objects : ℕ → Session) (p q : ℕ) (s : Session)
    → f s ≡ f (objects p)
    → f (update objects p s q) ≡ f (objects q)
update-kept f objects p q s e = elim (Bool-cases (q == p)) [
  | inl same ↦
      subst (λ x. f (update objects p s x) ≡ f (objects x)) (sym ((==_iff q p).0 same))
        (ap f (update-same objects p s) ∙ e)
  | inr other ↦ ap f (ground arith)
]

pub object-IsKept :
    (p : ℕ) (m : Manager) (s : Session) (after : ℕ → Chan) (next : ℕ)
    → s.project_id ≡ (m.objects p).project_id
    → s.id ≡ (m.objects p).id
    → IsKept m (record m { objects = update m.objects p s; chans = after; next_chan = next })
object-IsKept p m s after next e e' = record {
  same_sessions = refl;
  same_index = refl;
  same_next = refl;
  same_project = λ q. update-kept (λ x. x.project_id) m.objects p q s e;
  same_id = λ q. update-kept (λ x. x.id) m.objects p q s e';
}

pub IsKept-refl : (m : Manager) → IsKept m m
IsKept-refl m = record {
  same_sessions = refl;
  same_index = refl;
  same_next = refl;
  same_project = λ p. refl;
  same_id = λ p. refl;
}

-- A session that is shut is done, and no other session's end is undone.
pub record IsShut (p : ℕ) (m t : Manager) : Type 0 where
  pub stopped : (t.objects p).done ≡ true
  pub still : (q : ℕ) → (m.objects q).done ≡ true → (t.objects q).done ≡ true

pub object-IsShut :
    (p : ℕ) (m : Manager) (s : Session) (after : ℕ → Chan)
    → s.done ≡ true
    → IsShut p m (record m { objects = update m.objects p s; chans = after })
object-IsShut p m s after e = record {
  stopped = ap (λ x. x.done) (update-same m.objects p s) ∙ e;
  still = λ q h. ground arith;
}
