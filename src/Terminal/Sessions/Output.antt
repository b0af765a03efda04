-- ===== src/Terminal/Sessions/Output.antt =====
-- What pumpOutput of internal/terminal/manager.go does with a session's output, and at its end.
use appx.Base.{
  ℕ, ◌≡◌, refl, ◌∙◌, Bool, true, false, ◌||◌, none, List, [], ◌∷◌, if◌then◌else◌, subst,
}
use appx.Base.Effects.{ok}
use appx.Base.Maps.{lookup}
use appx.Text.Equality.{text_eq_refl}
use appx.Terminal.Sessions.{Manager, output, pump_output, close_session, is_empty}
use appx.Terminal.Sessions.Run.{SafeManager, output-SafeManager}
use appx.Terminal.Sessions.Index.{IsIndexed}
use appx.Terminal.Sessions.Kept.{IsKept, IsKept-refl}
use appx.Terminal.Sessions.Reach.{Reached, Reached-SafeManager, Reached-IsIndexed, IsIndexed-IsKept}
use appx.Terminal.Sessions.Shutdown.{close_session-IsGone, IsGone}

abbrev pub fails : List (List ℕ × Bool) → Bool
fails [] = false
fails ((sent, failed) ∷ reads) = failed || fails reads

-- One read's bytes, which may be none.
took-IsKept :
    (p : ℕ) (sent : List ℕ) (m : Manager)
    → SafeManager m
    → (t : Manager) × ((if is_empty sent then ok m else output p sent m) ≡ ok t)
      × SafeManager t
      × IsKept m t
took-IsKept p [] m safe = (m, refl, safe, IsKept-refl m)
took-IsKept p (x ∷ sent) m safe = output-SafeManager p (x ∷ sent) m safe

pump_next :
    (p : ℕ) (sent : List ℕ) (failed : Bool) (reads : List (List ℕ × Bool)) (m s t : Manager)
    → (if is_empty sent then ok m else output p sent m) ≡ ok s
    → (if failed then close_session (s.objects p).id s else pump_output p reads s) ≡ ok t
    → pump_output p ((sent, failed) ∷ reads) m ≡ ok t
unfolding pump_output
pump_next p sent failed reads m s t e e' = rw (pump_output, e) e'

closed_own :
    (p : ℕ) (m s t : Manager)
    → IsKept m s
    → IsGone ((s.objects p).id ∷ []) s t
    → lookup (m.objects p).id t.sessions ≡ none
closed_own p m s t kept g =
    subst (λ x. lookup x t.sessions ≡ none) (kept.same_id p)
      (g.gone (s.objects p).id ∙ rw (text_eq_refl (s.objects p).id) refl)

pump_output-ends :
    (p : ℕ) (reads : List (List ℕ × Bool)) (m : Manager)
    → SafeManager m
    → IsIndexed m
    → fails reads ≡ true
    → (t : Manager) × (pump_output p reads m ≡ ok t) × (lookup (m.objects p).id t.sessions ≡ none)
pump_output-ends p [] m safe v h = absurd (let z = h in cc)
pump_output-ends p ((sent, true) ∷ reads) m safe v h =
    let (s, e, safe', kept) = took-IsKept p sent m safe in
    let (t, e', g) = close_session-IsGone (s.objects p).id s safe' (IsIndexed-IsKept m s kept v) in
    (t, pump_next p sent true reads m s t e e', closed_own p m s t kept g)
pump_output-ends p ((sent, false) ∷ reads) m safe v h =
    let (s, e, safe', kept) = took-IsKept p sent m safe in
    let (t, e', gone) = pump_output-ends p reads s safe' (IsIndexed-IsKept m s kept v) h in
    (
      t,
      pump_next p sent false reads m s t e e',
      subst (λ x. lookup x t.sessions ≡ none) (kept.same_id p) gone,
    )

-- In any manager that the calls reach, the loop of pumpOutput ends once a read fails, and afterwards
-- the session's id is not registered.
pub pump_output-unregistered :
    (b : ℕ) (m : Manager) (p : ℕ) (reads : List (List ℕ × Bool))
    → Reached b m
    → fails reads ≡ true
    → (t : Manager) × (pump_output p reads m ≡ ok t) × (lookup (m.objects p).id t.sessions ≡ none)
pump_output-unregistered b m p reads r h =
    pump_output-ends p reads m (Reached-SafeManager b m r) (Reached-IsIndexed b m r) h
