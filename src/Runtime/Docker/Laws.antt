-- ===== src/Runtime/Docker/Laws.antt =====
-- What EnsureRunning of internal/containerruntime/docker.go does to the container.
use appx.Base.{
  ◌≡◌, ◌⊎◌, refl, sym, subst, inl, inr, true, false, not, Option, none, some, List, [], ◌∷◌, ap,
  taken, not_taken, Bool-cases,
}
use appx.Runtime.Spec.{
  ContainerSpec, ContainerStatus, Missing, DriftReason, drift_reasons, run_args, validate,
}
use appx.Runtime.Spec.Drift.{IsAsSpecified, drift_reasons-nil}
use appx.Runtime.Docker.{
  Supervisor, RuntimeError, Result, ok, err, History, read_status, inspect_args, start_args, status,
  create, start, ensure_existing, ensure_from, ensure_valid, ensure_running, then_wait,
  wait_healthy, Health, healthy, unhealthy, out_of_fuel, health_error,
}

-- The commands that EnsureRunning may have run, and when it may.
pub data Trace (d : Supervisor) (spec : ContainerSpec) (h : History) : History → Type 0 where
  untouched : Trace d spec h h
  looked : Trace d spec h (inspect_args spec.name ∷ h)
  created :
      (st : ContainerStatus)
      → read_status d (d.runner (inspect_args spec.name ∷ h)) ≡ ok st
      → st.exists_ ≡ false
      → Trace d spec h (run_args d.sort_strings spec ∷ inspect_args spec.name ∷ h)
  started :
      (st : ContainerStatus)
      → read_status d (d.runner (inspect_args spec.name ∷ h)) ≡ ok st
      → st.exists_ ≡ true
      → st.running ≡ false
      → drift_reasons spec st ≡ []
      → Trace d spec h (start_args spec.name ∷ inspect_args spec.name ∷ h)

then_wait-history : (d : Supervisor) (r : Option RuntimeError × History) → (then_wait d r).1 ≡ r.1
then_wait-history d (some e, h) = refl
then_wait-history d (none, h) = refl

-- What the container is when EnsureRunning has succeeded: new, or found without drift; and healthy.
pub record Ready (d : Supervisor) (spec : ContainerSpec) (h : History) (st : ContainerStatus)
    : Type 0 where
  pub seen : read_status d (d.runner (inspect_args spec.name ∷ h)) ≡ ok st
  pub as_specified : (st.exists_ ≡ false) ⊎ IsAsSpecified spec st
  pub answering : wait_healthy d ≡ healthy

health_error-none : (r : Health) → health_error r ≡ none → r ≡ healthy
health_error-none healthy h = refl
health_error-none unhealthy h = cc
health_error-none out_of_fuel h = cc

-- A step and the wait after it succeed only if the wait ends in health.
then_wait-none :
    (d : Supervisor) (r : Option RuntimeError × History)
    → (then_wait d r).0 ≡ none
    → wait_healthy d ≡ healthy
then_wait-none d (some e, h) k = cc
then_wait-none d (none, h) k = health_error-none (wait_healthy d) k

module _ (d : Supervisor) (spec : ContainerSpec) (h : History) where
  abbrev looked_at : History
  looked_at = inspect_args spec.name ∷ h

  ensure_existing-Trace :
      (st : ContainerStatus) (drift : List DriftReason)
      → read_status d (d.runner looked_at) ≡ ok st
      → st.exists_ ≡ true
      → drift_reasons spec st ≡ drift
      → Trace d spec h (ensure_existing d spec st drift looked_at).1
  unfolding ensure_existing start
  ensure_existing-Trace st (r ∷ rs) seen there e = looked
  ensure_existing-Trace st [] seen there e = elim (Bool-cases st.running) [
    | inl up ↦ rw up (subst (Trace d spec h) (sym (then_wait-history d (none, looked_at))) looked)
    | inr down ↦ rw down (
        subst (Trace d spec h) (sym (then_wait-history d (start d spec.name looked_at)))
          (started st seen there down e))
  ]

  from_there :
      (st : ContainerStatus)
      → st.exists_ ≡ true
      → ensure_from d spec (ok st, looked_at)
        ≡ ensure_existing d spec st (drift_reasons spec st) looked_at
  unfolding ensure_from
  from_there st there = not_taken (not st.exists_) _ _ (ap not there)

  from_missing :
      (st : ContainerStatus)
      → st.exists_ ≡ false
      → ensure_from d spec (ok st, looked_at) ≡ then_wait d (create d spec looked_at)
  unfolding ensure_from
  from_missing st missing = taken (not st.exists_) _ _ (ap not missing)

  ensure_from-Trace :
      (r : Result ContainerStatus)
      → read_status d (d.runner looked_at) ≡ r
      → Trace d spec h (ensure_from d spec (r, looked_at)).1
  unfolding create ensure_from
  ensure_from-Trace (err e) seen = looked
  ensure_from-Trace (ok st) seen = elim (Bool-cases st.exists_) [
    | inl there ↦
        subst (λ x. Trace d spec h x.1) (sym (from_there st there))
          (ensure_existing-Trace st (drift_reasons spec st) seen there refl)
    | inr missing ↦
        subst (λ x. Trace d spec h x.1) (sym (from_missing st missing))
          (subst (Trace d spec h) (sym (then_wait-history d (create d spec looked_at)))
            (created st seen missing))
  ]

  ensure_valid-Trace : (ms : List Missing) → Trace d spec h (ensure_valid d spec ms h).1
  unfolding status
  ensure_valid-Trace (m ∷ ms) = untouched
  ensure_valid-Trace [] = ensure_from-Trace (read_status d (d.runner looked_at)) refl

  ensure_existing-Ready :
      (st : ContainerStatus) (drift : List DriftReason)
      → read_status d (d.runner looked_at) ≡ ok st
      → drift_reasons spec st ≡ drift
      → (ensure_existing d spec st drift looked_at).0 ≡ none
      → Ready d spec h st
  unfolding ensure_existing
  ensure_existing-Ready st (r ∷ rs) seen e k = cc
  ensure_existing-Ready st [] seen e k = record {
    seen = seen;
    as_specified = inr (drift_reasons-nil spec st e);
    answering = elim (Bool-cases st.running) [
      | inl up ↦ health_error-none (wait_healthy d) (
          subst (λ (x : Option RuntimeError × History). x.0 ≡ none)
            (not_taken (not st.running) _ _ (ap not up)) k)
      | inr down ↦ then_wait-none d (start d spec.name looked_at) (
          subst (λ (x : Option RuntimeError × History). x.0 ≡ none)
            (taken (not st.running) _ _ (ap not down)) k)
    ];
  }

  ensure_from-Ready :
      (r : Result ContainerStatus)
      → read_status d (d.runner looked_at) ≡ r
      → (ensure_from d spec (r, looked_at)).0 ≡ none
      → (st : ContainerStatus) × Ready d spec h st
  unfolding ensure_from
  ensure_from-Ready (err e) seen k = cc
  ensure_from-Ready (ok st) seen k = elim (Bool-cases st.exists_) [
    | inl there ↦ (
      st,
      ensure_existing-Ready st (drift_reasons spec st) seen refl
          (subst (λ (x : Option RuntimeError × History). x.0 ≡ none) (from_there st there) k),
    )
    | inr missing ↦ (
      st,
      record {
        seen = seen;
        as_specified = inl missing;
        answering =
            then_wait-none d (create d spec looked_at) (
              subst (λ (x : Option RuntimeError × History). x.0 ≡ none) (from_missing st missing)
                k);
      },
    )
  ]

-- Whatever the container runtime answers, EnsureRunning runs at most two commands: it inspects the
-- container first, creates one only if there is none, and starts one only if it exists, is not running
-- and has not drifted. It never removes a container.
pub ensure_running-Trace :
    (d : Supervisor) (spec : ContainerSpec) (h : History)
    → Trace d spec h (ensure_running d spec h).1
unfolding ensure_running
ensure_running-Trace d spec h = ensure_valid-Trace d spec h (validate spec)

-- EnsureRunning succeeds only if the container did not exist when it was inspected, or ran the image of
-- the specification and published its three ports, and if the wait for health ended with an answer.
pub ensure_running-Ready :
    (d : Supervisor) (spec : ContainerSpec) (h : History)
    → (ensure_running d spec h).0 ≡ none
    → (st : ContainerStatus) × Ready d spec h st
unfolding ensure_running status
ensure_running-Ready d spec h k =
    elim (validate spec)
        as (λ ms.
          (ensure_valid d spec ms h).0 ≡ none → (st : ContainerStatus) × Ready d spec h st) [
            | [] ↦ λ e.
                ensure_from-Ready d spec h (read_status d (d.runner (inspect_args spec.name ∷ h)))
                  refl e
            | m ∷ ms ↦ λ e. cc
          ]
      k
