-- ===== src/Terminal/Sessions/Shutdown.antt =====
-- CloseSession, CloseProjectSessions and CloseAll of internal/terminal/manager.go, with no other call
-- between their critical sections.
use appx.Base.{
  ℕ, ◌≡◌, refl, ap, ◌∙◌, inl, inr, Bool, true, false, ◌||◌, none, some, Option-cases, List, [], ◌∷◌,
  arith, Bool-cases, if◌then◌else◌, subst, map, ◌≢◌, iff-eq,
}
use appx.Base.Effects.{ok}
use appx.Base.Maps.{lookup, delete, lookup-delete, lookup-same}
use appx.Text.{Text, text_eq}
use appx.Text.Equality.{text_eq→eq, text_eq_refl, text_eq_iff}
use appx.Terminal.Sessions.{
  Manager, unlink, shut, project_sessions, without, close_session, close_sessions,
  close_project_sessions, close_all_sessions,
}
use appx.Terminal.Sessions.Run.{SafeManager, shut-SafeManager}
use appx.Terminal.Sessions.Index.{IsIndexed, unlinked-IsIndexed}
use appx.Terminal.Sessions.Reach.{
  Reached, Reached-SafeManager, Reached-IsIndexed, unlink_hit, IsIndexed-IsKept,
}

abbrev pub mem : Text → List Text → Bool
mem j [] = false
mem j (id ∷ ids) = text_eq id j || mem j ids

mem-cons_nil : (id j : Text) → mem j (id ∷ []) ≡ true → text_eq id j ≡ true
mem-cons_nil id j h = ground arith

-- The sessions of the ids have left the registry and are done; the others stay as they are.
pub record IsGone (ids : List Text) (m t : Manager) : Type 0 where
  pub safe : SafeManager t
  pub indexed : IsIndexed t
  pub gone : (j : Text) → lookup j t.sessions ≡ (if mem j ids then none else lookup j m.sessions)
  pub same_project : (p : ℕ) → (t.objects p).project_id ≡ (m.objects p).project_id
  pub stopped :
      (j : Text) (p : ℕ)
      → mem j ids ≡ true
      → lookup j m.sessions ≡ some p
      → (t.objects p).done ≡ true
  pub still : (q : ℕ) → (m.objects q).done ≡ true → (t.objects q).done ≡ true

close_session_missing :
    (id : Text) (m : Manager) → lookup id m.sessions ≡ none → close_session id m ≡ ok m
unfolding close_session unlink
close_session_missing id m h = rw (close_session, unlink, h) refl

close_session_hit :
    (id : Text) (p : ℕ) (m : Manager)
    → lookup id m.sessions ≡ some p
    → close_session id m
      ≡ shut p (record m {
        sessions = delete id m.sessions;
        by_project = without id (m.objects p).project_id m.by_project;
      })
unfolding close_session
close_session_hit id p m h = rw (close_session, unlink_hit id p m h) refl

pub close_session-IsGone :
    (id : Text) (m : Manager)
    → SafeManager m
    → IsIndexed m
    → (t : Manager) × (close_session id m ≡ ok t) × IsGone (id ∷ []) m t
close_session-IsGone id m safe v = elim (Option-cases (lookup id m.sessions)) [
  | inl missing ↦ (
    m,
    close_session_missing id m missing,
    record {
      safe = safe;
      indexed = v;
      gone = λ j. ground (arith, lookup-same id j none m.sessions missing);
      same_project = λ p. refl;
      stopped = λ j p k h.
          absurd (let e = lookup-same id j none m.sessions missing (mem-cons_nil id j k) in cc);
      still = λ q h. h;
    },
  )
  | inr (p, hit) ↦
      (let left : Manager = record m {
        sessions = delete id m.sessions;
        by_project = without id (m.objects p).project_id m.by_project;
      } in
        let (t, e, w, kept, ended) = shut-SafeManager p left safe in
        (
          t,
          close_session_hit id p m hit ∙ e,
          record {
            safe = w;
            indexed = IsIndexed-IsKept left t kept (unlinked-IsIndexed id p m v hit);
            gone = λ j.
                ap (lookup j) kept.same_sessions ∙ ground (arith, lookup-delete id j m.sessions);
            same_project = kept.same_project;
            stopped = λ j q k h.
                (let e = lookup-same id j (some p) m.sessions hit (mem-cons_nil id j k) in
                  let same_object : p ≡ q = cc in
                  subst (λ x. (t.objects x).done ≡ true) same_object ended.stopped);
            still = ended.still;
          },
        ))
]

IsGone-cons :
    (id : Text) (ids : List Text) (m s t : Manager)
    → IsGone (id ∷ []) m s
    → IsGone ids s t
    → IsGone (id ∷ ids) m t
IsGone-cons id ids m s t g r = record {
  safe = r.safe;
  indexed = r.indexed;
  gone = λ j. ground (arith, g.gone j, r.gone j);
  same_project = λ p. r.same_project p ∙ g.same_project p;
  stopped = λ j p k h. elim (Bool-cases (text_eq id j)) [
    | inl same ↦ r.still p (g.stopped j p (ground arith) h)
    | inr other ↦ r.stopped j p (ground arith) (ground (arith, g.gone j))
  ];
  still = λ q h. r.still q (g.still q h);
}

close_sessions-cons :
    (id : Text) (ids : List Text) (m s t : Manager)
    → close_session id m ≡ ok s
    → close_sessions ids s ≡ ok t
    → close_sessions (id ∷ ids) m ≡ ok t
unfolding close_sessions
close_sessions-cons id ids m s t e e' = rw (close_sessions, e) e'

pub close_sessions-IsGone :
    (ids : List Text) (m : Manager)
    → SafeManager m
    → IsIndexed m
    → (t : Manager) × (close_sessions ids m ≡ ok t) × IsGone ids m t
close_sessions-IsGone [] m safe v = (
  m,
  unfold close_sessions in refl,
  record {
    safe = safe;
    indexed = v;
    gone = λ j. refl;
    same_project = λ p. refl;
    stopped = λ j p k h. cc;
    still = λ q h. h;
  },
)
close_sessions-IsGone (id ∷ ids) m safe v =
    let (s, e, g) = close_session-IsGone id m safe v in
    let (t, e', r) = close_sessions-IsGone ids s g.safe g.indexed in
    (t, close_sessions-cons id ids m s t e e', IsGone-cons id ids m s t g r)

abbrev keys {ℓ} : {A : Type ℓ} → List (Text × A) → List Text
keys m = map (λ e. e.0) m

mem-keys {ℓ} :
    {A : Type ℓ} (j : Text) (a : A) (m : List (Text × A))
    → lookup j m ≡ some a
    → mem j (keys m) ≡ true
unfolding lookup
mem-keys j a [] h = cc
mem-keys j a ((k, b) ∷ m) h = ground (arith, mem-keys j a m)

lookup-keys {ℓ} :
    {A : Type ℓ} (j : Text) (m : List (Text × A))
    → mem j (keys m) ≡ true
    → (a : A) × (lookup j m ≡ some a)
unfolding lookup
lookup-keys j [] h = cc
lookup-keys j ((k, b) ∷ m) h = elim (Bool-cases (text_eq k j)) [
  | inl same ↦ (b, ground arith)
  | inr other ↦ (let (a, e) = lookup-keys j m (ground arith) in (a, ground arith))
]

empty_map {ℓ} :
    {A : Type ℓ} (m : List (Text × A)) → ((j : Text) (a : A) → lookup j m ≢ some a) → m ≡ []
unfolding lookup
empty_map [] h = refl
empty_map ((k, a) ∷ m) h = absurd (h k a (ground (arith, text_eq_refl k)))

first_known :
    (l j : Text) (p : ℕ) (ss : List (Text × ℕ)) (m : Manager)
    → IsIndexed m
    → lookup l m.by_project ≡ some ((j, p) ∷ ss)
    → lookup j m.sessions ≡ some p
unfolding project_sessions lookup
first_known l j p ss m v h =
    v.known l j p (rw (project_sessions, h) (ground (arith, text_eq_refl j)))

no_entry :
    (l : Text) (ss : List (Text × ℕ)) (m : Manager)
    → IsIndexed m
    → m.sessions ≡ []
    → lookup l m.by_project ≢ some ss
unfolding lookup
no_entry l [] m v none_left h = v.no_empty l h
no_entry l ((j, p) ∷ ss) m v none_left h = absurd (
    let e = first_known l j p ss m v h in
    let e' : lookup j [] ≡ some p = subst (λ x. lookup j x ≡ some p) none_left e in cc)

-- An index of no sessions is empty.
no_index : (m : Manager) → IsIndexed m → m.sessions ≡ [] → m.by_project ≡ []
no_index m v h = empty_map m.by_project (λ l ss. no_entry l ss m v h)

pub IsGone-all : (m t : Manager) → IsGone (keys m.sessions) m t → t.sessions ≡ []
IsGone-all m t g = empty_map t.sessions (λ j p h. elim (Option-cases (lookup j m.sessions)) [
  | inl missing ↦ ground (arith, g.gone j)
  | inr (q, hit) ↦ ground (arith, g.gone j, mem-keys j q m.sessions hit)
])

-- In any manager that the calls reach, CloseAll ends, and leaves the registry and its index by project
-- empty.
pub close_all_sessions-nil :
    (b : ℕ) (m : Manager)
    → Reached b m
    → (t : Manager) × (close_all_sessions m ≡ ok t) × (t.sessions ≡ []) × (t.by_project ≡ [])
unfolding close_all_sessions
close_all_sessions-nil b m r =
    let (t, e, g) =
      close_sessions-IsGone (keys m.sessions) m (Reached-SafeManager b m r)
        (Reached-IsIndexed b m r) in
    let nothing : t.sessions ≡ [] = IsGone-all m t g in
    (t, e, nothing, no_index t g.indexed nothing)

-- Whether a session's id is among its project's.
mem-project_sessions :
    (k id : Text) (p : ℕ) (m : Manager)
    → IsIndexed m
    → lookup id m.sessions ≡ some p
    → mem id (keys (project_sessions k m.by_project)) ≡ text_eq (m.objects p).project_id k
mem-project_sessions k id p m v h = iff-eq _ _ (
  (λ e.
      (let (q, hit) = lookup-keys id (project_sessions k m.by_project) e in
        let also = v.known k id q hit in
        let same : q ≡ p = cc in
        (text_eq_iff (m.objects p).project_id k).1
          (subst (λ x. (m.objects x).project_id ≡ k) same (v.owned k id q hit)))),
  (λ e. mem-keys id p (project_sessions k m.by_project) (
      subst (λ x. lookup id (project_sessions x m.by_project) ≡ some p)
        (text_eq→eq (m.objects p).project_id k e) (v.listed id p h))),
)

-- In any manager that the calls reach, CloseProjectSessions ends. A session that was registered is
-- afterwards done and not registered if it is the project's, and is registered as before if it is not.
pub close_project_sessions-lookup :
    (b : ℕ) (m : Manager) (k id : Text) (p : ℕ)
    → Reached b m
    → lookup id m.sessions ≡ some p
    → (t : Manager) × (close_project_sessions k m ≡ ok t)
      × (lookup id t.sessions ≡ (if text_eq (m.objects p).project_id k then none else some p))
      × ((if text_eq (m.objects p).project_id k then (t.objects p).done else true) ≡ true)
unfolding close_project_sessions
close_project_sessions-lookup b m k id p r h =
    let v = Reached-IsIndexed b m r in
    let (t, e, g) =
      close_sessions-IsGone (keys (project_sessions k m.by_project)) m (Reached-SafeManager b m r)
        v in
    let is_member = mem-project_sessions k id p m v h in
    (t, e, ground (arith, g.gone id, is_member), ground (arith, is_member, g.stopped id p))
