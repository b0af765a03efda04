-- ===== src/Terminal/Sessions/Index.antt =====
-- The registry and its index by project name the same sessions.
use appx.Base.{
  ℕ, ◌<◌, ◌≡◌, ◌≢◌, refl, sym, ap, ◌∙◌, inl, inr, true, false, Option, none, some, ◌⊎◌, List, [],
  ◌∷◌, arith, Bool-cases, if◌then◌else◌, subst,
}
use appx.Base.Maps.{lookup, insert, delete, lookup-insert, lookup-delete, lookup-same}
use appx.Text.{Text, text_eq}
use appx.Text.Equality.{text_eq→eq, text_eq_iff, text_eq_refl}
use appx.Terminal.Fanout.{update}
use appx.Terminal.Sessions.{
  Session, Manager, project_sessions, register, without, without_from, new_manager, is_empty,
}

pub record IsIndexed (m : Manager) : Type 0 where
  pub listed :
      (id : Text) (p : ℕ)
      → lookup id m.sessions ≡ some p
      → lookup id (project_sessions (m.objects p).project_id m.by_project) ≡ some p
  pub known :
      (project_id id : Text) (p : ℕ)
      → lookup id (project_sessions project_id m.by_project) ≡ some p
      → lookup id m.sessions ≡ some p
  pub owned :
      (project_id id : Text) (p : ℕ)
      → lookup id (project_sessions project_id m.by_project) ≡ some p
      → (m.objects p).project_id ≡ project_id
  pub handed : (id : Text) (p : ℕ) → lookup id m.sessions ≡ some p → p < m.next_object
  pub named : (id : Text) (p : ℕ) → lookup id m.sessions ≡ some p → (m.objects p).id ≡ id
  pub no_empty : (project_id : Text) → lookup project_id m.by_project ≢ some []

project_sessions-insert :
    (k j : Text) (ss : List (Text × ℕ)) (m : List (Text × List (Text × ℕ)))
    → project_sessions j (insert k ss m) ≡ (if text_eq k j then ss else project_sessions j m)
unfolding project_sessions
project_sessions-insert k j ss m = ground (arith, lookup-insert k j ss m)

is_empty-nil {ℓ} : {A : Type ℓ} (xs : List A) → is_empty xs ≡ true → xs ≡ []
is_empty-nil [] h = refl
is_empty-nil (x ∷ xs) h = cc

-- What a project keeps when a session leaves it.
abbrev left_over : Text → Option (List (Text × ℕ)) → Option (List (Text × ℕ))
left_over id none = none
left_over id (some ss) = if is_empty (delete id ss) then none else some (delete id ss)

abbrev sessions_in : Option (List (Text × ℕ)) → List (Text × ℕ)
sessions_in none = []
sessions_in (some ss) = ss

lookup-without_from :
    (id k j : Text) (o : Option (List (Text × ℕ))) (m : List (Text × List (Text × ℕ)))
    → lookup k m ≡ o
    → lookup j (without_from id k m o) ≡ (if text_eq k j then left_over id o else lookup j m)
lookup-without_from id k j none m h = ground (arith, lookup-same k j none m h)
lookup-without_from id k j (some ss) m h =
    ground (arith, lookup-delete k j m, lookup-insert k j (delete id ss) m)

sessions_in-left_over :
    (id : Text) (o : Option (List (Text × ℕ)))
    → sessions_in (left_over id o) ≡ delete id (sessions_in o)
sessions_in-left_over id none = unfold delete in refl
sessions_in-left_over id (some ss) = ground (arith, is_empty-nil (delete id ss))

left_over-nonempty : (id : Text) (o : Option (List (Text × ℕ))) → left_over id o ≢ some []
left_over-nonempty id none e = cc
left_over-nonempty id (some ss) e = ground arith

lookup-without :
    (id k j : Text) (m : List (Text × List (Text × ℕ)))
    → lookup j (without id k m) ≡ (if text_eq k j then left_over id (lookup k m) else lookup j m)
unfolding without
lookup-without id k j m = lookup-without_from id k j (lookup k m) m refl

project_sessions-lookup :
    (j : Text) (m : List (Text × List (Text × ℕ))) → project_sessions j m ≡ sessions_in (lookup j m)
unfolding project_sessions
project_sessions-lookup j m =
    elim (lookup j m) as (λ o. (elim o [ none ↦ [] | some ss ↦ ss ]) ≡ sessions_in o) [
      | none ↦ refl
      | some ss ↦ refl
    ]

project_sessions-without :
    (id k j : Text) (m : List (Text × List (Text × ℕ)))
    → project_sessions j (without id k m)
      ≡ (if text_eq k j then delete id (project_sessions k m) else project_sessions j m)
project_sessions-without id k j m = ground (
  arith,
  project_sessions-lookup j (without id k m),
  project_sessions-lookup k m,
  project_sessions-lookup j m,
  lookup-without id k j m,
  sessions_in-left_over id (lookup k m),
)

pub new_manager-IsIndexed : (buf_size : ℕ) → IsIndexed (new_manager buf_size)
unfolding lookup project_sessions
new_manager-IsIndexed buf_size = record {
  listed = λ id p h. cc;
  known = λ k id p h. cc;
  owned = λ k id p h. cc;
  handed = λ id p h. cc;
  named = λ id p h. cc;
  no_empty = λ k h. cc;
}

-- A session whose id is new enters both maps.
module _ (id k exec_id : Text) (conn now : ℕ) (m : Manager) (v : IsIndexed m)
    (fresh : lookup id m.sessions ≡ none) where
  abbrev old : List (Text × ℕ)
  old = project_sessions k m.by_project

  in_project :
      (l j : Text)
      → lookup j (project_sessions l (insert k (insert id m.next_object old) m.by_project)) ≡ (
          if text_eq k l
          then (if text_eq id j then some m.next_object else lookup j old)
          else lookup j (project_sessions l m.by_project))
  in_project l j = ground (
    arith,
    project_sessions-insert k l (insert id m.next_object old) m.by_project,
    lookup-insert id j m.next_object old,
  )

  new_in_project :
      (l j : Text)
      → text_eq k l ≡ true
      → text_eq id j ≡ true
      → lookup j (project_sessions l (insert k (insert id m.next_object old) m.by_project))
        ≡ some m.next_object
  new_in_project l j same_project same_id = ground (arith, in_project l j)

  old_differs : (j : Text) (p : ℕ) → lookup j m.sessions ≡ some p → text_eq id j ≡ false
  old_differs j p h = elim (Bool-cases (text_eq id j)) [
    | inl same ↦ absurd (
        let e : lookup j m.sessions ≡ none =
          subst (λ x. lookup x m.sessions ≡ none) (text_eq→eq id j same) fresh in
        cc)
    | inr differs ↦ differs
  ]

  -- What the registry and the index hold is the new session, or one that they held.
  in_sessions :
      (j : Text) (p : ℕ)
      → lookup j (insert id m.next_object m.sessions) ≡ some p
      → ((id ≡ j) × (p ≡ m.next_object)) ⊎ ((text_eq id j ≡ false) × (lookup j m.sessions ≡ some p))
  in_sessions j p h = elim (Bool-cases (text_eq id j)) [
    | inl same ↦
        inl (text_eq→eq id j same, ground (arith, lookup-insert id j m.next_object m.sessions))
    | inr differs ↦ inr (differs, ground (arith, lookup-insert id j m.next_object m.sessions))
  ]

  in_projects :
      (l j : Text) (p : ℕ)
      → lookup j (project_sessions l (insert k (insert id m.next_object old) m.by_project)) ≡ some p
      → ((k ≡ l) × (id ≡ j) × (p ≡ m.next_object))
        ⊎ (lookup j (project_sessions l m.by_project) ≡ some p)
  in_projects l j p h = elim (Bool-cases (text_eq k l)) [
    | inl same ↦ elim (Bool-cases (text_eq id j)) [
      | inl also ↦
          inl (text_eq→eq k l same, text_eq→eq id j also, ground (arith, new_in_project l j))
      | inr differs ↦ inr (
          subst (λ x. lookup j (project_sessions x m.by_project) ≡ some p) (text_eq→eq k l same)
            (ground (arith, in_project l j)))
    ]
    | inr differs ↦ inr (ground (arith, in_project l j))
  ]

  old_object :
      (p : ℕ) (s : Session) → p < m.next_object → update m.objects m.next_object s p ≡ m.objects p
  old_object p s h = ground arith

  new_object : (p : ℕ) (s : Session) → p ≡ m.next_object → update m.objects m.next_object s p ≡ s
  new_object p s e = ground arith

  kept_in_project :
      (l j : Text) (p : ℕ)
      → text_eq id j ≡ false
      → lookup j (project_sessions l m.by_project) ≡ some p
      → lookup j (project_sessions l (insert k (insert id m.next_object old) m.by_project)) ≡ some p
  kept_in_project l j p differs before = elim (Bool-cases (text_eq k l)) [
    | inl same ↦
        (let e : lookup j old ≡ some p =
            subst (λ x. lookup j (project_sessions x m.by_project) ≡ some p)
              (sym (text_eq→eq k l same)) before in
          ground (arith, in_project l j))
    | inr other ↦ ground (arith, in_project l j)
  ]

  abbrev index_after : List (Text × List (Text × ℕ))
  index_after = insert k (insert id m.next_object old) m.by_project

  no_empty_after : (l : Text) → lookup l index_after ≢ some []
  unfolding insert
  no_empty_after l h =
      ground (arith, lookup-insert k l (insert id m.next_object old) m.by_project, v.no_empty l)

  pub register-IsIndexed : IsIndexed (register id k exec_id conn now m).1
  unfolding register
  register-IsIndexed = record {
    listed = λ j p h. elim (in_sessions j p h) [
      | inl (same, new) ↦
          subst (λ l. lookup j (project_sessions l index_after) ≡ some p)
            (sym (ap (λ s. s.project_id) (new_object p _ new)))
            (new_in_project k j (text_eq_refl k) ((text_eq_iff id j).1 same) ∙ ap some (sym new))
      | inr (differs, before) ↦
          subst (λ l. lookup j (project_sessions l index_after) ≡ some p)
            (sym (ap (λ s. s.project_id) (old_object p _ (v.handed j p before))))
            (kept_in_project (m.objects p).project_id j p differs (v.listed j p before))
    ];
    known = λ l j p h. elim (in_projects l j p h) [
      | inl (same, also, new) ↦
          ground (arith, lookup-insert id j m.next_object m.sessions, (text_eq_iff id j).1 also)
      | inr before ↦ ground (
        arith,
        lookup-insert id j m.next_object m.sessions,
        old_differs j p,
        v.known l j p before,
      )
    ];
    owned = λ l j p h. elim (in_projects l j p h) [
      | inl (same, also, new) ↦ ap (λ s. s.project_id) (new_object p _ new) ∙ same
      | inr before ↦
          ap (λ s. s.project_id) (old_object p _ (v.handed j p (v.known l j p before)))
          ∙ v.owned l j p before
    ];
    handed = λ j p h. ground (arith, lookup-insert id j m.next_object m.sessions, v.handed j p);
    named = λ j p h. elim (in_sessions j p h) [
      | inl (same, new) ↦ ap (λ s. s.id) (new_object p _ new) ∙ same
      | inr (differs, before) ↦
          ap (λ s. s.id) (old_object p _ (v.handed j p before)) ∙ v.named j p before
    ];
    no_empty = λ l h. no_empty_after l h;
  }

-- A session that is closed leaves both maps.
module _ (id : Text) (gone : ℕ) (m : Manager) (v : IsIndexed m)
    (hit : lookup id m.sessions ≡ some gone) where
  abbrev project_of : Text
  project_of = (m.objects gone).project_id

  abbrev index_left : List (Text × List (Text × ℕ))
  index_left = without id project_of m.by_project

  other_project :
      (l j : Text) (p : ℕ)
      → text_eq project_of l ≡ false
      → lookup j (project_sessions l m.by_project) ≡ some p
      → text_eq id j ≡ false
  other_project l j p other h = elim (Bool-cases (text_eq id j)) [
    | inr differs ↦ differs
    | inl same ↦
        (let e : lookup id m.sessions ≡ some p =
            subst (λ x. lookup x m.sessions ≡ some p) (sym (text_eq→eq id j same))
              (v.known l j p h) in
          let same_object : gone ≡ p = cc in
          let same_project : project_of ≡ l =
            ap (λ x. (m.objects x).project_id) same_object ∙ v.owned l j p h in
          absurd (let t = (text_eq_iff project_of l).1 same_project in cc))
  ]

  -- The session stands in the index under its own project only.
  left_in_project :
      (l j : Text) (p : ℕ)
      → lookup j (project_sessions l index_left) ≡ some p
      → (text_eq id j ≡ false) × (lookup j (project_sessions l m.by_project) ≡ some p)
  left_in_project l j p h = elim (Bool-cases (text_eq project_of l)) [
    | inr other ↦
        (let before : lookup j (project_sessions l m.by_project) ≡ some p =
            ground (arith, project_sessions-without id project_of l m.by_project) in
          (other_project l j p other before, before))
    | inl same ↦
        (let e : (text_eq id j ≡ false)
              × (lookup j (project_sessions project_of m.by_project) ≡ some p) =
            ground (
              arith,
              project_sessions-without id project_of l m.by_project,
              lookup-delete id j (project_sessions project_of m.by_project),
            ) in
          (
            e.0,
            subst (λ x. lookup j (project_sessions x m.by_project) ≡ some p)
                (text_eq→eq project_of l same) e.1,
          ))
  ]

  stays_in_project :
      (l j : Text) (p : ℕ)
      → text_eq id j ≡ false
      → lookup j (project_sessions l m.by_project) ≡ some p
      → lookup j (project_sessions l index_left) ≡ some p
  stays_in_project l j p differs h = elim (Bool-cases (text_eq project_of l)) [
    | inl same ↦
        (let e : lookup j (project_sessions project_of m.by_project) ≡ some p =
            subst (λ x. lookup j (project_sessions x m.by_project) ≡ some p)
              (sym (text_eq→eq project_of l same)) h in
          ground (
            arith,
            project_sessions-without id project_of l m.by_project,
            lookup-delete id j (project_sessions project_of m.by_project),
          ))
    | inr other ↦ ground (arith, project_sessions-without id project_of l m.by_project)
  ]

  stays_in_sessions :
      (j : Text) (p : ℕ)
      → lookup j (delete id m.sessions) ≡ some p
      → (text_eq id j ≡ false) × (lookup j m.sessions ≡ some p)
  stays_in_sessions j p h = ground (arith, lookup-delete id j m.sessions)

  pub unlinked-IsIndexed :
      IsIndexed (record m { sessions = delete id m.sessions; by_project = index_left })
  unlinked-IsIndexed = record {
    listed = λ j p h.
        (let (differs, before) = stays_in_sessions j p h in
          stays_in_project (m.objects p).project_id j p differs (v.listed j p before));
    known = λ l j p h.
        (let (differs, before) = left_in_project l j p h in
          ground (arith, lookup-delete id j m.sessions, v.known l j p before));
    owned = λ l j p h. v.owned l j p (left_in_project l j p h).1;
    handed = λ j p h. v.handed j p (stays_in_sessions j p h).1;
    named = λ j p h. v.named j p (stays_in_sessions j p h).1;
    no_empty = λ l h. ground (
      arith,
      lookup-without id project_of l m.by_project,
      left_over-nonempty id (lookup project_of m.by_project),
      v.no_empty l,
    );
  }
