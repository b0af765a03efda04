-- ===== src/Terminal/Sessions/Calls.antt =====
-- The calls of internal/terminal/manager.go on one session, with no other call between their critical
-- sections.
use appx.Base.{
  ℕ, zero, suc, ◌≤◌, ◌≡◌, refl, sym, ◌∙◌, ◌⊎◌, inl, inr, some, Option-cases, subst, List, [], ◌∷◌,
  Any, length, arith,
}
use appx.Base.Maps.{lookup, lookup-insert, insert}
use appx.Text.{Text}
use appx.Text.Equality.{text_eq_refl}
use appx.Terminal.Sessions.{
  Manager, Execer, some_entry, existing_session, register, create_session, project_sessions,
  shell_options, err_exec_create, err_exec_attach,
}

-- The sessions of a project, as the index has them.
abbrev pub Sessions : Type 0
Sessions = List (Text × ℕ)

-- A session is one of these.
abbrev pub IsAmong : ℕ → Sessions → Type 0
IsAmong p ss = Any (λ e. e.1 ≡ p) ss

some_entry-IsAmong : (choice p : ℕ) (ss : Sessions) → some_entry choice ss ≡ some p → IsAmong p ss
unfolding some_entry
some_entry-IsAmong choice p [] h = cc
some_entry-IsAmong zero p ((id, q) ∷ rest) h = inl cc
some_entry-IsAmong (suc choice) p ((id, q) ∷ []) h = inl cc
some_entry-IsAmong (suc choice) p ((id, q) ∷ e ∷ rest) h =
    inr (some_entry-IsAmong choice p (e ∷ rest) h)

some_entry-full :
    (choice p : ℕ) (ss : Sessions) → IsAmong p ss → (q : ℕ) × (some_entry choice ss ≡ some q)
unfolding some_entry
some_entry-full choice p [] h = absurd h
some_entry-full zero p ((id, q) ∷ rest) h = (q, refl)
some_entry-full (suc choice) p ((id, q) ∷ []) h = (q, refl)
some_entry-full (suc choice) p ((id, q) ∷ (j, r) ∷ rest) h =
    some_entry-full choice r ((j, r) ∷ rest) (inl refl)

-- Two sessions of a project are the same unless it has several.
same_or_several :
    (p q : ℕ) (ss : Sessions) → IsAmong p ss → IsAmong q ss → (q ≡ p) ⊎ (2 ≤ length ss)
same_or_several p q [] h k = absurd h
same_or_several p q (e ∷ []) (inl h) (inl k) = inl (sym k ∙ h)
same_or_several p q (e ∷ []) (inr h) k = absurd h
same_or_several p q (e ∷ []) (inl h) (inr k) = absurd k
same_or_several p q (e ∷ f ∷ rest) h k = inr (omega arith)

register-IsAmong :
    (id k exec_id : Text) (conn now : ℕ) (m : Manager)
    → IsAmong m.next_object (project_sessions k (register id k exec_id conn now m).1.by_project)
unfolding register project_sessions insert
register-IsAmong id k exec_id conn now m =
    (let e : lookup k (register id k exec_id conn now m).1.by_project
          ≡ some (insert id m.next_object (project_sessions k m.by_project)) =
        lookup-insert k k _ m.by_project ∙ rw (text_eq_refl k) refl in
      rw (project_sessions, e) (inl refl))

create_session_again :
    (docker : Execer) (choice : ℕ) (id : Text) (now : ℕ) (k container : Text) (p : ℕ) (m : Manager)
    → existing_session choice k m ≡ some p
    → create_session docker choice id now k container m ≡ (inr p, m)
unfolding create_session
create_session_again docker choice id now k container p m h = rw (create_session, h) refl

-- A session that CreateSession gives is the project's.
create_session-IsAmong :
    (docker : Execer) (choice : ℕ) (id : Text) (now : ℕ) (k container : Text) (p : ℕ)
    (m m' : Manager)
    → create_session docker choice id now k container m ≡ (inr p, m')
    → IsAmong p (project_sessions k m'.by_project)
unfolding create_session
create_session-IsAmong docker choice id now k container p m m' h =
    elim (Option-cases (existing_session choice k m)) [
      | inr (q, old) ↦
          (let e = create_session_again docker choice id now k container q m old in
            let same : m ≡ m' = cc in
            let also : q ≡ p = cc in
            subst (λ x. IsAmong p (project_sessions k x.by_project)) same
              (subst (λ x. IsAmong x (project_sessions k m.by_project)) also
                (some_entry-IsAmong choice q _ (unfold existing_session in old))))
      | inl fresh ↦ elim (Option-cases (docker.exec_create container shell_options)) [
        | inl refused ↦
            (let e : create_session docker choice id now k container m ≡ (inl err_exec_create, m) =
                rw (create_session, fresh, refused) refl in
              absurd cc)
        | inr (exec_id, made) ↦ elim (Option-cases (docker.exec_attach exec_id)) [
          | inl refused ↦
              (let e : create_session docker choice id now k container m
                    ≡ (inl err_exec_attach, m) =
                  rw (create_session, fresh, made, refused) refl in
                absurd cc)
          | inr (conn, attached) ↦
              (let e : create_session docker choice id now k container m
                    ≡ (inr m.next_object, (register id k exec_id conn now m).1) =
                  rw (create_session, fresh, made, attached) (unfold register in refl) in
                let same : (register id k exec_id conn now m).1 ≡ m' = cc in
                let also : m.next_object ≡ p = cc in
                subst (λ x. IsAmong p (project_sessions k x.by_project)) same
                  (subst
                    (λ x.
                      IsAmong x
                        (project_sessions k (register id k exec_id conn now m).1.by_project))
                    also (register-IsAmong id k exec_id conn now m)))
        ]
      ]
    ]

-- With no other call between, a second CreateSession for the same project starts nothing and changes
-- nothing, whatever the container runtime would answer. Whichever entry of the map it finds, it gives a
-- session of the project, which is the first call's unless the project has at least two sessions.
pub create_session-create_session :
    (docker docker' : Execer) (choice choice' : ℕ) (id id' : Text) (now now' : ℕ)
    (k container container' : Text) (p : ℕ) (m m' : Manager)
    → create_session docker choice id now k container m ≡ (inr p, m')
    → (q : ℕ) × (create_session docker' choice' id' now' k container' m' ≡ (inr q, m'))
      × IsAmong q (project_sessions k m'.by_project)
      × ((q ≡ p) ⊎ (2 ≤ length (project_sessions k m'.by_project)))
create_session-create_session docker docker' choice choice' id id' now now' k container container' p
      m m' h =
    let among = create_session-IsAmong docker choice id now k container p m m' h in
    let (q, e) = some_entry-full choice' p _ among in
    let chosen = some_entry-IsAmong choice' q _ e in
    (
      q,
      create_session_again docker' choice' id' now' k container' q m'
          (unfold existing_session in e),
      chosen,
      same_or_several p q _ among chosen,
    )
