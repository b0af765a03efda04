-- ===== src/Project/Manager/Laws.antt =====
-- What Create and Delete of the manager leave in the table, whatever the agent-server answers.
use appx.Base.{
  subst, ℕ, ◌≡◌, refl, sym, ◌⊎◌, inl, inr, Bool, true, false, Option, none, some, Option-cases,
  List, [], ◌∷◌, ◌++◌, arith,
}
use appx.Text.{Text}
use appx.Project.Store.{
  Project, Row, StoreError, Result, ok, err, Failures, read_back, scan_into, find_id, new_row, get,
  create, remove_id, delete,
}
use appx.Project.Store.Rows.{find_id-append, remove_id-append}
use appx.Project.Store.Create.{Created, create-Created, create_fails}
use appx.Project.Manager.{
  Manager, AgentRegistrar, AgentCall, ManagerError, deployment_for, ensure_project, delete_project,
  manager_create, drop_row, manager_delete,
}

Result-cases :
    {A : Type 0} (r : Result A) → ((e : StoreError) × (r ≡ err e)) ⊎ ((a : A) × (r ≡ ok a))
Result-cases (ok a) = inr (a, refl)
Result-cases (err e) = inl (e, refl)

delete-added :
    (id : Text) (rows : List Row) (r : Row)
    → find_id id rows ≡ none
    → r.id ≡ id
    → (delete true id (rows ++ r ∷ [])).1 ≡ rows
unfolding delete
delete-added id rows r h e =
    ground (arith, find_id-append id rows r h e, remove_id-append id rows r h e)

delete-Created :
    (id name : Text) (now : ℕ) (rows rows' : List Row) (p : Project)
    → Created id name now rows p rows'
    → (delete true p.id rows').1 ≡ rows
unfolding scan_into new_row
delete-Created id name now rows rows' p c =
    rw (c.added, c.returned) (delete-added id rows (new_row id name c.prod c.dev now) c.new_id refl)

-- The calls made of an agent-server, if there is one, and whether it accepts a call.
abbrev pub calls_of : Option AgentRegistrar → AgentCall → List AgentCall
calls_of none call = []
calls_of (some answers) call = call ∷ []

abbrev pub accepts : Option AgentRegistrar → AgentCall → Bool
accepts none call = true
accepts (some answers) call = answers call

-- Create that fails, because of the store or of the agent-server, leaves the table as it was,
-- provided the read after the commit and the rollback work.
pub manager_create_fails :
    (m : Manager) (fails : Failures) (id name : Text) (now : ℕ) (rows : List Row) (e : ManagerError)
    → fails read_back ≡ false
    → (manager_create m fails true id name now rows).result ≡ inl e
    → (manager_create m fails true id name now rows).rows ≡ rows
manager_create_fails m fails id name now rows e up h =
    elim (Result-cases (create fails id name now rows).0) [
      | inl (e', bad) ↦
          unfold manager_create in
          ground (arith, bad, create_fails fails id name now rows e' up bad)
      | inr (p, good) ↦
          (let back =
              delete-Created id name now rows (create fails id name now rows).1 p
                (create-Created fails id name now rows p good) in
            elim (Option-cases m.agent) [
              | inl alone ↦ unfold manager_create in ground (arith, good, alone)
              | inr (answers, agent) ↦ unfold manager_create in ground (arith, good, agent, back)
            ])
    ]

create-stored :
    (m : Manager) (fails : Failures) (delete_ok : Bool) (id name : Text) (now : ℕ) (rows : List Row)
    (p : Project)
    → (manager_create m fails delete_ok id name now rows).result ≡ inr p
    → ((create fails id name now rows).0 ≡ ok p)
      × ((manager_create m fails delete_ok id name now rows).rows
          ≡ (create fails id name now rows).1)
      × (accepts m.agent (ensure_project p.name (deployment_for m p)) ≡ true)
      × ((manager_create m fails delete_ok id name now rows).calls
          ≡ calls_of m.agent (ensure_project p.name (deployment_for m p)))
create-stored m fails delete_ok id name now rows p h =
    elim (Result-cases (create fails id name now rows).0) [
      | inl (e, bad) ↦ unfold manager_create in ground (arith, bad)
      | inr (q, good) ↦ elim (Option-cases m.agent) [
        | inl alone ↦ unfold manager_create in ground (arith, good, alone)
        | inr (answers, agent) ↦ unfold manager_create in ground (arith, good, agent)
      ]
    ]

-- Create that returns a project has added its row, and the agent-server, if there is one, has
-- accepted exactly one call: that project with its two ports and URLs.
pub manager_create_succeeds :
    (m : Manager) (fails : Failures) (delete_ok : Bool) (id name : Text) (now : ℕ) (rows : List Row)
    (p : Project)
    → (manager_create m fails delete_ok id name now rows).result ≡ inr p
    → Created id name now rows p (manager_create m fails delete_ok id name now rows).rows
      × (accepts m.agent (ensure_project p.name (deployment_for m p)) ≡ true)
      × ((manager_create m fails delete_ok id name now rows).calls
          ≡ calls_of m.agent (ensure_project p.name (deployment_for m p)))
manager_create_succeeds m fails delete_ok id name now rows p h =
    let (stored, same, accepted, told) = create-stored m fails delete_ok id name now rows p h in
    (
      subst (Created id name now rows p) (sym same)
          (create-Created fails id name now rows p stored),
      accepted,
      told,
    )

delete-found :
    (m : Manager) (get_ok delete_ok : Bool) (id : Text) (rows : List Row)
    → (manager_delete m get_ok delete_ok id rows).result ≡ none
    → (r : Row) × (find_id id rows ≡ some r)
      × ((manager_delete m get_ok delete_ok id rows).rows ≡ remove_id id rows)
      × (accepts m.agent (delete_project r.name) ≡ true)
      × ((manager_delete m get_ok delete_ok id rows).calls
          ≡ calls_of m.agent (delete_project r.name))
delete-found m get_ok delete_ok id rows h = elim (Option-cases (find_id id rows)) [
  | inl gone ↦ unfold manager_delete get in ground (arith, gone)
  | inr (r, found) ↦ elim (Option-cases m.agent) [
    | inl alone ↦ (
      r,
      found,
      unfold manager_delete get drop_row delete scan_into in ground (arith, found, alone),
      unfold manager_delete get drop_row delete scan_into in ground (arith, found, alone),
      unfold manager_delete get drop_row delete scan_into in ground (arith, found, alone),
    )
    | inr (answers, agent) ↦ (
      r,
      found,
      unfold manager_delete get drop_row delete scan_into in ground (arith, found, agent),
      unfold manager_delete get drop_row delete scan_into in ground (arith, found, agent),
      unfold manager_delete get drop_row delete scan_into in ground (arith, found, agent),
    )
  ]
]

delete-unchanged :
    (m : Manager) (get_ok delete_ok : Bool) (id : Text) (rows : List Row) (e : ManagerError)
    → (manager_delete m get_ok delete_ok id rows).result ≡ some e
    → (manager_delete m get_ok delete_ok id rows).rows ≡ rows
delete-unchanged m get_ok delete_ok id rows e h = elim (Option-cases (find_id id rows)) [
  | inl gone ↦ unfold manager_delete get in ground (arith, gone)
  | inr (r, found) ↦ elim (Option-cases m.agent) [
    | inl alone ↦
        unfold manager_delete get drop_row delete scan_into in ground (arith, found, alone)
    | inr (answers, agent) ↦
        unfold manager_delete get drop_row delete scan_into in ground (arith, found, agent)
  ]
]

-- Delete that returns an error changes no row; Delete that returns none has found the project,
-- removed exactly the rows of its id, and made the agent-server, if there is one, delete it.
pub manager_delete_result :
    (m : Manager) (get_ok delete_ok : Bool) (id : Text) (rows : List Row)
    → ((e : ManagerError) × ((manager_delete m get_ok delete_ok id rows).result ≡ some e)
        × ((manager_delete m get_ok delete_ok id rows).rows ≡ rows))
      ⊎ (((manager_delete m get_ok delete_ok id rows).result ≡ none)
          × (r : Row) × (find_id id rows ≡ some r)
          × ((manager_delete m get_ok delete_ok id rows).rows ≡ remove_id id rows)
          × (accepts m.agent (delete_project r.name) ≡ true)
          × ((manager_delete m get_ok delete_ok id rows).calls
              ≡ calls_of m.agent (delete_project r.name)))
manager_delete_result m get_ok delete_ok id rows =
    elim (Option-cases (manager_delete m get_ok delete_ok id rows).result) [
      | inl fine ↦
          (let (r, found, gone, accepted, told) = delete-found m get_ok delete_ok id rows fine in
            inr (fine, r, found, gone, accepted, told))
      | inr (e, bad) ↦ inl (e, bad, delete-unchanged m get_ok delete_ok id rows e bad)
    ]
