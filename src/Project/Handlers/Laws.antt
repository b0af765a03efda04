-- ===== src/Project/Handlers/Laws.antt =====
-- What the status of a reply says about the table.
use appx.Base.{ℕ, ◌≡◌, ◌≢◌, refl, ◌⊎◌, inl, inr, Bool, true, false, Option, none, some, List, arith}
use appx.Text.{Text}
use appx.Project.Name.{validate_name, reserved_name_suffix}
use appx.Project.Store.{Project, Row, Failures, read_back, create, err, err_reserved_name_suffix}
use appx.Project.Manager.{Manager, ManagerError, manager_create}
use appx.Project.Manager.Laws.{manager_create_fails}
use appx.Project.Handlers.{create_status, created_status, handle_create_project}

-- A request to create a project that is not answered with 201 leaves the table as it was, provided
-- the read after the commit and the rollback work.
pub handle_create_project_fails :
    (m : Manager) (fails : Failures) (body : Option Text) (id : Text) (now : ℕ) (rows : List Row)
    → fails read_back ≡ false
    → (handle_create_project m fails true body id now rows).0 ≢ 201
    → (handle_create_project m fails true body id now rows).1 ≡ rows
handle_create_project_fails m fails none id now rows up h = unfold handle_create_project in refl
handle_create_project_fails m fails (some name) id now rows up h =
    elim (result-cases (manager_create m fails true id name now rows).result) [
      | inl (e, bad) ↦
          unfold handle_create_project in manager_create_fails m fails id name now rows e up bad
      | inr (p, good) ↦ absurd (h (unfold handle_create_project created_status in rw good refl))
    ]
  where
    result-cases :
        (r : ManagerError ⊎ Project)
        → ((e : ManagerError) × (r ≡ inl e)) ⊎ ((p : Project) × (r ≡ inr p))
    result-cases (inl e) = inl (e, refl)
    result-cases (inr p) = inr (p, refl)

-- A name with the reserved suffix is answered with 500, and changes nothing.
pub handle_create_project_reserved :
    (m : Manager) (fails : Failures) (delete_ok : Bool) (name id : Text) (now : ℕ) (rows : List Row)
    → validate_name name ≡ some reserved_name_suffix
    → handle_create_project m fails delete_ok (some name) id now rows ≡ (500, rows)
handle_create_project_reserved m fails delete_ok name id now rows v =
    let refused : create fails id name now rows ≡ (err err_reserved_name_suffix, rows) =
      unfold create in ground (arith, v) in
    unfold handle_create_project manager_create created_status create_status in
    ground (arith, refused)
