-- ===== src/Project/Manager/Tests.antt =====
-- A project and an agent-server that refuses it.
use appx.Base.{◌≡◌, ◌⊎◌, refl, inl, inr, Bool, true, false, none, some, List, [], ◌∷◌}
use appx.Text.{Text, codes}
use appx.Project.Store.{Project, Row, find_id, new_row, scan_into, remove_id}
use appx.Project.Store.Create.{no_failures}
use appx.Project.Manager.{
  Manager, ManagerError, register_error, delete_project, manager_create, manager_delete,
}
use appx.Project.Manager.Laws.{calls_of, accepts, manager_create_fails, manager_delete_result}

abbrev with_answer : Bool → Manager
with_answer answer = record {
  project_root = [];
  base_domain = codes "localhost";
  http_mode = true;
  external_port = 8080;
  agent = some (λ call. answer);
}

refused :
    (manager_create (with_answer false) no_failures true (codes "1") (codes "shop") 5 []).result
    ≡ inl register_error
unfolding manager_create appx.Project.Store.create appx.Project.Name.validate_name
    appx.Project.Name.name_matches appx.Project.Name.tail_matches appx.Text.has_suffix
    appx.Project.Store.create_tx appx.Project.Ports.next_available_port_pair appx.Project.Ports.scan
    appx.Project.Store.used_ports appx.Project.Store.violates_unique appx.Project.Store.get find_id
    new_row
refused = refl

manager_create_fails_example :
    (manager_create (with_answer false) no_failures true (codes "1") (codes "shop") 5 []).rows ≡ []
manager_create_fails_example =
    manager_create_fails (with_answer false) no_failures (codes "1") (codes "shop") 5 []
      register_error refl refused

abbrev shop : Project
shop = scan_into (new_row (codes "1") (codes "shop") 10000 10001 5)

accepted :
    (manager_create (with_answer true) no_failures true (codes "1") (codes "shop") 5 []).result
    ≡ inr shop
unfolding manager_create appx.Project.Store.create appx.Project.Name.validate_name
    appx.Project.Name.name_matches appx.Project.Name.tail_matches appx.Text.has_suffix
    appx.Project.Store.create_tx appx.Project.Ports.next_available_port_pair appx.Project.Ports.scan
    appx.Project.Store.used_ports appx.Project.Store.violates_unique appx.Project.Store.get find_id
    new_row
accepted = refl

abbrev one_row : List Row
one_row = new_row (codes "1") (codes "shop") 10000 10001 5 ∷ []

manager_delete_result_example :
    ((e : ManagerError) × ((manager_delete (with_answer true) true true (codes "1") one_row).result
        ≡ some e)
      × ((manager_delete (with_answer true) true true (codes "1") one_row).rows ≡ one_row))
    ⊎ (((manager_delete (with_answer true) true true (codes "1") one_row).result ≡ none)
        × (r : Row) × (find_id (codes "1") one_row ≡ some r)
        × ((manager_delete (with_answer true) true true (codes "1") one_row).rows
            ≡ remove_id (codes "1") one_row)
        × (accepts (with_answer true).agent (delete_project r.name) ≡ true)
        × ((manager_delete (with_answer true) true true (codes "1") one_row).calls
            ≡ calls_of (with_answer true).agent (delete_project r.name)))
manager_delete_result_example =
    manager_delete_result (with_answer true) true true (codes "1") one_row
