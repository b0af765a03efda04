-- ===== src/Project/Handlers/Tests.antt =====
-- Names that are refused.
use appx.Base.{◌≡◌, refl, true, none, some, []}
use appx.Text.{Text, codes}
use appx.Project.Name.{validate_name, reserved_name_suffix}
use appx.Project.Store.Create.{no_failures}
use appx.Project.Manager.{Manager}
use appx.Project.Handlers.{handle_create_project}

abbrev alone : Manager
alone = record {
  project_root = [];
  base_domain = codes "localhost";
  http_mode = true;
  external_port = 8080;
  agent = none;
}

reserved : validate_name (codes "shop-dev") ≡ some reserved_name_suffix
unfolding validate_name appx.Project.Name.name_matches appx.Project.Name.tail_matches
    appx.Text.has_suffix
reserved = refl

answered :
    handle_create_project alone no_failures true (some (codes "shop-dev")) (codes "1") 5 []
    ≡ (500, [])
unfolding handle_create_project appx.Project.Handlers.created_status
    appx.Project.Manager.manager_create appx.Project.Store.create validate_name
    appx.Project.Name.name_matches appx.Project.Name.tail_matches appx.Text.has_suffix
    appx.Project.Handlers.create_status
answered = refl
