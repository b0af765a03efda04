-- ===== src/Project/Store/Tests.antt =====
-- One project in an empty table.
use appx.Base.{◌≡◌, refl, arith, none, some, []}
use appx.Text.{Text, codes}
use appx.Project.Name.{validate_name}
use appx.Project.Ports.{next_available_port_pair}
use appx.Project.Store.{
  Project, Row, StoreError, err_invalid_name, Result, ok, err, Failures, read_back, scan_into,
  used_ports, find_id, find_name, new_row, create,
}
use appx.Project.Store.Ports.{PortsDistinct, create-PortsDistinct}
use appx.Project.Store.Create.{no_failures, Created, create-Created}

abbrev shop_row : Row
shop_row = new_row (codes "1") (codes "shop") 10000 10001 5

shop_valid : validate_name (codes "shop") ≡ none
unfolding validate_name appx.Project.Name.name_matches appx.Project.Name.tail_matches
    appx.Text.has_suffix
shop_valid = refl

no_id : find_id (codes "1") [] ≡ none
unfolding find_id
no_id = refl

no_name : find_name (codes "shop") [] ≡ none
unfolding find_name
no_name = refl

lowest_pair : next_available_port_pair (used_ports []) ≡ some (10000, 10001)
unfolding next_available_port_pair appx.Project.Ports.scan used_ports
lowest_pair = refl

created_project : (create no_failures (codes "1") (codes "shop") 5 []).0 ≡ ok (scan_into shop_row)
unfolding create validate_name appx.Project.Name.name_matches appx.Project.Name.tail_matches
    appx.Text.has_suffix appx.Project.Store.create_tx next_available_port_pair
    appx.Project.Ports.scan used_ports appx.Project.Store.violates_unique appx.Project.Store.get
    find_id new_row
created_project = refl

create-Created_example :
    Created
      (codes "1")
      (codes "shop")
      5
      []
      (scan_into shop_row)
      (create no_failures (codes "1") (codes "shop") 5 []).1
create-Created_example =
    create-Created no_failures (codes "1") (codes "shop") 5 [] (scan_into shop_row) created_project

bad_name : (create no_failures (codes "1") (codes "shop-") 5 []).0 ≡ err err_invalid_name
unfolding create validate_name appx.Project.Name.name_matches appx.Project.Name.tail_matches
bad_name = refl

none_held : PortsDistinct []
none_held = λ q. omega arith

create-PortsDistinct_example : PortsDistinct (create no_failures (codes "1") (codes "shop") 5 []).1
create-PortsDistinct_example =
    create-PortsDistinct no_failures (codes "1") (codes "shop") 5 [] none_held
