-- ===== src/Server/Router/Tests.antt =====
-- The URLs of one project.
use appx.Base.{◌≡◌, refl, true, false, none, some, [], ◌∷◌}
use appx.Text.{Text, codes, has_byte, text_eq}
use appx.Text.HostPort.{IsPlain}
use appx.Project.Name.{validate_name}
use appx.Project.Store.{Row, find_name, new_row, scan_into}
use appx.Project.Manager.{Manager, deployment_for}
use appx.Server.Router.{dispatch, is_alias, strip_port}
use appx.Server.Router.Dispatch.{IsUrl, port_route, dispatch_dev}

abbrev shop : Row
shop = new_row (codes "1") (codes "shop") 10000 10001 5

abbrev local : Manager
local = record {
  project_root = [];
  base_domain = codes "localhost";
  http_mode = true;
  external_port = 8080;
  agent = none;
}

base_given : text_eq local.base_domain [] ≡ false
unfolding text_eq
base_given = refl

base-IsPlain : IsPlain local.base_domain
base-IsPlain = unfold has_byte in record { no_colon = refl; no_open = refl; no_close = refl }

prod_url :
    IsUrl local (deployment_for local (scan_into shop)).prod.url (codes "shop.localhost:8080")
unfolding appx.Project.Manager.scheme deployment_for appx.Project.Manager.app_url
    appx.Project.Manager.default_port text_eq scan_into new_row appx.Text.itoa
prod_url = refl

dev_url :
    IsUrl local (deployment_for local (scan_into shop)).dev.url (codes "shop-dev.localhost:8080")
unfolding appx.Project.Manager.scheme deployment_for appx.Project.Manager.app_url
    appx.Project.Manager.default_port text_eq scan_into new_row appx.Text.itoa
dev_url = refl

no_prod_alias : is_alias [] (strip_port (codes "shop.localhost:8080")) ≡ false
unfolding is_alias
no_prod_alias = refl

no_dev_alias : is_alias [] (strip_port (codes "shop-dev.localhost:8080")) ≡ false
unfolding is_alias
no_dev_alias = refl

shop_name_valid : validate_name shop.name ≡ none
unfolding validate_name new_row appx.Project.Name.name_matches appx.Project.Name.tail_matches
    appx.Text.has_suffix
shop_name_valid = refl

shop_name_found : find_name shop.name (shop ∷ []) ≡ some shop
unfolding find_name text_eq new_row
shop_name_found = refl

dispatch_dev_example :
    dispatch (codes "localhost") [] true (shop ∷ []) (codes "shop-dev.localhost:8080")
    ≡ port_route (scan_into shop).dev_port
dispatch_dev_example =
    dispatch_dev local [] (shop ∷ []) shop (codes "shop-dev.localhost:8080") base_given base-IsPlain
      shop_name_valid shop_name_found no_dev_alias dev_url
