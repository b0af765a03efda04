-- ===== src/Project/Name/Tests.antt =====
-- Names, good and bad.
use appx.Base.{◌≡◌, refl, none, some}
use appx.Text.{codes, has_suffix}
use appx.Project.Name.{invalid_name, reserved_name_suffix, is_slug_byte, dev_suffix, validate_name}

shop_valid : validate_name (codes "shop") ≡ none
unfolding validate_name appx.Project.Name.name_matches appx.Project.Name.tail_matches has_suffix
shop_valid = refl

shop-dev_reserved : validate_name (codes "shop-dev") ≡ some reserved_name_suffix
unfolding validate_name appx.Project.Name.name_matches appx.Project.Name.tail_matches has_suffix
shop-dev_reserved = refl

dash_invalid : validate_name (codes "shop-") ≡ some invalid_name
unfolding validate_name appx.Project.Name.name_matches appx.Project.Name.tail_matches
dash_invalid = refl
