-- ===== src/Terminal/Socket/Tests.antt =====
-- Frames and paths, and the properties at them.
use appx.Base.{
  ℕ, ◌≡◌, ◌<◌, ◌≤◌, ◌-◌, refl, true, false, Option, none, some, List, [], ◌∷◌, ◌++◌, length,
}
use appx.Text.{Text, codes}
use appx.Text.Int.{pos, negsuc}
use appx.Terminal.Sessions.{new_manager}
use appx.Terminal.Socket.{
  resizes, resize_to, ignore, dispatch_frame, session_id_of, check_origin, connect,
  session_not_found, bad_path,
}
use appx.Terminal.Socket.Limits.{dispatch_frame-bounds}

from_path : session_id_of (codes "/ws/term/a1/") ≡ some (codes "a1")
unfolding session_id_of appx.Text.after_last appx.Text.trim_suffix
from_path = refl

no_slash : connect true (codes "a1") (new_manager 4) ≡ (bad_path, new_manager 4)
unfolding connect session_id_of appx.Text.after_last appx.Text.trim_suffix
no_slash = refl

unknown_id : connect true (codes "/ws/a1") (new_manager 4) ≡ (session_not_found, new_manager 4)
unfolding connect session_id_of appx.Text.after_last appx.Text.trim_suffix
    appx.Terminal.Sessions.get_session appx.Base.Maps.lookup
unknown_id = refl

no_origin : check_origin (λ o. some o) [] (codes "h") ≡ false
unfolding check_origin appx.Text.text_eq
no_origin = refl

negative : dispatch_frame (resizes (negsuc 3) (pos 2)) ≡ ignore
unfolding dispatch_frame
negative = refl

wide : dispatch_frame (resizes (pos 900) (pos 40)) ≡ resize_to 500 40
unfolding dispatch_frame
wide = refl

dispatch_frame-bounds_example : ((0 < 500) × (500 ≤ 500)) × ((0 < 40) × (40 ≤ 500))
dispatch_frame-bounds_example = dispatch_frame-bounds (resizes (pos 900) (pos 40)) 500 40 wide

abbrev two_bytes : List ℕ
two_bytes = 7 ∷ 8 ∷ []
