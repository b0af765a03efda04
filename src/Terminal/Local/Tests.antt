-- ===== src/Terminal/Local/Tests.antt =====
-- Runs of the local manager, and the property at them.
use appx.Base.{◌≡◌, refl, Bool, true, false, Option, none, some, [], ◌∷◌, inl, inr}
use appx.Base.Effects.{ok, ◌>>=◌}
use appx.Base.Maps.{lookup, insert}
use appx.Text.{Text, codes, text_eq}
use appx.Terminal.Local.{
  LocalManager, LocalSession, new_local_manager, register, subscribe_local, create_command,
  create_local, login_shell, split_colon, User, finish_pump, pump_local, close_local, replay_local,
  done_local, err_no_executable,
}

passwd_line : split_colon (codes "me:x:1\n") ≡ codes "me" ∷ codes "x" ∷ codes "1" ∷ []
unfolding split_colon appx.Text.split appx.Text.trim_right appx.Text.text_eq
passwd_line = refl

from_passwd :
    login_shell
      (λ key. [])
      (some (record { username = codes "me"; home_dir = codes "/h" }))
      (λ name. some (codes "me:x:1:1::/h:/bin/zsh"))
    ≡ (codes "/bin/zsh", codes "/h")
unfolding login_shell split_colon appx.Text.split appx.Text.trim_right
from_passwd = refl

nothing_to_run :
    create_command
      (λ spec. some 3)
      []
      (codes "a")
      1
      (record { name = []; args = []; dir = []; env = none })
      (new_local_manager 4)
    ≡ (inl err_no_executable, new_local_manager 4)
unfolding create_command
nothing_to_run = refl

abbrev watched : LocalManager
watched = (subscribe_local (codes "a") (register (codes "a") 3 1 (new_local_manager 4)).1).1

abbrev ends : LocalManager → Bool × Bool
ends m = ((m.objects 0).done, (m.chans 0).closed)

-- Close ends the session at once; the subscribers stay until the pump has seen the end.
closed_early : (close_local (codes "a") watched >>= λ m. ok (ends m)) ≡ ok (true, false)
unfolding close_local lookup subscribe_local register insert text_eq appx.Terminal.Local.end_local
closed_early = refl

pumped :
    (pump_local 0 ((104 ∷ 105 ∷ [], false) ∷ ([], true) ∷ []) watched >>= λ m. ok (ends m))
    ≡ ok (true, true)
unfolding pump_local appx.Terminal.Local.output_local appx.Terminal.Fanout.broadcast subscribe_local
    lookup register insert text_eq appx.Terminal.Fanout.subscribed appx.Terminal.Fanout.has_room
    appx.Terminal.Fanout.unsubscribed finish_pump appx.Terminal.Fanout.close_all
    appx.Terminal.Fanout.close appx.Terminal.Local.end_local
pumped = refl
