-- ===== src/Auth/Passwords/Tests.antt =====
-- Settings and a password under a toy hash.
use appx.Base.{ℕ, ◌≡◌, refl, Bool, true, Option, some, []}
use appx.Text.{Text, codes, text_eq}
use appx.Auth.Passwords.{Store, new_store, set_setting, set_password}

abbrev pub toy_generate : ℕ → Text → Text → Option Text
toy_generate cost salt password = some password

abbrev pub toy_compare : Text → Text → Bool
toy_compare = text_eq

abbrev pub long_password : Text
long_password = codes "correct horse"

abbrev pub empty_store : Store
empty_store = new_store [] []

pub long_accepted :
    (set_password toy_generate toy_compare true [] long_password empty_store).0 ≡ true
unfolding set_password set_setting
long_accepted = refl
