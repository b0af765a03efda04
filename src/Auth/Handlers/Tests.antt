-- ===== src/Auth/Handlers/Tests.antt =====
-- A login and a change of password under a toy hash.
use appx.Base.{
  ℕ, ◌≡◌, ◌≢◌, ◌⊎◌, refl, Bool, true, false, Option, some, List, [], ◌∷◌, length, ap, arith,
}
use appx.Text.{Text, codes, text_eq}
use appx.Auth.Sessions.{hash_token, hex_encode, valid_session}
use appx.Auth.Passwords.{Store, min_password_len, set_password, check_password}
use appx.Auth.Handlers.{Works, set_to, unchanged, handle_login, handle_change_password}
use appx.Auth.Handlers.Laws.{Granted, handle_login_result, change_password_revokes}

abbrev toy_digest : Text → List ℕ
toy_digest token = token

abbrev toy_generate : ℕ → Text → Text → Option Text
toy_generate cost salt password = some password

abbrev toy_compare : Text → Text → Bool
toy_compare = text_eq

abbrev old_password : Text
old_password = codes "correct horse"

abbrev new_password : Text
new_password = codes "battery staple"

abbrev all_work : Works
all_work = record { read_hash = true; write_hash = true; delete_all = true; insert_session = true }

abbrev known : Store
known = record {
  settings = (codes "password_hash", old_password) ∷ [];
  sessions = [];
  bcrypt_cost = 12;
}

handle_login_result_example :
    (((handle_login toy_digest toy_generate toy_compare all_work
          (some old_password)
          (some (7 ∷ []))
          1
          known).cookie
        ≡ unchanged)
      × ((handle_login toy_digest toy_generate toy_compare all_work
            (some old_password)
            (some (7 ∷ []))
            1
            known).store
          ≡ known))
    ⊎ ((password token : Text) × (some old_password ≡ some password)
        × (check_password toy_generate toy_compare true password known ≡ some true)
        × ((handle_login toy_digest toy_generate toy_compare all_work
              (some old_password)
              (some (7 ∷ []))
              1
              known).cookie
            ≡ set_to token)
        × Granted toy_digest toy_generate toy_compare token 1 known.sessions
            (handle_login toy_digest toy_generate toy_compare all_work
              (some old_password)
              (some (7 ∷ []))
              1
              known).store.sessions)
handle_login_result_example =
    handle_login_result toy_digest toy_generate toy_compare all_work (some old_password)
      (some (7 ∷ [])) 1 known

changed :
    (handle_change_password toy_digest toy_generate toy_compare all_work
      (some (old_password, new_password))
      []
      (some (7 ∷ []))
      1
      known).cookie
    ≡ set_to (hex_encode (7 ∷ []))
unfolding handle_change_password check_password appx.Auth.Passwords.find_setting
    appx.Auth.Handlers.replace_password set_password appx.Auth.Passwords.set_setting
    appx.Auth.Handlers.start_session appx.Auth.Sessions.create_session
    appx.Auth.Sessions.find_session appx.Auth.Sessions.delete_all_sessions
changed = refl

other_hash : hash_token toy_digest (codes "x") ≢ hash_token toy_digest (hex_encode (7 ∷ []))
unfolding hash_token hex_encode
other_hash = λ e. omega (arith, ap length e)

change_password_revokes_example :
    (valid_session toy_digest true true
      (codes "x")
      2
      2
      (handle_change_password toy_digest toy_generate toy_compare all_work
        (some (old_password, new_password))
        []
        (some (7 ∷ []))
        1
        known).store.sessions).0
    ≡ false
change_password_revokes_example =
    change_password_revokes toy_digest toy_generate toy_compare all_work old_password new_password
      [] (some (7 ∷ [])) 1 known (hex_encode (7 ∷ [])) (codes "x") 2 2 true refl changed other_hash
