-- ===== src/Auth/Passwords.antt =====
-- The settings table and the password in it, of internal/auth/store.go. bcrypt is a parameter, with
-- its random salt as an argument; each database call takes whether it succeeds.
pub mod Laws
mod Tests
use appx.Base.{
  ℕ, Bool, true, false, not, Option, none, some, List, [], ◌∷◌, ltb, if◌then◌else◌, length,
}
use appx.Text.{Text, codes, text_eq}
use appx.Auth.Sessions.{Session}

-- A table of keys and values, whose first column is the primary key.
abbrev pub Settings : Type 0
Settings = List (Text × Text)

pub record Store : Type 0 where
  pub settings : Settings
  pub sessions : List Session
  pub bcrypt_cost : ℕ

abbrev pub bcrypt_cost_default : ℕ
bcrypt_cost_default = 12

abbrev pub min_password_len : ℕ
min_password_len = 12

abbrev pub password_key : Text
password_key = codes "password_hash"

pub new_store : Settings → List Session → Store
new_store settings sessions = record {
  settings = settings;
  sessions = sessions;
  bcrypt_cost = bcrypt_cost_default;
}

pub set_bcrypt_cost : ℕ → Store → Store
set_bcrypt_cost cost s = record s { bcrypt_cost = cost }

unfoldable pub find_setting : Text → Settings → Option Text
unfolding text_eq
find_setting key [] = none
find_setting key ((k, v) ∷ rows) = if text_eq k key then some v else find_setting key rows

-- INSERT ... ON CONFLICT(key) DO UPDATE SET value = ?
unfoldable pub upsert : Text → Text → Settings → Settings
unfolding text_eq
upsert key value [] = (key, value) ∷ []
upsert key value ((k, v) ∷ rows) =
    let rest = upsert key value rows in if text_eq k key then (k, value) ∷ rows else (k, v) ∷ rest

remove_setting : Text → Settings → Settings
remove_setting key [] = []
remove_setting key ((k, v) ∷ rows) =
    let rest = remove_setting key rows in if text_eq k key then rest else (k, v) ∷ rest

-- `none` is a failed query; a missing key is the empty text.
unfoldable pub get_setting : Bool → Text → Store → Option Text
get_setting db_ok key s =
    if db_ok then elim (find_setting key s.settings) [ none ↦ some [] | some v ↦ some v ] else none

-- Each writing call gives whether it returned no error.
unfoldable pub set_setting : Bool → Text → Text → Store → Bool × Store
set_setting db_ok key value s =
    if db_ok then (true, record s { settings = upsert key value s.settings }) else (false, s)

pub delete_setting : Bool → Text → Store → Bool × Store
delete_setting db_ok key s =
    if db_ok then (true, record s { settings = remove_setting key s.settings }) else (false, s)

-- `none` is a failed query.
pub is_password_set : Bool → Store → Option Bool
is_password_set db_ok s =
    if db_ok
    then elim (find_setting password_key s.settings) [ none ↦ some false | some v ↦ some true ]
    else none

module _ (generate : ℕ → Text → Text → Option Text) (compare_hash : Text → Text → Bool) where
  unfoldable pub set_password : Bool → Text → Text → Store → Bool × Store
  set_password db_ok salt password s =
      if ltb (length password) min_password_len
      then (false, s)
      else elim (generate s.bcrypt_cost salt password) [
        | none ↦ (false, s)
        | some hash ↦ set_setting db_ok password_key hash s
      ]

  -- `none` is an error: a failed query, or no password.
  unfoldable pub check_password : Bool → Text → Store → Option Bool
  check_password db_ok password s =
      if db_ok
      then elim (find_setting password_key s.settings) [
        | none ↦ none
        | some hash ↦ some (compare_hash hash password)
      ]
      else none
