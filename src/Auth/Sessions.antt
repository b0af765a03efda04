-- ===== src/Auth/Sessions.antt =====
-- The sessions of internal/auth/store.go, and the middleware of auth.go. Times are nanoseconds. Each
-- database call takes whether it succeeds; SHA-256 is a parameter.
pub mod Laws
pub mod Deadlines
pub mod Window
mod Tests
use appx.Base.{
  ℕ, ◌+◌, ◌*◌, ◌/◌, ◌%◌, Bool, true, false, not, ◌||◌, Option, none, some, List, [], ◌∷◌, ltb,
  if◌then◌else◌,
}
use appx.Text.{Text, text_eq}

-- A row of the table; its first column is the primary key.
pub record Session : Type 0 where
  pub token_hash : Text
  pub expires_at : ℕ

abbrev pub session_duration : ℕ
session_duration = 30 * 24 * 3600 * 1000000000

-- hex.EncodeToString
abbrev pub hex_digit : ℕ → ℕ
hex_digit n = if ltb n 10 then 48 + n else 87 + n

unfoldable pub hex_encode : List ℕ → Text
hex_encode [] = []
hex_encode (b ∷ bs) = hex_digit (b / 16) ∷ hex_digit (b % 16) ∷ hex_encode bs

unfoldable pub find_session : Text → List Session → Option Session
unfolding text_eq
find_session h [] = none
find_session h (s ∷ ss) = if text_eq s.token_hash h then some s else find_session h ss

-- UPDATE sessions SET expires_at = ? WHERE token = ?
pub set_expiry : Text → ℕ → List Session → List Session
set_expiry h t [] = []
set_expiry h t (s ∷ ss) =
    let rest = set_expiry h t ss in
    if text_eq s.token_hash h then record s { expires_at = t } ∷ rest else s ∷ rest

-- DELETE FROM sessions WHERE token = ?
pub remove_session : Text → List Session → List Session
remove_session h [] = []
remove_session h (s ∷ ss) =
    let rest = remove_session h ss in if text_eq s.token_hash h then rest else s ∷ rest

-- DELETE FROM sessions WHERE expires_at < ?
pub remove_expired : ℕ → List Session → List Session
remove_expired now [] = []
remove_expired now (s ∷ ss) =
    let rest = remove_expired now ss in if ltb s.expires_at now then rest else s ∷ rest

unfoldable pub delete_all_sessions : Bool → List Session → List Session
delete_all_sessions db_ok ss = if db_ok then [] else ss

pub clean_expired_sessions : Bool → ℕ → List Session → List Session
clean_expired_sessions db_ok now ss = if db_ok then remove_expired now ss else ss

module _ (sha256 : Text → List ℕ) where
  unfoldable pub hash_token : Text → Text
  hash_token token = hex_encode (sha256 token)

  -- `random` holds the bytes of crypto/rand, if it has any. The primary key refuses a known hash.
  unfoldable pub create_session :
      Bool → Option (List ℕ) → ℕ → List Session → Option Text × List Session
  create_session db_ok random now ss = elim random [
    | none ↦ (none, ss)
    | some bytes ↦ elim (find_session (hash_token (hex_encode bytes)) ss) [
      | some taken ↦ (none, ss)
      | none ↦
          if db_ok
          then (
            some (hex_encode bytes),
            (record {
              token_hash = hash_token (hex_encode bytes);
              expires_at = now + session_duration;
            })
                ∷ ss,
          )
          else (none, ss)
    ]
  ]

  -- The clock is read twice: for the test, and for the new expiry. A failed update is ignored.
  unfoldable pub valid_session : Bool → Bool → Text → ℕ → ℕ → List Session → Bool × List Session
  valid_session read_ok update_ok token now later ss =
      if read_ok
      then elim (find_session (hash_token token) ss) [
        | none ↦ (false, ss)
        | some s ↦
            if not (ltb now s.expires_at)
            then (false, ss)
            else if update_ok
            then (true, set_expiry (hash_token token) (later + session_duration) ss)
            else (true, ss)
      ]
      else (false, ss)

  pub delete_session : Bool → Text → List Session → List Session
  delete_session db_ok token ss = if db_ok then remove_session (hash_token token) ss else ss

  -- Whether the request reaches the next handler; `none` is a request without the cookie.
  pub middleware : Bool → Bool → Option Text → ℕ → ℕ → List Session → Bool × List Session
  middleware read_ok update_ok none now later ss = (false, ss)
  middleware read_ok update_ok (some token) now later ss =
      valid_session read_ok update_ok token now later ss
