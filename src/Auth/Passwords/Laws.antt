-- ===== src/Auth/Passwords/Laws.antt =====
-- What is set is what is read, and nothing else changes.
use appx.Base.{
  ℕ, ◌≤◌, ◌≡◌, refl, Bool, true, Option, some, [], ◌∷◌, arith, ltb, if◌then◌else◌, length,
  Option-cases, Bool-cases, inl, inr,
}
use appx.Text.{Text, text_eq}
use appx.Text.Equality.{text_eq_iff, text_eq_refl}
use appx.Auth.Passwords.{
  Settings, Store, min_password_len, password_key, find_setting, upsert, get_setting, set_setting,
  set_password, check_password,
}

pub find-upsert :
    (key value k : Text) (rows : Settings)
    → find_setting k (upsert key value rows)
      ≡ (if text_eq key k then some value else find_setting k rows)
unfolding find_setting upsert
find-upsert key value k [] = refl
find-upsert key value k ((key', v) ∷ rows) = ground (
  arith,
  find-upsert key value k rows,
  text_eq_iff key' key,
  text_eq_iff key' k,
  text_eq_iff key k,
)

-- A setting that was written is read back, and every other setting reads as before.
pub get_setting-set_setting :
    (key value k : Text) (s : Store)
    → get_setting true k (set_setting true key value s).1
      ≡ (if text_eq key k then some value else get_setting true k s)
unfolding get_setting set_setting
get_setting-set_setting key value k s = ground (arith, find-upsert key value k s.settings)

module _ (generate : ℕ → Text → Text → Option Text) (compare_hash : Text → Text → Bool) where
  -- A password that SetPassword accepts has the least length, and is afterwards the one that
  -- CheckPassword compares with, under the bcrypt hash; sessions and other settings stay.
  pub set_password-check_password :
      (db_ok : Bool) (salt password : Text) (s : Store)
      → (set_password generate compare_hash db_ok salt password s).0 ≡ true
      → (min_password_len ≤ length password)
        × ((hash : Text) × (generate s.bcrypt_cost salt password ≡ some hash)
            × ((set_password generate compare_hash db_ok salt password s).1
                ≡ record s { settings = upsert password_key hash s.settings })
            × ((attempt : Text)
                → check_password generate compare_hash true attempt
                    (set_password generate compare_hash db_ok salt password s).1
                  ≡ some (compare_hash hash attempt)))
  set_password-check_password db_ok salt password s h =
      elim (Bool-cases (ltb (length password) min_password_len)) [
        | inl short ↦ unfold set_password in ground (arith, short)
        | inr long ↦ elim (Option-cases (generate s.bcrypt_cost salt password)) [
          | inl refused ↦ unfold set_password in ground (arith, long, refused)
          | inr (hash, made) ↦ (
            ground (arith, long),
            (
              hash,
              made,
              unfold set_password set_setting in ground (arith, long, made),
              λ attempt.
                  unfold set_password set_setting check_password in
                  ground (
                    arith,
                    long,
                    made,
                    find-upsert password_key hash password_key s.settings,
                    text_eq_refl password_key,
                  ),
            ),
          )
        ]
      ]
