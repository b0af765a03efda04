-- ===== src/Auth/Handlers/Laws.antt =====
-- What a login, a logout and a change of password grant and take away.
use appx.Base.{
  ◌⊎◌, subst, sym, ap, ℕ, ◌+◌, ◌≤◌, ◌≡◌, ◌≢◌, refl, ◌∙◌, Bool, true, false, Option, none, some,
  List, [], ◌∷◌, arith, ltb, length, Option-cases, Bool-cases, inl, inr,
}
use appx.Text.{Text}
use appx.Text.Equality.{text_eq_iff, text_eq_refl}
use appx.Auth.Sessions.{
  Session, session_duration, find_session, hash_token, create_session, valid_session,
  delete_all_sessions,
}
use appx.Auth.Passwords.{Store, min_password_len, check_password, set_password}
use appx.Auth.Passwords.Laws.{set_password-check_password}
use appx.Auth.Handlers.{
  set_to, unchanged, Works, start_session, handle_login, replace_password, handle_change_password,
}

module _ (sha256 : Text → List ℕ) (generate : ℕ → Text → Text → Option Text)
    (compare_hash : Text → Text → Bool) where
  -- A token given out: its session is the new first row, and it is accepted for 30 days exactly.
  pub record Granted (token : Text) (now : ℕ) (before after : List Session) : Type 0 where
    pub added :
        after
        ≡ (record { token_hash = hash_token sha256 token; expires_at = now + session_duration })
          ∷ before
    pub accepted :
        (t : ℕ)
        → (valid_session sha256 true true token t t after).0 ≡ ltb t (now + session_duration)

  new_row-Granted :
      (token : Text) (now : ℕ) (ss : List Session)
      → Granted token now ss (
          (record { token_hash = hash_token sha256 token; expires_at = now + session_duration })
          ∷ ss)
  new_row-Granted token now ss = record {
    added = refl;
    accepted = λ t.
        unfold valid_session find_session in ground (arith, text_eq_refl (hash_token sha256 token));
  }

  created :
      (db_ok : Bool) (random : Option (List ℕ)) (now : ℕ) (ss : List Session) (token : Text)
      → (create_session sha256 db_ok random now ss).0 ≡ some token
      → (create_session sha256 db_ok random now ss).1
        ≡ (record { token_hash = hash_token sha256 token; expires_at = now + session_duration })
          ∷ ss
  unfolding create_session
  created db_ok none now ss token h = cc
  created db_ok (some bytes) now ss token h = ground arith

  create_session-Granted :
      (db_ok : Bool) (random : Option (List ℕ)) (now : ℕ) (ss : List Session) (token : Text)
      → (create_session sha256 db_ok random now ss).0 ≡ some token
      → Granted token now ss (create_session sha256 db_ok random now ss).1
  create_session-Granted db_ok random now ss token h =
      subst (Granted token now ss) (sym (created db_ok random now ss token h))
        (new_row-Granted token now ss)

  start_session-created :
      (w : Works) (random : Option (List ℕ)) (now : ℕ) (s : Store) (token : Text)
      → (start_session sha256 generate compare_hash w random now s).cookie ≡ set_to token
      → ((create_session sha256 w.insert_session random now s.sessions).0 ≡ some token)
        × ((start_session sha256 generate compare_hash w random now s).store.sessions
            ≡ (create_session sha256 w.insert_session random now s.sessions).1)
  unfolding start_session
  start_session-created w random now s token h = ground arith

  start_session-Granted :
      (w : Works) (random : Option (List ℕ)) (now : ℕ) (s : Store) (token : Text)
      → (start_session sha256 generate compare_hash w random now s).cookie ≡ set_to token
      → Granted token now s.sessions
          (start_session sha256 generate compare_hash w random now s).store.sessions
  start_session-Granted w random now s token h =
      let (made, same) = start_session-created w random now s token h in
      subst (Granted token now s.sessions) (sym same)
        (create_session-Granted w.insert_session random now s.sessions token made)

  start_session-cases :
      (w : Works) (random : Option (List ℕ)) (now : ℕ) (s : Store)
      → (((start_session sha256 generate compare_hash w random now s).cookie ≡ unchanged)
          × ((start_session sha256 generate compare_hash w random now s).store ≡ s))
        ⊎ ((token : Text) × ((start_session sha256 generate compare_hash w random now s).cookie
              ≡ set_to token))
  unfolding start_session
  start_session-cases w random now s =
      elim (Option-cases (create_session sha256 w.insert_session random now s.sessions).0) [
        | inl refused ↦ inl (ground (arith, refused), ground (arith, refused))
        | inr (t, made) ↦ inr (t, ground (arith, made))
      ]

  -- A login either changes nothing and sets no cookie, or it was given the password that bcrypt
  -- accepts, and grants a token that is good for 30 days.
  pub handle_login_result :
      (w : Works) (body : Option Text) (random : Option (List ℕ)) (now : ℕ) (s : Store)
      → (((handle_login sha256 generate compare_hash w body random now s).cookie ≡ unchanged)
          × ((handle_login sha256 generate compare_hash w body random now s).store ≡ s))
        ⊎ ((password token : Text) × (body ≡ some password)
            × (check_password generate compare_hash w.read_hash password s ≡ some true)
            × ((handle_login sha256 generate compare_hash w body random now s).cookie
                ≡ set_to token)
            × Granted token now s.sessions
                (handle_login sha256 generate compare_hash w body random now s).store.sessions)
  handle_login_result w none random now s = unfold handle_login in inl (refl, refl)
  handle_login_result w (some password) random now s =
      elim (Option-cases (check_password generate compare_hash w.read_hash password s)) [
        | inl failed ↦ inl (
          unfold handle_login in ground (arith, failed),
          unfold handle_login in ground (arith, failed),
        )
        | inr (false, wrong) ↦ inl (
          unfold handle_login in ground (arith, wrong),
          unfold handle_login in ground (arith, wrong),
        )
        | inr (true, right) ↦
            (let same : handle_login sha256 generate compare_hash w (some password) random now s
                  ≡ start_session sha256 generate compare_hash w random now s =
                unfold handle_login in ground (arith, right) in
              elim (start_session-cases w random now s) [
                | inl (cookie, store) ↦
                    inl (ap (λ r. r.cookie) same ∙ cookie, ap (λ r. r.store) same ∙ store)
                | inr (token, cookie) ↦ inr (
                  password,
                  token,
                  refl,
                  right,
                  ap (λ r. r.cookie) same ∙ cookie,
                  subst (λ r. Granted token now s.sessions r.store.sessions) (sym same)
                      (start_session-Granted w random now s token cookie),
                )
              ])
      ]

  replaced :
      (w : Works) (current new salt : Text) (random : Option (List ℕ)) (now : ℕ) (s : Store)
      (token : Text)
      → (handle_change_password sha256 generate compare_hash w
          (some (current, new))
          salt
          random
          now
          s).cookie
        ≡ set_to token
      → (check_password generate compare_hash w.read_hash current s ≡ some true)
        × ((set_password generate compare_hash w.write_hash salt new s).0 ≡ true)
        × (handle_change_password sha256 generate compare_hash w
              (some (current, new))
              salt
              random
              now
              s
            ≡ (let s' = (set_password generate compare_hash w.write_hash salt new s).1 in
                start_session sha256 generate compare_hash w random now
                  (record s' { sessions = delete_all_sessions w.delete_all s'.sessions })))
  unfolding handle_change_password replace_password
  replaced w current new salt random now s token h =
      elim (Option-cases (check_password generate compare_hash w.read_hash current s)) [
        | inl failed ↦ ground (arith, failed)
        | inr (false, wrong) ↦ ground (arith, wrong)
        | inr (true, right) ↦
            elim (Bool-cases (set_password generate compare_hash w.write_hash salt new s).0) [
              | inl accepted ↦ (right, accepted, ground (arith, right, accepted))
              | inr refused ↦ ground (arith, right, refused)
            ]
      ]

  emptied :
      (w : Works) (token : Text) (now : ℕ) (before after : List Session)
      → w.delete_all ≡ true
      → Granted token now (delete_all_sessions w.delete_all before) after
      → Granted token now [] after
  emptied w token now before after works g =
      let none_left : delete_all_sessions w.delete_all before ≡ [] =
        unfold delete_all_sessions in rw works refl in
      subst (λ ss. Granted token now ss after) none_left g

  -- A change of password that gives out a token was given the current password, the new one is long
  -- enough, and the new token's session, good for 30 days, is the only one, if the sessions could be
  -- deleted.
  pub change_password_restarts :
      (w : Works) (current new salt : Text) (random : Option (List ℕ)) (now : ℕ) (s : Store)
      (token : Text)
      → w.delete_all ≡ true
      → (handle_change_password sha256 generate compare_hash w
          (some (current, new))
          salt
          random
          now
          s).cookie
        ≡ set_to token
      → (check_password generate compare_hash w.read_hash current s ≡ some true)
        × (min_password_len ≤ length new)
        × Granted token now []
            (handle_change_password sha256 generate compare_hash w
              (some (current, new))
              salt
              random
              now
              s).store.sessions
  change_password_restarts w current new salt random now s token works h =
      let (right, accepted, same) = replaced w current new salt random now s token h in
      (
        right,
        (set_password-check_password generate compare_hash w.write_hash salt new s accepted).0,
        emptied w token now (set_password generate compare_hash w.write_hash salt new s).1.sessions
            _ works
            (subst
              (λ r.
                Granted token now
                  (delete_all_sessions w.delete_all
                    (set_password generate compare_hash w.write_hash salt new s).1.sessions)
                  r.store.sessions)
              (sym same)
              (start_session-Granted w random now _ token (ap (λ r. r.cookie) (sym same) ∙ h))),
      )

  lone-refused :
      (token other : Text) (now t later : ℕ) (update_ok : Bool) (after : List Session)
      → Granted token now [] after
      → hash_token sha256 other ≢ hash_token sha256 token
      → (valid_session sha256 true update_ok other t later after).0 ≡ false
  lone-refused token other now t later update_ok after g d = rw g.added (
      unfold valid_session find_session in
      ground (arith, text_eq_iff (hash_token sha256 token) (hash_token sha256 other)))

  -- After a change of password that gives out a token, with sessions that could be deleted, every
  -- token of another hash is refused, at any time.
  pub change_password_revokes :
      (w : Works) (current new salt : Text) (random : Option (List ℕ)) (now : ℕ) (s : Store)
      (token other : Text) (t later : ℕ) (update_ok : Bool)
      → w.delete_all ≡ true
      → (handle_change_password sha256 generate compare_hash w
          (some (current, new))
          salt
          random
          now
          s).cookie
        ≡ set_to token
      → hash_token sha256 other ≢ hash_token sha256 token
      → (valid_session sha256 true update_ok other t later
          (handle_change_password sha256 generate compare_hash w
            (some (current, new))
            salt
            random
            now
            s).store.sessions).0
        ≡ false
  change_password_revokes w current new salt random now s token other t later update_ok works h d =
      lone-refused token other now t later update_ok _
        (change_password_restarts w current new salt random now s token works h).2 d
