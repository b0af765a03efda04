-- ===== src/Auth/Sessions/Window.antt =====
-- The sessions against a plain account of them: each hash has a deadline, 30 days after its last use.
use appx.Base.{
  ℕ, ◌+◌, ◌≤◌, ◌≡◌, refl, sym, ◌∙◌, ap₂, Bool, true, false, Option, none, some, Option-cases, List,
  [], ◌∷◌, arith, ltb, if◌then◌else◌, Bool-cases, inl, inr,
}
use appx.Text.{Text}
use appx.Auth.Sessions.{
  Session, session_duration, hex_encode, find_session, set_expiry, hash_token, create_session,
  valid_session, delete_session, delete_all_sessions, clean_expired_sessions,
}
use appx.Auth.Sessions.Laws.{deadline}
use appx.Auth.Sessions.Deadlines.{
  Deadlines, put, Related, later-Agree, ahead, Agree-ahead, fresh-absent, Agree-put, logout-Related,
  clean-Related, request-state,
}

-- What happens to the table: logins with their random bytes, requests with the two readings of the
-- clock, logouts, and the periodic cleanup, with a working database.
pub data Event : Type 0 where
  login : List ℕ → ℕ → Event
  request : Text → ℕ → ℕ → Event
  logout : Text → Event
  logout_all : Event
  clean : ℕ → Event

module _ (sha256 : Text → List ℕ) where
  abbrev pub hash_of : List ℕ → Text
  hash_of bytes = hash_token sha256 (hex_encode bytes)

  abbrev pub is_some : Option Text → Bool
  is_some none = false
  is_some (some t) = true

  pub step : Event → List Session → Bool × List Session
  step (login bytes now) ss =
      let (token, ss') = create_session sha256 true (some bytes) now ss in (is_some token, ss')
  step (request token now later) ss = valid_session sha256 true true token now later ss
  step (logout token) ss = (true, delete_session sha256 true token ss)
  step logout_all ss = (true, delete_all_sessions true ss)
  step (clean now) ss = (true, clean_expired_sessions true now ss)

  pub run : List Event → List Session → List Bool
  run [] ss = []
  run (e ∷ es) ss = (step e ss).0 ∷ run es (step e ss).1

  -- The account: a request is accepted before the deadline, and moves it; a cleanup does nothing.
  pub account : Event → Deadlines → Bool × Deadlines
  account (login bytes now) d = (true, put (hash_of bytes) (some (now + session_duration)) d)
  account (request token now later) d = elim (d (hash_token sha256 token)) [
    | none ↦ (false, d)
    | some end ↦
        if ltb now end
        then (true, put (hash_token sha256 token) (some (later + session_duration)) d)
        else (false, d)
  ]
  account (logout token) d = (true, put (hash_token sha256 token) none d)
  account logout_all d = (true, λ k. none)
  account (clean now) d = (true, d)

  pub run_account : List Event → Deadlines → List Bool
  run_account [] d = []
  run_account (e ∷ es) d = (account e d).0 ∷ run_account es (account e d).1

  abbrev pub clock_after : Event → ℕ → ℕ
  clock_after (login bytes now) clock = now
  clock_after (request token now later) clock = later
  clock_after (logout token) clock = clock
  clock_after logout_all clock = clock
  clock_after (clean now) clock = now

  -- The clock does not go back, and a login draws a token whose hash was never used.
  abbrev pub Proper : Event → ℕ → Deadlines → Type 0
  Proper (login bytes now) clock d = (clock ≤ now) × (d (hash_of bytes) ≡ none)
  Proper (request token now later) clock d = (clock ≤ now) × (now ≤ later)
  Proper (logout token) clock d = Unit
  Proper logout_all clock d = Unit
  Proper (clean now) clock d = clock ≤ now

  abbrev pub AllProper : List Event → ℕ → Deadlines → Type 0
  AllProper [] clock d = Unit
  AllProper (e ∷ es) clock d = Proper e clock d × AllProper es (clock_after e clock) (account e d).1

  step-request :
      (token : Text) (now later : ℕ) (ss : List Session)
      → ((step (request token now later) ss).0 ≡ ahead now (deadline (hash_token sha256 token) ss))
        × ((step (request token now later) ss).1 ≡ (
            if ahead now (deadline (hash_token sha256 token) ss)
            then set_expiry (hash_token sha256 token) (later + session_duration) ss
            else ss))
  step-request token now later ss =
      elim (Option-cases (find_session (hash_token sha256 token) ss)) [
        | inl f ↦ unfold step valid_session in ground (arith, f)
        | inr (s, f) ↦ unfold step valid_session in ground (arith, f)
      ]

  account-request :
      (token : Text) (now later : ℕ) (d : Deadlines)
      → ((account (request token now later) d).0 ≡ ahead now (d (hash_token sha256 token)))
        × ((account (request token now later) d).1 ≡ (
            if ahead now (d (hash_token sha256 token))
            then put (hash_token sha256 token) (some (later + session_duration)) d
            else d))
  account-request token now later d = elim (Option-cases (d (hash_token sha256 token))) [
    | inl f ↦ unfold account in rw (account, f) (refl, refl)
    | inr (s, f) ↦ elim (Bool-cases (ltb now s)) [
      | inl live ↦ unfold account in rw (account, f, live) (refl, refl)
      | inr past ↦ unfold account in rw (account, f, past) (refl, refl)
    ]
  ]

  step-login :
      (bytes : List ℕ) (now : ℕ) (ss : List Session)
      → find_session (hash_of bytes) ss ≡ none
      → step (login bytes now) ss
        ≡ (true, (record { token_hash = hash_of bytes; expires_at = now + session_duration }) ∷ ss)
  unfolding step create_session
  step-login bytes now ss f = ground (arith, f)

  step-answer :
      (e : Event) (clock : ℕ) (ss : List Session) (d : Deadlines)
      → Related clock ss d
      → Proper e clock d
      → (step e ss).0 ≡ (account e d).0
  step-answer (login bytes now) clock ss d r p =
      rw (step-login bytes now ss (fresh-absent clock (hash_of bytes) ss d r p.1))
        (unfold account in refl)
  step-answer (request token now later) clock ss d r p =
      let h = hash_token sha256 token in
      (step-request token now later ss).0
      ∙ Agree-ahead clock now (deadline h ss) (d h) p.0 (r.agree h)
      ∙ sym (account-request token now later d).0
  step-answer (logout token) clock ss d r p = unfold step account in refl
  step-answer logout_all clock ss d r p = unfold step account in refl
  step-answer (clean now) clock ss d r p = unfold step account in refl

  login-Related :
      (bytes : List ℕ) (now clock : ℕ) (ss : List Session) (d : Deadlines)
      → Related clock ss d
      → Proper (login bytes now) clock d
      → Related now
          ((record { token_hash = hash_of bytes; expires_at = now + session_duration }) ∷ ss)
          (put (hash_of bytes) (some (now + session_duration)) d)
  login-Related bytes now clock ss d r p = record {
    unique = (fresh-absent clock (hash_of bytes) ss d r p.1, r.unique);
    agree = λ k.
        Agree-put now (hash_of bytes) k _ (some (now + session_duration)) d
          (λ e. unfold find_session in ground (arith, e))
          (λ e.
            later-Agree clock now _ (d k) p.0
              (unfold find_session in rw (deadline, e) (r.agree k)));
  }

  step-Related :
      (e : Event) (clock : ℕ) (ss : List Session) (d : Deadlines)
      → Related clock ss d
      → Proper e clock d
      → Related (clock_after e clock) (step e ss).1 (account e d).1
  step-Related (login bytes now) clock ss d r p =
      rw (step-login bytes now ss (fresh-absent clock (hash_of bytes) ss d r p.1))
        (unfold account in login-Related bytes now clock ss d r p)
  step-Related (request token now later) clock ss d r p =
      rw ((step-request token now later ss).1, (account-request token now later d).1)
        (request-state (hash_token sha256 token) now later clock ss d r p)
  step-Related (logout token) clock ss d r p =
      unfold step account delete_session in logout-Related (hash_token sha256 token) clock ss d r
  step-Related logout_all clock ss d r p =
      unfold step account delete_all_sessions find_session in
      record { unique = tt; agree = λ k. refl }
  step-Related (clean now) clock ss d r p =
      unfold step account clean_expired_sessions in clean-Related now clock ss d p r

  -- With a working database, a clock that does not go back and login tokens of new hashes, every
  -- request is answered as the account says: accepted until exactly 30 days after the login or the
  -- last accepted request, whatever cleanups ran in between, and never after a logout.
  pub run_refines :
      (es : List Event) (clock : ℕ) (ss : List Session) (d : Deadlines)
      → Related clock ss d
      → AllProper es clock d
      → run es ss ≡ run_account es d
  unfolding run run_account
  run_refines [] clock ss d r p = refl
  run_refines (e ∷ es) clock ss d r p = ap₂ ◌∷◌ (step-answer e clock ss d r p.0) (
      run_refines es (clock_after e clock) (step e ss).1 (account e d).1
        (step-Related e clock ss d r p.0) p.1)
