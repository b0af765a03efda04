-- ===== src/Auth/Sessions/Laws.antt =====
-- What each operation on the table of sessions does to the deadline of each hash.
use appx.Base.{
  subst, ℕ, ◌<◌, ◌≡◌, refl, false, Option, none, some, List, [], ◌∷◌, arith, ltb, if◌then◌else◌,
  Bool-cases, ◌⊎◌, inl, inr,
}
use appx.Text.{Text, text_eq}
use appx.Text.Equality.{text_eq_iff, text_eq→eq}
use appx.Auth.Sessions.{Session, find_session, set_expiry, remove_session, remove_expired}

-- When the session of a hash ends, if there is one.
abbrev pub deadline : Text → List Session → Option ℕ
deadline h ss = elim (find_session h ss) [ none ↦ none | some s ↦ some s.expires_at ]

-- The primary key: no hash is stored twice.
abbrev pub Unique : List Session → Type 0
Unique [] = Unit
Unique (s ∷ ss) = (find_session s.token_hash ss ≡ none) × Unique ss

module _ (h : Text) where
  pub find-remove :
      (k : Text) (ss : List Session)
      → find_session k (remove_session h ss) ≡ (if text_eq h k then none else find_session k ss)
  unfolding find_session remove_session
  find-remove k [] = ground arith
  find-remove k (s ∷ ss) = ground (
    arith,
    find-remove k ss,
    text_eq_iff s.token_hash h,
    text_eq_iff s.token_hash k,
    text_eq_iff h k,
  )

  pub deadline-set :
      (t : ℕ) (s : Session) (ss : List Session)
      → find_session h ss ≡ some s
      → deadline h (set_expiry h t ss) ≡ some t
  unfolding find_session set_expiry
  deadline-set t s [] f = cc
  deadline-set t s (x ∷ ss) f = ground (arith, deadline-set t s ss)

  pub find-set_other :
      (t : ℕ) (k : Text) (ss : List Session)
      → text_eq h k ≡ false
      → find_session k (set_expiry h t ss) ≡ find_session k ss
  unfolding find_session set_expiry
  find-set_other t k [] d = refl
  find-set_other t k (s ∷ ss) d = ground (
    arith,
    find-set_other t k ss d,
    text_eq_iff s.token_hash h,
    text_eq_iff s.token_hash k,
    text_eq_iff h k,
  )

  pub set-absent :
      (t : ℕ) (k : Text) (ss : List Session)
      → find_session k ss ≡ none
      → find_session k (set_expiry h t ss) ≡ none
  unfolding find_session set_expiry
  set-absent t k [] f = refl
  set-absent t k (s ∷ ss) f = ground (arith, set-absent t k ss)

  pub remove-absent :
      (k : Text) (ss : List Session)
      → find_session k ss ≡ none
      → find_session k (remove_session h ss) ≡ none
  remove-absent k ss f = ground (arith, find-remove k ss)

  pub Unique-set : (t : ℕ) (ss : List Session) → Unique ss → Unique (set_expiry h t ss)
  unfolding set_expiry
  Unique-set t [] u = tt
  Unique-set t (s ∷ ss) u = ground (arith, Unique-set t ss u.1, set-absent t s.token_hash ss u.0)

  pub Unique-remove : (ss : List Session) → Unique ss → Unique (remove_session h ss)
  unfolding remove_session
  Unique-remove [] u = tt
  Unique-remove (s ∷ ss) u = ground (arith, Unique-remove ss u.1, remove-absent s.token_hash ss u.0)

module _ (now : ℕ) where
  pub expired-absent :
      (k : Text) (ss : List Session)
      → find_session k ss ≡ none
      → find_session k (remove_expired now ss) ≡ none
  unfolding find_session remove_expired
  expired-absent k [] f = refl
  expired-absent k (s ∷ ss) f = ground (arith, expired-absent k ss)

  -- Only what has ended goes away.
  pub find-expired :
      (k : Text) (ss : List Session)
      → Unique ss
      → (find_session k (remove_expired now ss) ≡ find_session k ss)
        ⊎ ((s : Session) × (find_session k ss ≡ some s)
            × (s.expires_at < now)
            × (find_session k (remove_expired now ss) ≡ none))
  unfolding find_session remove_expired
  find-expired k [] u = inl refl
  find-expired k (s ∷ ss) u = elim (Bool-cases (text_eq s.token_hash k)) [
    | inr other ↦ elim (find-expired k ss u.1) [
      | inl same ↦ inl (ground (arith, other, same))
      | inr (x, found, past, gone) ↦
          inr (x, ground (arith, other, found), past, ground (arith, other, gone))
    ]
    | inl here ↦ elim (Bool-cases (ltb s.expires_at now)) [
      | inr live ↦ inl (ground (arith, here, live))
      | inl past ↦ inr (
        s,
        ground (arith, here),
        ground (arith, past),
        ground (
          arith,
          here,
          past,
          expired-absent k ss
              (subst (λ t. find_session t ss ≡ none) (text_eq→eq s.token_hash k here) u.0),
        ),
      )
    ]
  ]

  pub Unique-expired : (ss : List Session) → Unique ss → Unique (remove_expired now ss)
  unfolding remove_expired
  Unique-expired [] u = tt
  Unique-expired (s ∷ ss) u =
      ground (arith, Unique-expired ss u.1, expired-absent s.token_hash ss u.0)
