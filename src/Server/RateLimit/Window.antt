-- ===== src/Server/RateLimit/Window.antt =====
-- The limiter against its specification: one that forgets nothing and counts.
use appx.Base.{
  leb_false→lt, append-nil, ap₂, ℕ, ◌≤◌, ◌≡◌, refl, sym, ap, ◌∙◌, inl, inr, Bool, true, false, List,
  [], ◌∷◌, ◌++◌, arith, Bool-cases, ltb, leb, length, length-append, ◌&&◌, if◌then◌else◌,
}
use appx.Text.{Text, text_eq}
use appx.Text.Equality.{text_eq→eq}
use appx.Server.RateLimit.Map.{
  lookup-store, valid_times-append, valid_times-valid_times, valid_times-nil, length-valid_times_le,
  length-valid_times_mono, Distinct, store-Distinct, cleanup-Distinct, lookup-cleanup,
}
use appx.Server.RateLimit.{
  RateLimiter, lookup, store, valid_times, allow, cleanup, new_rate_limiter,
}

-- Calls in the order in which the lock lets them through.
pub data Event : Type 0 where
  request : Text → ℕ → Event
  sweep : ℕ → Event

abbrev pub event_time : Event → ℕ
event_time (request ip t) = t
event_time (sweep t) = t

-- The clock does not go back.
abbrev pub Ordered : ℕ → List Event → Type 0
Ordered now [] = Unit
Ordered now (e ∷ es) = (now ≤ event_time e) × Ordered (event_time e) es

abbrev pub last_time : ℕ → List Event → ℕ
last_time now [] = now
last_time now (e ∷ es) = last_time (event_time e) es

pub run : List Event → RateLimiter → RateLimiter
run [] rl = rl
run (request ip t ∷ es) rl = run es (allow ip t rl).1
run (sweep t ∷ es) rl = run es (cleanup t rl)

-- The times at which requests of each address were let through: nothing is ever forgotten.
abbrev pub History : Type 0
History = Text → List ℕ

abbrev pub extend : Bool → Text → ℕ → History → History
extend granted ip t h k = if granted && text_eq ip k then h k ++ t ∷ [] else h k

pub granted : List Event → RateLimiter → History → History
granted [] rl h = h
granted (request ip t ∷ es) rl h = granted es (allow ip t rl).1 (extend (allow ip t rl).0 ip t h)
granted (sweep t ∷ es) rl h = granted es (cleanup t rl) h

abbrev pub no_history : History
no_history ip = []

-- The limiter remembers of each address what can still count.
record Tracks (now : ℕ) (rl : RateLimiter) (h : History) : Type 0 where
  distinct : Distinct rl.attempts
  recalls :
      (ip : Text) (t : ℕ)
      → now ≤ t
      → valid_times rl.window t (lookup ip rl.attempts) ≡ valid_times rl.window t (h ip)
  bounded : (ip : Text) (t : ℕ) → now ≤ t → length (valid_times rl.window t (h ip)) ≤ rl.max

same-recalls :
    (now t : ℕ) (rl : RateLimiter) (h : History) (ip : Text)
    → Tracks now rl h
    → now ≤ t
    → valid_times rl.window t (lookup ip rl.attempts) ≡ valid_times rl.window t (h ip)
same-recalls now t rl h ip r le = r.recalls ip t le

-- A request is let through exactly when fewer than `max` were in the window before it.
allow-counts :
    (now t : ℕ) (rl : RateLimiter) (h : History) (ip : Text)
    → Tracks now rl h
    → now ≤ t
    → (allow ip t rl).0 ≡ ltb (length (valid_times rl.window t (h ip))) rl.max
unfolding allow
allow-counts now t rl h ip r le = ground (arith, r.recalls ip t le)

window-allow :
    (ip : Text) (t : ℕ) (rl : RateLimiter)
    → ((allow ip t rl).1.window ≡ rl.window) × ((allow ip t rl).1.max ≡ rl.max)
unfolding allow
window-allow ip t rl = ground arith

module _ (now t : ℕ) (rl : RateLimiter) (h : History) (ip : Text) (r : Tracks now rl h)
    (le : now ≤ t) where
  kept : List ℕ
  kept = valid_times rl.window t (lookup ip rl.attempts)

  -- The stored times, and more, as they are seen at a later time.
  recall_store :
      (extra new : List ℕ) (k : Text) (u : ℕ)
      → t ≤ u
      → ((text_eq ip k ≡ true) → new ≡ h k ++ extra)
      → ((text_eq ip k ≡ false) → new ≡ h k)
      → valid_times rl.window u (lookup k (store ip (kept ++ extra) rl.attempts))
        ≡ valid_times rl.window u new
  unfolding kept
  recall_store extra new k u lu same other = elim (Bool-cases (text_eq ip k)) [
    | inl hit ↦
        rw (lookup-store ip k (kept ++ extra) rl.attempts, hit)
          (valid_times-append rl.window u kept extra
            ∙ ap (λ xs. xs ++ valid_times rl.window u extra)
                (valid_times-valid_times rl.window t u (lookup ip rl.attempts) lu
                  ∙ r.recalls ip u (omega arith)
                  ∙ ap (λ j. valid_times rl.window u (h j)) (text_eq→eq ip k hit))
            ∙ sym (valid_times-append rl.window u (h k) extra)
            ∙ ap (valid_times rl.window u) (sym (same hit)))
    | inr miss ↦
        rw (lookup-store ip k (kept ++ extra) rl.attempts, miss)
          (r.recalls k u (omega arith) ∙ ap (valid_times rl.window u) (sym (other miss)))
  ]

  room_bound :
      leb rl.max (length kept) ≡ false
      → (k : Text) (u : ℕ) → t ≤ u
      → length (valid_times rl.window u (extend true ip t h k)) ≤ rl.max
  unfolding kept
  room_bound room k u lu = elim (Bool-cases (text_eq ip k)) [
    | inl hit ↦ rw hit (
        let same : ip ≡ k = text_eq→eq ip k hit in
        rw (← same) (
          omega (
            arith,
            ap length (valid_times-append rl.window u (h ip) (t ∷ [])),
            length-append (valid_times rl.window u (h ip)) (valid_times rl.window u (t ∷ [])),
            length-valid_times_le rl.window u (t ∷ []),
            length-valid_times_mono rl.window t u (h ip) lu,
            ap length (r.recalls ip t le),
            leb_false→lt _ _ room,
          )))
    | inr miss ↦ rw miss (r.bounded k u (omega arith))
  ]

  allow-Tracks : Tracks t (allow ip t rl).1 (extend (allow ip t rl).0 ip t h)
  unfolding kept
  allow-Tracks = elim (Bool-cases (leb rl.max (length kept))) [
    | inl full ↦
        unfold allow in
        rw full (record {
          distinct = store-Distinct ip _ rl.attempts r.distinct;
          recalls = λ k u lu.
              ap (λ xs. valid_times rl.window u (lookup k (store ip xs rl.attempts)))
                (sym (append-nil kept))
              ∙ recall_store [] (h k) k u lu (λ e. sym (append-nil (h k))) (λ e. refl);
          bounded = λ k u lu. r.bounded k u (omega arith);
        })
    | inr room ↦
        unfold allow in
        rw room (record {
          distinct = store-Distinct ip _ rl.attempts r.distinct;
          recalls = λ k u lu.
              recall_store (t ∷ []) (extend true ip t h k) k u lu (λ e. rw e refl) (λ e. rw e refl);
          bounded = room_bound room;
        })
  ]

  cleanup-Tracks : Tracks t (cleanup t rl) h
  unfolding cleanup
  cleanup-Tracks = record {
    distinct = cleanup-Distinct rl.window t rl.attempts r.distinct;
    recalls = λ k u lu.
        ap (valid_times rl.window u) (lookup-cleanup rl.window t k rl.attempts r.distinct)
        ∙ valid_times-valid_times rl.window t u (lookup k rl.attempts) lu
        ∙ r.recalls k u (omega arith);
    bounded = λ k u lu. r.bounded k u (omega arith);
  }

run-Tracks :
    (es : List Event) (now : ℕ) (rl : RateLimiter) (h : History)
    → Tracks now rl h
    → Ordered now es
    → Tracks (last_time now es) (run es rl) (granted es rl h)
unfolding run granted
run-Tracks [] now rl h r o = r
run-Tracks (request ip t ∷ es) now rl h r o =
    run-Tracks es t (allow ip t rl).1 (extend (allow ip t rl).0 ip t h)
      (allow-Tracks now t rl h ip r o.0) o.1
run-Tracks (sweep t ∷ es) now rl h r o =
    run-Tracks es t (cleanup t rl) h (cleanup-Tracks now t rl h [] r o.0) o.1

new-Tracks : (window max : ℕ) → Tracks 0 (new_rate_limiter window max) no_history
unfolding new_rate_limiter
new-Tracks window max = record {
  distinct = tt;
  recalls = λ ip t le. unfold lookup in refl;
  bounded = λ ip t le. rw (valid_times-nil window t) (omega arith);
}

run-config :
    (es : List Event) (rl : RateLimiter)
    → ((run es rl).window ≡ rl.window) × ((run es rl).max ≡ rl.max)
unfolding run cleanup
run-config [] rl = (refl, refl)
run-config (request ip t ∷ es) rl =
    let rest = run-config es (allow ip t rl).1 in
    let one = window-allow ip t rl in (rest.0 ∙ one.0, rest.1 ∙ one.1)
run-config (sweep t ∷ es) rl = run-config es (cleanup t rl)

-- Whatever requests and sweeps came before, in the order of their times, the next request of an address is let through exactly
-- when fewer than `max` of its requests were let through in the window before it: forgetting old
-- times and idle addresses never changes an answer.
pub allow_refines :
    (window max : ℕ) (es : List Event) (ip : Text) (t : ℕ)
    → Ordered 0 es
    → last_time 0 es ≤ t
    → (allow ip t (run es (new_rate_limiter window max))).0
      ≡ ltb
          (length (valid_times window t (granted es (new_rate_limiter window max) no_history ip)))
          max
unfolding new_rate_limiter
allow_refines window max es ip t o le =
    let config = run-config es (new_rate_limiter window max) in
    allow-counts (last_time 0 es) t (run es (new_rate_limiter window max)) _ ip
      (run-Tracks es 0 (new_rate_limiter window max) no_history (new-Tracks window max) o) le
    ∙ ap₂
        (λ w m.
          ltb (length (valid_times w t (granted es (new_rate_limiter window max) no_history ip))) m)
        config.0 config.1

-- No address gets more than `max` requests through in a window that ends at or after the last call.
pub granted_bounded :
    (window max : ℕ) (es : List Event) (ip : Text) (t : ℕ)
    → Ordered 0 es
    → last_time 0 es ≤ t
    → length (valid_times window t (granted es (new_rate_limiter window max) no_history ip)) ≤ max
unfolding new_rate_limiter
granted_bounded window max es ip t o le =
    let config = run-config es (new_rate_limiter window max) in
    let tracks =
      run-Tracks es 0 (new_rate_limiter window max) no_history (new-Tracks window max) o in
    omega (
      arith,
      tracks.bounded ip t le,
      ap (λ w. length (valid_times w t (granted es (new_rate_limiter window max) no_history ip)))
          config.0,
      config.1,
    )
