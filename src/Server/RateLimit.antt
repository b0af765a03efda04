-- ===== src/Server/RateLimit.antt =====
-- internal/server/ratelimit.go: the sliding window that guards the login, per address.
-- Times are nanoseconds; `t.After(now - window)` is written without a subtraction.
pub mod Map
pub mod Window
mod Tests
use appx.Base.{
  ℕ, ◌+◌, Bool, true, false, List, [], ◌∷◌, ◌++◌, ltb, leb, filter, length, if◌then◌else◌,
}
use appx.Text.{Text, text_eq}

abbrev pub Attempts : Type 0
Attempts = List (Text × List ℕ)

pub record RateLimiter : Type 0 where
  pub attempts : Attempts
  pub window : ℕ
  pub max : ℕ

-- A map read of a missing key gives the empty slice.
pub lookup : Text → Attempts → List ℕ
lookup ip [] = []
lookup ip ((k, times) ∷ m) = if text_eq k ip then times else lookup ip m

pub store : Text → List ℕ → Attempts → Attempts
store ip times [] = (ip, times) ∷ []
store ip times ((k, old) ∷ m) =
    let rest = store ip times m in if text_eq k ip then (k, times) ∷ m else (k, old) ∷ rest

-- t.After(cutoff), with cutoff = now - window
abbrev pub after_cutoff : ℕ → ℕ → ℕ → Bool
after_cutoff window now t = ltb now (t + window)

pub valid_times : ℕ → ℕ → List ℕ → List ℕ
valid_times window now times = filter (after_cutoff window now) times

pub allow : Text → ℕ → RateLimiter → Bool × RateLimiter
allow ip now rl =
    let valid = valid_times rl.window now (lookup ip rl.attempts) in
    if leb rl.max (length valid)
    then (false, record rl { attempts = store ip valid rl.attempts })
    else (true, record rl { attempts = store ip (valid ++ now ∷ []) rl.attempts })

-- The loop over the map: an address with no valid time is deleted.
pub cleanup_map : ℕ → ℕ → Attempts → Attempts
cleanup_map window now [] = []
cleanup_map window now ((k, times) ∷ m) =
    let rest = cleanup_map window now m in
    if leb (length (valid_times window now times)) 0
    then rest
    else (k, valid_times window now times) ∷ rest

pub cleanup : ℕ → RateLimiter → RateLimiter
cleanup now rl = record rl { attempts = cleanup_map rl.window now rl.attempts }

pub new_rate_limiter : ℕ → ℕ → RateLimiter
new_rate_limiter window max = record { attempts = []; window = window; max = max }
