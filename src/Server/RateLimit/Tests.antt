-- ===== src/Server/RateLimit/Tests.antt =====
-- A few logins from one address.
use appx.Base.{◌≡◌, arith, List, [], ◌∷◌, length, ltb}
use appx.Text.{codes}
use appx.Server.RateLimit.{valid_times, allow, new_rate_limiter}
use appx.Server.RateLimit.Window.{
  Event, request, sweep, Ordered, run, granted, no_history, allow_refines,
}

abbrev calls : List Event
calls = request (codes "a") 1 ∷ request (codes "a") 2 ∷ sweep 3 ∷ request (codes "a") 4 ∷ []

calls-Ordered : Ordered 0 calls
calls-Ordered = (omega arith, (omega arith, (omega arith, (omega arith, tt))))

allow_refines_example :
    (allow (codes "a") 5 (run calls (new_rate_limiter 10 2))).0
    ≡ ltb
        (length (valid_times 10 5 (granted calls (new_rate_limiter 10 2) no_history (codes "a"))))
        2
allow_refines_example = allow_refines 10 2 calls (codes "a") 5 calls-Ordered (omega arith)
