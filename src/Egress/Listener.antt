-- ===== src/Egress/Listener.antt =====
-- internal/egress/listener.go: handleEgressRequest, the agent's side of a permission request.
-- The handler waits between its two halves; the registry may change there.
pub mod Laws
mod Tests
use appx.Base.{ℕ, zero, suc, Bool, true, false, ◌||◌, Option, none, some, [], if◌then◌else◌}
use appx.Text.{Text, text_eq}
use appx.Text.Int.{ℤ, pos, negsuc}
use appx.Egress.Pending.{
  PendingRequest, PendingRegistry, Effect, ok, add, Resolved, not_found, resolved, resolve,
}

pub record Body : Type 0 where
  pub host : Text
  pub port : ℤ
  pub reason : Text

abbrev pub is_zero : ℤ → Bool
is_zero (pos zero) = true
is_zero (pos (suc n)) = false
is_zero (negsuc n) = false

pub data Submitted : Type 0 where
  bad_request : Submitted
  waiting : PendingRequest → PendingRegistry → Submitted

-- Up to the select: `none` is a body that does not decode.
pub submit : Option Body → Text → ℕ → PendingRegistry → Submitted
submit none id now r = bad_request
submit (some body) id now r =
    if text_eq body.host [] || is_zero body.port
    then bad_request
    else (let (req, r') = add id body.host body.port body.reason now r in waiting req r')

-- What the select sees: an answer, a closed channel with nothing in it, or the timer.
pub data Wait : Type 0 where
  received : Bool → Wait
  closed : Wait
  timer : Wait

pub record Answer : Type 0 where
  pub allowed : Bool
  pub timeout : Bool

-- The error of Resolve is dropped: a request that someone else resolved is left to them.
after_timeout : Resolved → PendingRegistry → Effect PendingRegistry
after_timeout not_found r = ok r
after_timeout (resolved e) r = e

pub finish : Wait → PendingRequest → PendingRegistry → Answer × Effect PendingRegistry
finish (received result) req r = (record { allowed = result; timeout = false }, ok r)
finish closed req r = (record { allowed = false; timeout = false }, ok r)
finish timer req r =
    (record { allowed = false; timeout = true }, after_timeout (resolve req.id false true r) r)
