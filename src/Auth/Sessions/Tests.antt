-- ===== src/Auth/Sessions/Tests.antt =====
-- A login, two requests, a cleanup, and a request that comes too late.
use appx.Base.{ℕ, ◌+◌, ◌≡◌, refl, arith, none, List, [], ◌∷◌}
use appx.Text.{Text}
use appx.Auth.Sessions.{session_duration, hex_encode, find_session}
use appx.Auth.Sessions.Window.{
  Event, login, request, clean, run, run_account, AllProper, run_refines,
}
use appx.Auth.Sessions.Deadlines.{Deadlines, Related}

-- A digest that keeps the token, in place of SHA-256.
abbrev pub toy_digest : Text → List ℕ
toy_digest token = token

abbrev story : List Event
story =
    login (7 ∷ []) 1
    ∷ request (hex_encode (7 ∷ [])) 5 6
    ∷ clean 7
    ∷ request (hex_encode (7 ∷ [])) (6 + session_duration) (6 + session_duration)
    ∷ []

abbrev no_deadlines : Deadlines
no_deadlines k = none

nothing_yet : Related 0 [] no_deadlines
unfolding find_session
nothing_yet = record { unique = tt; agree = λ k. refl }

story-AllProper : AllProper toy_digest story 0 no_deadlines
story-AllProper = (
  (omega arith, refl),
  ((omega arith, omega arith), (omega arith, ((omega arith, omega arith), tt))),
)

run_refines_example : run toy_digest story [] ≡ run_account toy_digest story no_deadlines
run_refines_example = run_refines toy_digest story 0 [] no_deadlines nothing_yet story-AllProper
