-- ===== src/Terminal/Sessions/Tests.antt =====
-- Runs on concrete managers, and the properties at them.
use appx.Base.{
  ℕ, ◌≡◌, ◌<◌, refl, true, false, Option, none, some, [], ◌∷◌, inl, inr, ◌⊎◌, ◌≤◌, length, arith,
  if◌then◌else◌,
}
use appx.Base.Effects.{ok, ◌>>=◌}
use appx.Base.Maps.{lookup}
use appx.Text.{codes, text_eq}
use appx.Terminal.Fanout.{count, update, enqueue, receive}
use appx.Terminal.Sessions.{
  Manager, Execer, new_manager, register, create_session, add_subscriber, list_sessions, shut,
  close_all_sessions, close_project_sessions, pump_output, project_sessions,
}
use appx.Terminal.Sessions.Safe.{registers, adds_subscriber, shuts, step, run}
use appx.Terminal.Sessions.Run.{run-new_manager, SafeManager, with_output}
use appx.Terminal.Sessions.Index.{IsIndexed}
use appx.Terminal.Sessions.Reach.{Reached, starts, steps, Reached-IsIndexed}
use appx.Terminal.Sessions.Shutdown.{close_all_sessions-nil, close_project_sessions-lookup}
use appx.Terminal.Sessions.Output.{pump_output-unregistered}
use appx.Terminal.Sessions.Calls.{IsAmong, create_session-create_session}

abbrev docker : Execer
docker = record {
  exec_create = λ container options. some (codes "e");
  exec_attach = λ exec_id. some 7;
  exec_resize = λ exec_id cols rows. true;
}

abbrev one_session : Manager
one_session = (register (codes "a") (codes "shop") (codes "e") 7 1 (new_manager 4)).1

abbrev watched : Manager
watched = (add_subscriber 0 one_session).1

one_session-Reached : Reached 4 one_session
unfolding step lookup
one_session-Reached =
    steps (registers (codes "a") (codes "shop") (codes "e") 7 1) (new_manager 4) one_session starts
      refl refl

watched-Reached : Reached 4 watched
unfolding step
watched-Reached = steps (adds_subscriber 0) one_session watched one_session-Reached tt refl

-- Two goroutines that find no session both register one.
two_sessions :
    list_sessions (codes "shop") (register (codes "b") (codes "shop") (codes "f") 8 2 one_session).1
    ≡ 1 ∷ 0 ∷ []
unfolding list_sessions appx.Terminal.Sessions.project_sessions lookup register
    appx.Base.Maps.insert text_eq appx.Base.Maps.delete
two_sessions = refl

-- A subscriber that is added to a session that has been shut stays open, and the session's end is past.
late_subscriber :
    (shut 0 one_session >>= λ m. ok ((add_subscriber 0 m).1.chans 0).closed) ≡ ok false
unfolding shut register appx.Terminal.Fanout.close_all add_subscriber
late_subscriber = refl

run-new_manager_example :
    (t : Manager) × (run
        (registers (codes "a") (codes "shop") (codes "e") 7 1 ∷ shuts 0 ∷ shuts 0 ∷ [])
        (new_manager 4)
      ≡ ok t)
    × SafeManager t
run-new_manager_example =
    run-new_manager 4
      (registers (codes "a") (codes "shop") (codes "e") 7 1 ∷ shuts 0 ∷ shuts 0 ∷ [])

Reached-IsIndexed_example : IsIndexed watched
Reached-IsIndexed_example = Reached-IsIndexed 4 watched watched-Reached

close_all_sessions-nil_example :
    (t : Manager) × (close_all_sessions watched ≡ ok t) × (t.sessions ≡ []) × (t.by_project ≡ [])
close_all_sessions-nil_example = close_all_sessions-nil 4 watched watched-Reached

found : lookup (codes "a") watched.sessions ≡ some 0
unfolding lookup add_subscriber register appx.Base.Maps.insert text_eq
found = refl

close_project_sessions-lookup_example :
    (t : Manager) × (close_project_sessions (codes "shop") watched ≡ ok t)
    × (lookup (codes "a") t.sessions
        ≡ (if text_eq (watched.objects 0).project_id (codes "shop") then none else some 0))
    × ((if text_eq (watched.objects 0).project_id (codes "shop") then (t.objects 0).done else true)
        ≡ true)
close_project_sessions-lookup_example =
    close_project_sessions-lookup 4 watched (codes "shop") (codes "a") 0 watched-Reached found

held : 0 < count 0 (watched.objects 0).subs
unfolding add_subscriber appx.Terminal.Fanout.subscribed register
held = omega arith

-- The subscriber has received one of two pieces.
abbrev spoken : Manager
spoken =
    with_output 0 (104 ∷ []) watched (0 ∷ [])
      (update watched.chans 0 (enqueue (104 ∷ []) (watched.chans 0)))

abbrev spoken_again : Manager
spoken_again =
    with_output 0 (105 ∷ []) spoken (0 ∷ [])
      (update spoken.chans 0 (enqueue (105 ∷ []) (spoken.chans 0)))

abbrev reading : Manager
reading = record spoken_again { chans = receive 0 spoken_again.chans }

pump_output-unregistered_example :
    (t : Manager) × (pump_output 0 ((104 ∷ [], false) ∷ ([], true) ∷ []) watched ≡ ok t)
    × (lookup (watched.objects 0).id t.sessions ≡ none)
pump_output-unregistered_example =
    pump_output-unregistered 4 watched 0 ((104 ∷ [], false) ∷ ([], true) ∷ []) watched-Reached refl

created :
    create_session docker 0 (codes "a") 1 (codes "shop") (codes "c") (new_manager 4)
    ≡ (inr 0, one_session)
unfolding create_session appx.Terminal.Sessions.existing_session appx.Terminal.Sessions.some_entry
    appx.Terminal.Sessions.project_sessions lookup register
created = refl

create_session-create_session_example :
    (q : ℕ) × (create_session docker 3 (codes "b") 2 (codes "shop") (codes "c") one_session
      ≡ (inr q, one_session))
    × IsAmong q (project_sessions (codes "shop") one_session.by_project)
    × ((q ≡ 0) ⊎ (2 ≤ length (project_sessions (codes "shop") one_session.by_project)))
create_session-create_session_example =
    create_session-create_session docker docker 0 3 (codes "a") (codes "b") 1 2 (codes "shop")
      (codes "c") (codes "c") 0 (new_manager 4) one_session created
