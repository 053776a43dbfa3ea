-- ===== src/Examples/Contexts.antt =====
-- A turn's context, a peer's thread, and the scheduler of one session.
use aap_hermes.Prelude.{arith, ◌≡◌, refl, true, false, none, some, List, [], ◌∷◌, ◌==◌}
use aap_hermes.Prelude.Text.{starts_with}
use aap_hermes.Prelude.Dict.{lookup, insert}
use aap_hermes.Gateway.{SessionSource}
use aap_hermes.TurnContext.{Context, outside, reply_thread_id_for, thread_of}
use aap_hermes.PeerThreads.{File, missing, threads, load, store_thread, record_inbound_thread}
use aap_hermes.Reasoning.{
  Action, signalled, woken, turn_over, returned, raised, cancelled, in_turn, Session, Scheduler,
  wake, finish, init, run,
}
use aap_hermes.Reasoning.Pending.{flag, waits, flag-run}
use aap_hermes.Reasoning.Lost.{run-finish_cancelled}
use aap_hermes.Reasoning.Progress.{served, served-run}
use aap_hermes.Examples.Stores.{home}
use aap_hermes.Examples.World.{james}

abbrev opened : Context
opened = record outside { sent_this_turn = some [] }

abbrev threaded : SessionSource
threaded = record home { chat_id = some james; thread_id = some "t1" }

abbrev in_thread : Context
in_thread = record outside { session_source = some threaded }

echoed : reply_thread_id_for james in_thread ≡ some "t1"
unfolding reply_thread_id_for thread_of ◌==◌ starts_with
echoed = refl

abbrev after : File
after = threads ((james, "t1") ∷ [])

recorded : record_inbound_thread true james (some "t1") missing ≡ some after
unfolding record_inbound_thread load store_thread lookup insert
recorded = refl

abbrev steps : List Action
steps = signalled "s" home [] ∷ woken "s" true ∷ signalled "s" home [] ∷ turn_over "s" raised ∷ []

flag-run_example : flag "s" (run steps init) ≡ waits "s" steps init (flag "s" init)
flag-run_example = flag-run "s" steps init

served-run_example : served "s" home [] returned (run steps init) ≡ some home
served-run_example = served-run "s" home [] returned steps tt (λ e. absurd (ground (arith, e)))

abbrev thinking : Session
thinking = record { source = home; has_input = false; last_origin = []; phase = in_turn }

-- in the middle of a turn
abbrev busy : Scheduler
busy = record { sessions = ("s", thinking) ∷ []; closing = false }

known : lookup "s" busy.sessions ≡ some thinking
unfolding lookup ◌==◌
known = refl

run-finish_cancelled_example : (wake "s" true (run steps (finish "s" cancelled busy))).1 ≡ none
run-finish_cancelled_example = run-finish_cancelled "s" busy thinking steps true known refl
