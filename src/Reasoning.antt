-- ===== src/Reasoning.antt =====
-- reasoning.py: the scheduler that runs one turn of a session at a time, on demand. A task of
-- `_run_session_loop` is at the wait, in a turn, or ended; the event loop and the handlers choose
-- the order of the steps.
pub mod Pending
pub mod Progress
pub mod Lost
use aap_hermes.Prelude.{
  ℕ, String, Bool, true, false, Option, none, some, List, [], ◌∷◌, if◌then◌else◌, not,
}
use aap_hermes.Prelude.Dict.{Dict, lookup, insert}
use aap_hermes.Gateway.{SessionSource}

pub data Phase : Type 0 where
  waiting in_turn ended : Phase

abbrev pub Origin : Type 0
Origin = Dict String

-- `_ReasoningSession`, with the place at which its task stands.
pub record Session : Type 0 where
  pub source : SessionSource
  pub has_input : Bool
  pub last_origin : Origin
  pub phase : Phase

pub record Scheduler : Type 0 where
  pub sessions : Dict Session
  pub closing : Bool

abbrev pub init : Scheduler
init = record { sessions = []; closing = false }

-- `asyncio.Event()` is not set, and the new task goes to its wait.
abbrev pub new_session : SessionSource → Session
new_session source = record {
  source = source;
  has_input = false;
  last_origin = [];
  phase = waiting;
}

abbrev pub session_or_new : SessionSource → Option Session → Session
session_or_new source none = new_session source
session_or_new source (some s) = s

abbrev latest_origin : Origin → Origin → Origin
latest_origin [] old = old
latest_origin (x ∷ rest) old = x ∷ rest

abbrev pub put : String → Session → Scheduler → Scheduler
put key sess s = record s { sessions = insert key sess s.sessions }

-- The session with a new input in it.
abbrev pub notified : SessionSource → Origin → Session → Session
notified source origin old = record old {
  last_origin = latest_origin origin old.last_origin;
  source = source;
  has_input = true;
}

-- `signal`; no origin is an empty one.
unfoldable pub signal : String → SessionSource → Origin → Scheduler → Scheduler
signal key source origin s =
    let sess = notified source origin (session_or_new source (lookup key s.sessions)) in
    if s.closing then s else put key sess s

-- The session after its task was resumed at the wait, and the tick that it hands to the handler;
-- `made` says whether the tick factory makes one. If it raises, that ends the task.
unfoldable pub resume : Bool → Bool → Session → Session × Option SessionSource
resume made closing sess = elim sess.phase [
  | ended ↦ (sess, none)
  | in_turn ↦ (sess, none)
  | waiting ↦
      if not sess.has_input
      then (sess, none)
      else if closing
      then (record sess { phase = ended }, none)
      else if made
      then (record sess { has_input = false; phase = in_turn }, some sess.source)
      else (record sess { has_input = false; phase = ended }, none)
]

-- How the handler's turn ends: it returns, raises an `Exception`, or raises `CancelledError`.
pub data Exit : Type 0 where
  returned raised cancelled : Exit

abbrev next_phase : Exit → Bool → Phase
next_phase cancelled closing = ended
next_phase returned closing = if closing then ended else waiting
next_phase raised closing = if closing then ended else waiting

-- The turn is over: the loop goes on, unless the scheduler is closing or the turn was cancelled.
unfoldable pub end_turn : Exit → Bool → Session → Session
end_turn exit closing sess = elim sess.phase [
  | in_turn ↦ record sess { phase = next_phase exit closing }
  | waiting ↦ sess
  | ended ↦ sess
]

-- `close`: every task is cancelled and awaited, and the sessions are dropped.
unfoldable pub close : Scheduler → Scheduler
close s = record { sessions = []; closing = true }

pub data Action : Type 0 where
  signalled : String → SessionSource → Origin → Action
  woken : String → Bool → Action
  turn_over : String → Exit → Action
  closed : Action

unfoldable pub wake : String → Bool → Scheduler → Scheduler × Option SessionSource
wake key made s = elim (lookup key s.sessions) [
  | none ↦ (s, none)
  | some sess ↦ let (sess', tick) = resume made s.closing sess in (put key sess' s, tick)
]

unfoldable pub finish : String → Exit → Scheduler → Scheduler
finish key exit s = elim (lookup key s.sessions) [
  | none ↦ s
  | some sess ↦ put key (end_turn exit s.closing sess) s
]

-- One step, and the tick that it starts a turn with.
unfoldable pub step : Action → Scheduler → Scheduler × Option SessionSource
unfolding signal wake finish close resume end_turn
step (signalled key source origin) s = (signal key source origin s, none)
step (woken key made) s = wake key made s
step (turn_over key exit) s = (finish key exit s, none)
step closed s = (close s, none)

unfoldable pub run : List Action → Scheduler → Scheduler
unfolding step
run [] s = s
run (a ∷ rest) s = run rest (step a s).0
