-- ===== src/Reasoning/Pending.antt =====
-- reasoning.py: the flag of a session over a sequence of steps.
use aap_hermes.Prelude.{
  String, ◌≡◌, refl, Bool, true, false, none, some, List, [], ◌∷◌, arith, ◌==◌, ==_iff, is_some,
  ◌∙◌, ap, if◌then◌else◌, inl, inr, Option-cases,
}
use aap_hermes.Prelude.Dict.{lookup, lookup-insert}
use aap_hermes.Reasoning.{
  Session, Scheduler, Action, signalled, woken, Exit, turn_over, closed, step, run, put, resume,
  end_turn, wake, finish, signal, notified, session_or_new,
}

-- Whether an input of `key` waits after a step, from whether one waited before it: a signal brings
-- one unless the scheduler is closing, waking the task where it would start a turn takes all that
-- wait, also if the tick factory raises, and closing drops them.
abbrev pub waits_after : String → Action → Scheduler → Bool → Bool
waits_after key (signalled k source origin) s waits =
    if s.closing then waits else if k == key then true else waits
waits_after key (woken k made) s waits =
    if k == key then (if is_some (step (woken k true) s).1 then false else waits) else waits
waits_after key (turn_over k exit) s waits = waits
waits_after key closed s waits = false

unfoldable pub waits : String → List Action → Scheduler → Bool → Bool
waits key [] s w = w
waits key (a ∷ rest) s w = waits key rest (step a s).0 (waits_after key a s w)

unfoldable pub flag : String → Scheduler → Bool
flag key s = elim (lookup key s.sessions) [ none ↦ false | some sess ↦ sess.has_input ]

flag-put :
    (key k : String) (sess : Session) (s : Scheduler)
    → flag key (put k sess s) ≡ (if k == key then sess.has_input else flag key s)
unfolding flag
flag-put key k sess s = ground (arith, lookup-insert k key sess s.sessions)

known_flag :
    (key k : String) (sess : Session) (s : Scheduler)
    → lookup k s.sessions ≡ some sess
    → k ≡ key
    → flag key s ≡ sess.has_input
unfolding flag
known_flag key k sess s known e = ground (arith, known)

flag_nil :
    (key : String) (closing : Bool) → flag key (record { sessions = []; closing = closing }) ≡ false
unfolding flag lookup
flag_nil key closing = refl

flag-resume :
    (made closing : Bool) (sess : Session)
    → (resume made closing sess).0.has_input
      ≡ (if is_some (resume true closing sess).1 then false else sess.has_input)
unfolding resume
flag-resume made closing sess = ground arith

flag-end_turn :
    (exit : Exit) (closing : Bool) (sess : Session)
    → (end_turn exit closing sess).has_input ≡ sess.has_input
unfolding end_turn
flag-end_turn exit closing sess = ground arith

flag-wake :
    (key k : String) (made : Bool) (s : Scheduler)
    → flag key (wake k made s).0
      ≡ (if k == key then (if is_some (wake k true s).1 then false else flag key s) else flag key s)
unfolding wake
flag-wake key k made s = elim (Option-cases (lookup k s.sessions)) [
  | inl absent ↦ ground (arith, absent)
  | inr (sess, known) ↦ ground (
    arith,
    flag-put key k (resume made s.closing sess).0 s,
    flag-resume made s.closing sess,
    known_flag key k sess s known,
    ==_iff k key,
  )
]

flag-finish :
    (key k : String) (exit : Exit) (s : Scheduler) → flag key (finish k exit s) ≡ flag key s
unfolding finish
flag-finish key k exit s = elim (Option-cases (lookup k s.sessions)) [
  | inl absent ↦ ground (arith, absent)
  | inr (sess, known) ↦ ground (
    arith,
    flag-put key k (end_turn exit s.closing sess) s,
    flag-end_turn exit s.closing sess,
    known_flag key k sess s known,
    ==_iff k key,
  )
]

flag-step :
    (key : String) (a : Action) (s : Scheduler)
    → flag key (step a s).0 ≡ waits_after key a s (flag key s)
unfolding step signal
flag-step key (signalled k source origin) s =
    ground (
      arith,
      flag-put key k (notified source origin (session_or_new source (lookup k s.sessions))) s,
    )
flag-step key (woken k made) s = flag-wake key k made s
flag-step key (turn_over k exit) s = flag-finish key k exit s
flag-step key closed s = flag_nil key true

-- After any steps, the flag of a session is set exactly if it was set or the session was signalled
-- while the scheduler was open, and its task has not taken the input since; closing the scheduler
-- drops it.
pub flag-run :
    (key : String) (actions : List Action) (s : Scheduler)
    → flag key (run actions s) ≡ waits key actions s (flag key s)
unfolding run waits
flag-run key [] s = refl
flag-run key (a ∷ rest) s =
    flag-run key rest (step a s).0 ∙ ap (waits key rest (step a s).0) (flag-step key a s)
