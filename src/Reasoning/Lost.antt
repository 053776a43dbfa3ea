-- ===== src/Reasoning/Lost.antt =====
-- reasoning.py: a session whose task has ended while the scheduler is open.
use aap_hermes.Prelude.{
  String, ◌≡◌, refl, Bool, true, false, none, some, List, [], ◌∷◌, arith, ◌==◌, ==_iff, ==_refl,
  if◌then◌else◌, inl, inr, Option-cases,
}
use aap_hermes.Gateway.{SessionSource}
use aap_hermes.Prelude.Dict.{lookup, lookup-insert}
use aap_hermes.Reasoning.{
  Phase, waiting, in_turn, ended, Session, Scheduler, Action, signalled, woken, turn_over, closed,
  Exit, cancelled, step, run, put, resume, end_turn, wake, finish, signal, notified, session_or_new,
  Origin,
}

is_ended : Phase → Bool
is_ended waiting = false
is_ended in_turn = false
is_ended ended = true

-- No task of the session runs, and none will be created.
lost : String → Scheduler → Bool
unfolding is_ended
lost key s = elim (lookup key s.sessions) [ none ↦ s.closing | some sess ↦ is_ended sess.phase ]

lost-put :
    (key k : String) (sess : Session) (s : Scheduler)
    → lost key (put k sess s) ≡ (if k == key then is_ended sess.phase else lost key s)
unfolding lost
lost-put key k sess s = ground (arith, lookup-insert k key sess s.sessions)

lost-known :
    (key k : String) (sess : Session) (s : Scheduler)
    → lookup k s.sessions ≡ some sess
    → k ≡ key
    → lost key s ≡ is_ended sess.phase
unfolding lost
lost-known key k sess s known e = ground (arith, known)

lost-absent :
    (key k : String) (s : Scheduler) → lookup k s.sessions ≡ none → k ≡ key → lost key s ≡ s.closing
unfolding lost
lost-absent key k s absent e = ground (arith, absent)

lost-resume :
    (made closing : Bool) (sess : Session)
    → is_ended sess.phase ≡ true
    → (is_ended (resume made closing sess).0.phase ≡ true) × ((resume made closing sess).1 ≡ none)
unfolding resume is_ended
lost-resume made closing sess h = ground arith

lost-end_turn :
    (exit : Exit) (closing : Bool) (sess : Session)
    → is_ended sess.phase ≡ true
    → is_ended (end_turn exit closing sess).phase ≡ true
unfolding end_turn is_ended
lost-end_turn exit closing sess h = ground arith

lost-signal :
    (key k : String) (source : SessionSource) (origin : Origin) (s : Scheduler)
    → lost key s ≡ true
    → lost key (signal k source origin s) ≡ true
unfolding signal
lost-signal key k source origin s h = elim (Option-cases (lookup k s.sessions)) [
  | inl absent ↦ ground (
    arith,
    lost-put key k (notified source origin (session_or_new source (lookup k s.sessions))) s,
    lost-absent key k s absent,
    ==_iff k key,
    h,
  )
  | inr (sess, known) ↦ ground (
    arith,
    lost-put key k (notified source origin (session_or_new source (lookup k s.sessions))) s,
    known,
    lost-known key k sess s known,
    ==_iff k key,
    h,
  )
]

lost-wake :
    (key k : String) (made : Bool) (s : Scheduler)
    → lost key s ≡ true
    → lost key (wake k made s).0 ≡ true
unfolding wake
lost-wake key k made s h = elim (Option-cases (lookup k s.sessions)) [
  | inl absent ↦ ground (arith, absent, h)
  | inr (sess, known) ↦ ground (
    arith,
    known,
    lost-put key k (resume made s.closing sess).0 s,
    lost-resume made s.closing sess,
    lost-known key k sess s known,
    ==_iff k key,
    h,
  )
]

lost-finish :
    (key k : String) (exit : Exit) (s : Scheduler)
    → lost key s ≡ true
    → lost key (finish k exit s) ≡ true
unfolding finish
lost-finish key k exit s h = elim (Option-cases (lookup k s.sessions)) [
  | inl absent ↦ ground (arith, absent, h)
  | inr (sess, known) ↦ ground (
    arith,
    known,
    lost-put key k (end_turn exit s.closing sess) s,
    lost-end_turn exit s.closing sess,
    lost-known key k sess s known,
    ==_iff k key,
    h,
  )
]

lost-close : (key : String) → lost key (record { sessions = []; closing = true }) ≡ true
unfolding lost lookup
lost-close key = refl

lost-run :
    (key : String) (actions : List Action) (s : Scheduler)
    → lost key s ≡ true
    → lost key (run actions s) ≡ true
unfolding run step
lost-run key [] s h = h
lost-run key (signalled k source origin ∷ rest) s h =
    lost-run key rest (signal k source origin s) (lost-signal key k source origin s h)
lost-run key (woken k made ∷ rest) s h =
    lost-run key rest (wake k made s).0 (lost-wake key k made s h)
lost-run key (turn_over k exit ∷ rest) s h =
    lost-run key rest (finish k exit s) (lost-finish key k exit s h)
lost-run key (closed ∷ rest) s h =
    lost-run key rest (record { sessions = []; closing = true }) (lost-close key)

silent :
    (key : String) (made : Bool) (s : Scheduler) → lost key s ≡ true → (wake key made s).1 ≡ none
unfolding wake
silent key made s h = elim (Option-cases (lookup key s.sessions)) [
  | inl absent ↦ ground (arith, absent)
  | inr (sess, known) ↦
      ground
        (arith, known, lost-resume made s.closing sess, lost-known key key sess s known refl, h)
]

lost-cancelled :
    (key : String) (s : Scheduler) (sess : Session)
    → lookup key s.sessions ≡ some sess
    → sess.phase ≡ in_turn
    → lost key (finish key cancelled s) ≡ true
unfolding finish end_turn is_ended
lost-cancelled key s sess known running =
    ground
      (arith, known, running, lost-put key key (end_turn cancelled s.closing sess) s, ==_refl key)

-- Once the handler of a session's turn has raised `CancelledError`, the session never gets a turn
-- again: waking its task starts none after any further steps, whatever signals are among them.
pub run-finish_cancelled :
    (key : String) (s : Scheduler) (sess : Session) (actions : List Action) (made : Bool)
    → lookup key s.sessions ≡ some sess
    → sess.phase ≡ in_turn
    → (wake key made (run actions (finish key cancelled s))).1 ≡ none
run-finish_cancelled key s sess actions made known running =
    silent key made (run actions (finish key cancelled s))
      (lost-run key actions (finish key cancelled s) (lost-cancelled key s sess known running))
