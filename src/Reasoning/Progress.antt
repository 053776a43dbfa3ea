-- ===== src/Reasoning/Progress.antt =====
-- reasoning.py: when a signalled session gets a turn.
use aap_hermes.Prelude.{
  String, ◌≡◌, ◌≢◌, refl, ap, ◌∙◌, Bool, true, false, Option, none, some, List, [], ◌∷◌, arith,
  ==_refl, inl, inr, Option-cases, subst,
}
use aap_hermes.Prelude.Dict.{lookup, lookup-insert}
use aap_hermes.Gateway.{SessionSource}
use aap_hermes.Reasoning.{
  ended, Origin, Session, Scheduler, init, Action, signalled, woken, Exit, returned, raised,
  cancelled, turn_over, closed, step, run, put, resume, end_turn, wake, finish, signal, notified,
  session_or_new,
}

-- The task of the session has not ended.
abbrev pub IsAlive : Option Session → Type 0
IsAlive none = Unit {0}
IsAlive (some sess) = sess.phase ≢ ended

-- No step closes the scheduler, no tick factory raises, and no handler raises `CancelledError`.
abbrev pub IsOpen : List Action → Type 0
IsOpen [] = Unit {0}
IsOpen (closed ∷ rest) = ⊥
IsOpen (signalled k source origin ∷ rest) = IsOpen rest
IsOpen (woken k true ∷ rest) = IsOpen rest
IsOpen (woken k false ∷ rest) = ⊥
IsOpen (turn_over k cancelled ∷ rest) = ⊥
IsOpen (turn_over k returned ∷ rest) = IsOpen rest
IsOpen (turn_over k raised ∷ rest) = IsOpen rest

-- Of a scheduler that is not closing, every task is alive.
pub record IsServing (s : Scheduler) : Type 0 where
  pub open_still : s.closing ≡ false
  pub alive : (k : String) → IsAlive (lookup k s.sessions)

put-IsServing :
    (key : String) (sess : Session) (s : Scheduler)
    → IsServing s
    → sess.phase ≢ ended
    → IsServing (put key sess s)
put-IsServing key sess s v live = record {
  open_still = v.open_still;
  alive = λ k. rw lookup-insert (ground (arith, v.alive k));
}

alive_session :
    (source : SessionSource) (o : Option Session)
    → IsAlive o
    → (session_or_new source o).phase ≢ ended
alive_session source none h = λ e. cc e
alive_session source (some sess) h = h

signal_open :
    (key : String) (source : SessionSource) (origin : Origin) (s : Scheduler)
    → s.closing ≡ false
    → signal key source origin s
      ≡ put key (notified source origin (session_or_new source (lookup key s.sessions))) s
unfolding signal
signal_open key source origin s h = ground arith

wake_known :
    (key : String) (s : Scheduler) (sess : Session)
    → lookup key s.sessions ≡ some sess
    → wake key true s ≡ (put key (resume true s.closing sess).0 s, (resume true s.closing sess).1)
unfolding wake
wake_known key s sess h = ground (arith, h)

wake_absent :
    (key : String) (s : Scheduler) → lookup key s.sessions ≡ none → wake key true s ≡ (s, none)
unfolding wake
wake_absent key s h = ground (arith, h)

finish_known :
    (key : String) (exit : Exit) (s : Scheduler) (sess : Session)
    → lookup key s.sessions ≡ some sess
    → finish key exit s ≡ put key (end_turn exit s.closing sess) s
unfolding finish
finish_known key exit s sess h = ground (arith, h)

finish_absent :
    (key : String) (exit : Exit) (s : Scheduler)
    → lookup key s.sessions ≡ none
    → finish key exit s ≡ s
unfolding finish
finish_absent key exit s h = ground (arith, h)

resume_alive :
    (closing : Bool) (sess : Session)
    → closing ≡ false
    → sess.phase ≢ ended
    → (resume true closing sess).0.phase ≢ ended
unfolding resume
resume_alive closing sess h live = ground arith

end_turn_alive :
    (exit : Exit) (closing : Bool) (sess : Session)
    → exit ≢ cancelled
    → closing ≡ false
    → sess.phase ≢ ended
    → (end_turn exit closing sess).phase ≢ ended
unfolding end_turn
end_turn_alive returned closing sess kept h live = ground arith
end_turn_alive raised closing sess kept h live = ground arith
end_turn_alive cancelled closing sess kept h live = absurd (kept refl)

known_alive :
    (key : String) (s : Scheduler) (sess : Session)
    → IsServing s
    → lookup key s.sessions ≡ some sess
    → sess.phase ≢ ended
known_alive key s sess v known = subst IsAlive known (v.alive key)

signal-IsServing :
    (key : String) (source : SessionSource) (origin : Origin) (s : Scheduler)
    → IsServing s
    → IsServing (signal key source origin s)
signal-IsServing key source origin s v =
    rw (signal_open key source origin s v.open_still)
      (put-IsServing key _ s v (alive_session source (lookup key s.sessions) (v.alive key)))

wake-IsServing : (key : String) (s : Scheduler) → IsServing s → IsServing (wake key true s).0
wake-IsServing key s v = elim (Option-cases (lookup key s.sessions)) [
  | inl absent ↦ rw (wake_absent key s absent) v
  | inr (sess, known) ↦ rw (wake_known key s sess known) (
      put-IsServing key _ s v
        (resume_alive s.closing sess v.open_still (known_alive key s sess v known)))
]

finish-IsServing :
    (key : String) (exit : Exit) (s : Scheduler)
    → exit ≢ cancelled
    → IsServing s
    → IsServing (finish key exit s)
finish-IsServing key exit s kept v = elim (Option-cases (lookup key s.sessions)) [
  | inl absent ↦ rw (finish_absent key exit s absent) v
  | inr (sess, known) ↦ rw (finish_known key exit s sess known) (
      put-IsServing key _ s v
        (end_turn_alive exit s.closing sess kept v.open_still (known_alive key s sess v known)))
]

-- As long as nothing closes the scheduler, its tasks stay alive.
pub run-IsServing :
    (actions : List Action) (s : Scheduler)
    → IsOpen actions
    → IsServing s
    → IsServing (run actions s)
unfolding run step
run-IsServing [] s h v = v
run-IsServing (signalled k source origin ∷ rest) s h v =
    run-IsServing rest (signal k source origin s) h (signal-IsServing k source origin s v)
run-IsServing (woken k true ∷ rest) s h v =
    run-IsServing rest (wake k true s).0 h (wake-IsServing k s v)
run-IsServing (woken k false ∷ rest) s h v = absurd h
run-IsServing (turn_over k cancelled ∷ rest) s h v = absurd h
run-IsServing (turn_over k returned ∷ rest) s h v =
    run-IsServing rest (finish k returned s) h
      (finish-IsServing k returned s (λ e. absurd (ground (arith, e))) v)
run-IsServing (turn_over k raised ∷ rest) s h v =
    run-IsServing rest (finish k raised s) h
      (finish-IsServing k raised s (λ e. absurd (ground (arith, e))) v)
run-IsServing (closed ∷ rest) s h v = absurd h

init-IsServing : IsServing init
unfolding lookup
init-IsServing = record { open_still = refl; alive = λ k. tt }

-- Waking the session after a signal and the end of the turn that may have been running.
abbrev pub served : String → SessionSource → Origin → Exit → Scheduler → Option SessionSource
served key source origin exit s = (wake key true (finish key exit (signal key source origin s))).1

ready :
    (exit : Exit) (closing : Bool) (sess : Session)
    → exit ≢ cancelled
    → closing ≡ false
    → sess.phase ≢ ended
    → sess.has_input ≡ true
    → (resume true closing (end_turn exit closing sess)).1 ≡ some sess.source
unfolding resume end_turn
ready returned closing sess kept still live h = ground arith
ready raised closing sess kept still live h = ground arith
ready cancelled closing sess kept still live h = absurd (kept refl)

served_lem :
    (key : String) (source : SessionSource) (origin : Origin) (exit : Exit) (s : Scheduler)
    → exit ≢ cancelled
    → IsServing s
    → served key source origin exit s ≡ some source
served_lem key source origin exit s kept v =
    let sess = notified source origin (session_or_new source (lookup key s.sessions)) in
    let s' = put key sess s in
    let over = end_turn exit s.closing sess in
    let known : lookup key s'.sessions ≡ some sess =
      ground (arith, lookup-insert key key sess s.sessions, ==_refl key) in
    let known' : lookup key (put key over s').sessions ≡ some over =
      ground (arith, lookup-insert key key over s'.sessions, ==_refl key) in
    ap (λ t. (wake key true (finish key exit t)).1) (signal_open key source origin s v.open_still)
    ∙ ap (λ t. (wake key true t).1) (finish_known key exit s' sess known)
    ∙ ap (λ t. t.1) (wake_known key (put key over s') over known')
    ∙ ready exit s.closing sess kept v.open_still
        (alive_session source (lookup key s.sessions) (v.alive key)) refl

-- From the start, after any steps in which nothing closes the scheduler, no tick factory raises and no
-- handler raises `CancelledError`, a signalled session is served: once the turn that may be running
-- has ended, with or without another exception, waking its task starts a turn, if the tick factory
-- makes its event, and the turn gets the source of that signal.
pub served-run :
    (key : String) (source : SessionSource) (origin : Origin) (exit : Exit) (actions : List Action)
    → IsOpen actions
    → exit ≢ cancelled
    → served key source origin exit (run actions init) ≡ some source
served-run key source origin exit actions h kept =
    served_lem key source origin exit (run actions init) kept
      (run-IsServing actions init h init-IsServing)
