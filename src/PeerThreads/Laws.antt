-- ===== src/PeerThreads/Laws.antt =====
-- What `last_inbound_thread` answers after `record_inbound_thread`.
use aap_hermes.Prelude.{
  String, ◌≡◌, refl, true, Option, none, some, arith, [], ◌==◌, ==_iff, inl, inr, Option-cases,
  if◌then◌else◌,
}
use aap_hermes.Prelude.Text.{is_empty}
use aap_hermes.Prelude.Dict.{lookup, lookup-insert}
use aap_hermes.PeerThreads.{
  File, missing, no_object, no_threads, threads, load, record_inbound_thread, last_inbound_thread,
}

lookup_nil : (k : String) → lookup {V = String} k [] ≡ none
unfolding lookup
lookup_nil k = refl

-- the thread that an inbound message leaves for a peer, from the one before
abbrev pub remembered : Option String → Option String → Option String
remembered none old = old
remembered (some t) old = if is_empty t then old else some t

-- If the write succeeds, the call leaves every peer its thread, but the sender of a message with a
-- thread that thread; a message with none, or with an empty one, changes nothing. Reading raises
-- exactly if it raised before.
last_inbound_thread-record_inbound_thread :
    (peer other : String) (t : Option String) (file after : File)
    → record_inbound_thread true peer t file ≡ some after
    → last_inbound_thread other after ≡ (
        if peer == other
        then elim (last_inbound_thread other file) [
          | none ↦ none
          | some old ↦ some (remembered t old)
        ]
        else last_inbound_thread other file)
unfolding record_inbound_thread last_inbound_thread load
last_inbound_thread-record_inbound_thread peer other none file after h =
    ground (arith, ==_iff peer other)
last_inbound_thread-record_inbound_thread peer other (some t) missing after h =
    ground
      (arith, ==_iff peer other, lookup-insert peer other t [], lookup_nil peer, lookup_nil other)
last_inbound_thread-record_inbound_thread peer other (some t) no_object after h =
    ground (arith, ==_iff peer other)
last_inbound_thread-record_inbound_thread peer other (some t) no_threads after h =
    ground
      (arith, ==_iff peer other, lookup-insert peer other t [], lookup_nil peer, lookup_nil other)
last_inbound_thread-record_inbound_thread peer other (some t) (threads d) after h =
    elim (Option-cases (lookup peer d)) [
      | inl new ↦ ground (arith, ==_iff peer other, lookup-insert peer other t d)
      | inr (old, known) ↦
          ground (arith, ==_iff peer other, ==_iff old t, lookup-insert peer other t d)
    ]
