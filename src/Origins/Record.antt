-- ===== src/Origins/Record.antt =====
-- service_request_origins.py: `record` against the view of the live entries.
use aap_hermes.Prelude.{
  ℕ, ◌≤◌, String, ◌≡◌, ◌≢◌, some, [], arith, if◌then◌else◌, inl, inr, Option-cases,
}
use aap_hermes.Prelude.Dict.{Dict, lookup, insert}
use aap_hermes.Origins.{
  Calendar, Entry, RequestOrigin, object, entries, naive, created, File, load, writable, save,
  asdict, record_origin, sent,
}
use aap_hermes.Origins.Prune.{
  kept, prune-kept, kept-kept, kept-IsDated, insert-IsDated, lookup-kept-insert,
}
use aap_hermes.Origins.View.{live, IsWellFormed, is_free, after_record}

module _ (cal : Calendar) (ttl now : ℕ) (nonce : String) (o : RequestOrigin) (file : File) where
  abbrev stored : Dict Entry
  stored = insert nonce (object (asdict o)) (kept cal ttl now (load file))

  -- The file after `record`.
  unfoldable pub recorded : File
  recorded =
      if is_free cal ttl now file nonce
      then entries stored
      else entries (kept cal ttl now (load file))

  -- What `record` returns, writes and logs, when the write succeeds.
  pub record-result :
      IsWellFormed cal ttl file
      → record_origin cal ttl now writable nonce o file
        ≡ some (
          recorded,
          is_free cal ttl now file nonce,
          if is_free cal ttl now file nonce then sent nonce o else [],
        )
  unfolding record_origin recorded is_free save live
  record-result h = rw (prune-kept cal ttl now (load file) h) (ground arith)

  pub recorded-IsWellFormed :
      IsWellFormed cal ttl file
      → created cal ttl (object (asdict o)) ≢ naive
      → IsWellFormed cal ttl recorded
  unfolding recorded load
  recorded-IsWellFormed h c = ground (
    arith,
    kept-IsDated cal ttl now (load file) h,
    insert-IsDated cal ttl nonce (object (asdict o)) (kept cal ttl now (load file)) c,
  )

  -- What is live under a nonce at a later time: if the nonce was free, the new origin under it, for
  -- as long as it is within its time to live; otherwise, and under every other nonce, what was live
  -- there before.
  pub live-recorded :
      (later : ℕ) (j : String)
      → now ≤ later
      → live cal ttl later recorded j
        ≡ after_record cal ttl (is_free cal ttl now file nonce) later file nonce o j
  unfolding recorded is_free after_record load live
  live-recorded later j h = elim (Option-cases (lookup nonce (kept cal ttl now (load file)))) [
    | inl free ↦ ground (
      arith,
      lookup-kept-insert cal ttl later nonce j (object (asdict o)) (kept cal ttl now (load file)),
      kept-kept cal ttl now later (load file) h,
    )
    | inr (e, held) ↦ ground (arith, kept-kept cal ttl now later (load file) h)
  ]
