-- ===== src/Origins/Pop.antt =====
-- service_request_origins.py: `pop_if` against the view of the live entries.
use aap_hermes.Prelude.{
  ◌>>=◌, ℕ, ◌≤◌, String, ◌≡◌, Option, none, some, arith, ◌==◌, ◌&&◌, is_some, if◌then◌else◌,
}
use aap_hermes.Prelude.Dict.{erase}
use aap_hermes.Origins.{
  Calendar, RequestOrigin, entries, File, load, writable, save, from_dict, fields_of, completed,
  pop_if,
}
use aap_hermes.Origins.Prune.{
  kept, prune-kept, kept-kept, kept-IsDated, erase-IsDated, lookup-kept-erase,
}
use aap_hermes.Origins.View.{live, IsWellFormed, taken}

module _ (cal : Calendar) (ttl now : ℕ) (nonce iss : String) (file : File) where
  -- The file after `pop_if`.
  unfoldable pub popped : File
  popped =
      if is_some (taken cal ttl now file nonce iss)
      then entries (erase nonce (kept cal ttl now (load file)))
      else entries (kept cal ttl now (load file))

  -- The origin that `pop_if` returns.
  unfoldable pub answer : Option RequestOrigin
  answer = taken cal ttl now file nonce iss >>= λ e. from_dict (fields_of e)

  pub pop_if-result :
      IsWellFormed cal ttl file
      → pop_if cal ttl now writable nonce iss file ≡ some (popped, answer, completed nonce answer)
  unfolding pop_if popped answer taken save
  pop_if-result h = rw (prune-kept cal ttl now (load file) h) (ground arith)

  pub popped-IsWellFormed : IsWellFormed cal ttl file → IsWellFormed cal ttl popped
  unfolding popped load
  popped-IsWellFormed h = ground (
    arith,
    kept-IsDated cal ttl now (load file) h,
    erase-IsDated cal ttl nonce (kept cal ttl now (load file)),
  )

  -- What is live under a nonce at a later time: what was live there before, but nothing under the
  -- nonce of the call if the call took its entry.
  pub live-popped :
      (later : ℕ) (j : String)
      → now ≤ later
      → live cal ttl later popped j ≡ (
          if is_some (taken cal ttl now file nonce iss) && nonce == j
          then none
          else live cal ttl later file j)
  unfolding popped load live
  live-popped later j h = ground (
    arith,
    lookup-kept-erase cal ttl later nonce j (kept cal ttl now (load file)),
    kept-kept cal ttl now later (load file) h,
  )
