-- ===== src/Origins/View.antt =====
-- What a caller can see of the index: the live entry of each nonce.
use aap_hermes.Prelude.{
  ℕ, String, Bool, true, false, ◌&&◌, Option, none, some, ◌==◌, is_some, if◌then◌else◌,
}
use aap_hermes.Prelude.Dict.{lookup}
use aap_hermes.Origins.{Calendar, Entry, RequestOrigin, object, File, load, asdict, targets}
use aap_hermes.Origins.Prune.{is_live, kept, IsDated}

module _ (cal : Calendar) (ttl : ℕ) where
  unfoldable pub live : ℕ → File → String → Option Entry
  live now file k = lookup k (kept cal ttl now (load file))

  -- No stored time lacks its zone, so that no method raises on a comparison.
  abbrev pub IsWellFormed : File → Type 0
  IsWellFormed file = IsDated cal ttl (load file)

  -- Recording: the nonce was free.
  unfoldable pub is_free : ℕ → File → String → Bool
  unfolding live
  is_free now file k = if is_some (live now file k) then false else true

  -- What is live under a key after a new entry was put under `nonce`, if `stored` says so.
  unfoldable pub after_record : Bool → ℕ → File → String → RequestOrigin → String → Option Entry
  unfolding live
  after_record stored later file nonce o j =
      if stored && nonce == j
      then (if is_live cal ttl later (object (asdict o)) then some (object (asdict o)) else none)
      else live later file j

  -- The entry that a response of this issuer takes.
  unfoldable pub taken : ℕ → File → String → String → Option Entry
  unfolding live
  taken now file nonce iss = elim (live now file nonce) [
    | none ↦ none
    | some e ↦ if targets iss e then some e else none
  ]
