-- ===== src/Origins.antt =====
-- service_request_origins.py: the persisted index from the nonce of an outbound service request to
-- the session that made it. A method that raises is `none`, and leaves the file as it was.
pub mod Fields
pub mod Decode
pub mod Prune
pub mod View
pub mod Record
pub mod Pop
pub mod Life
unfoldable pub use aap_hermes.Origins.Fields.*
use aap_hermes.Prelude.{
  ◌>>=◌, ℕ, ◌+◌, String, Bool, true, false, Option, none, some, List, [], ◌∷◌, ltb, is_some, ◌==◌,
  if◌then◌else◌, ◌≡◌,
}
use aap_hermes.Prelude.Text.{replace, is_empty}
use aap_hermes.Prelude.Dict.{Dict, contains, lookup, insert, erase}
use aap_hermes.Gateway.{Platform, SessionSource}

-- The file: absent, unreadable or no JSON, JSON of another shape, or a dict.
pub data File : Type 0 where
  missing : File
  corrupt : File
  wrong_shape : File
  entries : Dict Entry → File

unfoldable pub load : File → Dict Entry
load missing = []
load corrupt = []
load wrong_shape = []
load (entries d) = d

-- What a write meets: success, an `OSError` of the write, which `_save` catches, or one of
-- `mkdir`, which it does not.
pub data Disk : Type 0 where
  writable : Disk
  full : Disk
  no_parent : Disk

unfoldable pub save : Disk → Dict Entry → File → Option File
save writable d file = some (entries d)
save full d file = some file
save no_parent d file = none

-- A line of the scenario log.
pub record Logged : Type 0 where
  pub kind : String
  pub layer : String
  pub parent_conv_id : Value
  pub nonce : String
  pub service_address : Value

abbrev pub logged : String → String → String → RequestOrigin → Logged
logged kind layer nonce o = record {
  kind = kind;
  layer = layer;
  parent_conv_id = o.group_conversation_id;
  nonce = nonce;
  service_address = o.target_address;
}

abbrev pub Outcome : Type 0 → Type 0
Outcome A = Option (File × A × List Logged)

abbrev pub sent : String → RequestOrigin → List Logged
sent nonce o =
    logged "service_request_sent" "raw" nonce o ∷ logged "service_call_started" "named" nonce o ∷ []

unfoldable pub record_new : Disk → String → RequestOrigin → Dict Entry → File → Outcome Bool
record_new disk nonce origin d file = do
  file' ← save disk (insert nonce (object (asdict origin)) d) file
  some (file', true, sent nonce origin)

-- `isinstance(entry, dict) and entry.get("target_address") == expected_iss`
unfoldable pub targets : String → Entry → Bool
targets iss other = false
targets iss (object d) = elim (lookup "target_address" d >>= as_text) [
  | none ↦ false
  | some s ↦ s == iss
]

abbrev pub fields_of : Entry → Dict Value
fields_of other = []
fields_of (object d) = d

abbrev pub completed : String → Option RequestOrigin → List Logged
completed nonce none = []
completed nonce (some o) =
    logged "service_response_received" "raw" nonce o
    ∷ logged "service_call_completed" "named" nonce o
    ∷ []

-- The branch of `pop_if` for an entry that was found.
unfoldable pub pop_entry :
    Disk → String → String → Dict Entry → File → Entry → Outcome (Option RequestOrigin)
unfolding targets
pop_entry disk nonce iss d file e =
    if targets iss e
    then (do
      file' ← save disk (erase nonce d) file
      some (file', from_dict (fields_of e), completed nonce (from_dict (fields_of e))))
    else (do file' ← save disk d file; some (file', none, []))

module _ (cal : Calendar) (ttl : ℕ) where
  unfoldable pub parse_iso : Option Value → Stamp
  parse_iso (some (text s)) = cal.fromisoformat (replace "Z" "+00:00" s)
  parse_iso (some null) = invalid
  parse_iso (some (json n)) = invalid
  -- the default "" of `entry.get("created_at", "")`
  parse_iso none = cal.fromisoformat (replace "Z" "+00:00" "")

  unfoldable pub created : Entry → Stamp
  unfolding parse_iso
  created (object d) = parse_iso (lookup "created_at" d)
  created other = cal.fromisoformat (replace "Z" "+00:00" "")

  -- `created is None or created < now - ttl`, negated; comparing a time with no zone raises.
  abbrev keeps : ℕ → Stamp → Option Bool
  keeps now invalid = some false
  keeps now naive = none
  keeps now (aware t) = some (if ltb (t + ttl) now then false else true)

  unfoldable pub prune : ℕ → Dict Entry → Option (Dict Entry)
  prune now [] = some []
  prune now ((nonce, e) ∷ d) = do
    keep ← keeps now (created e)
    kept ← prune now d
    some (if keep then (nonce, e) ∷ kept else kept)

  unfoldable pub record_origin : ℕ → Disk → String → RequestOrigin → File → Outcome Bool
  unfolding record_new
  record_origin now disk nonce origin file = do
    d ← prune now (load file)
    if is_some (lookup nonce d)
        then (do file' ← save disk d file; some (file', false, []))
        else record_new disk nonce origin d file

  unfoldable pub pop_if : ℕ → Disk → String → String → File → Outcome (Option RequestOrigin)
  unfolding pop_entry
  pop_if now disk nonce iss file = do
    d ← prune now (load file)
    elim (lookup nonce d) [
      | none ↦ (do file' ← save disk d file; some (file', none, []))
      | some e ↦ pop_entry disk nonce iss d file e
    ]
