-- ===== src/Adapter/Inbound.antt =====
-- adapter.py: `_dispatch_loop` and the start of `_dispatch`: an envelope is decoded, validated under
-- its sender's key, and handed to the handler of its payload's type.
pub mod Pinned
pub mod Routed
use aap_hermes.Prelude.{
  String, ◌≡◌, Bool, not, Option, none, some, List, [], ◌∷◌, ◌&&◌, ◌==◌, ◌>>=◌, if◌then◌else◌,
}
use aap_hermes.Prelude.Text.{is_empty, before, from, drop_text}
use aap_hermes.Prelude.Dict.{Dict, lookup, insert, contains}

-- What the router reads of an envelope of the `aap` package; `json` is the envelope as it came.
pub record Envelope : Type 0 where
  pub iss : String
  pub payload_type : String
  pub json : String

-- The functions of the `aap` package that decode and validate; each is `none` where it raises. A row
-- is what the relay delivers, and a key is its text.
pub record Wire : Type 1 where
  pub Row : Type 0
  -- `json.loads` of the body: whether it is an encrypted envelope
  pub is_encrypted : Row → Option Bool
  pub decrypt_inbound : Row → Option Envelope
  pub from_json : Row → Option Envelope
  -- `validate_inbound_envelope`, which decrypts once more if it is given the body
  pub validate_encrypted : Row → String → Option Envelope
  pub validate_plain : Envelope → String → Option Envelope

-- Validation under a key returns the envelope of the sender whose key it was given.
pub record IsWire (W : Wire) : Type 0 where
  pub iss-validate_encrypted :
      (row : W.Row) (claimed valid : Envelope) (key : String)
      → W.decrypt_inbound row ≡ some claimed
      → W.validate_encrypted row key ≡ some valid
      → valid.iss ≡ claimed.iss
  pub iss-validate_plain :
      (claimed valid : Envelope) (key : String)
      → W.validate_plain claimed key ≡ some valid
      → valid.iss ≡ claimed.iss

-- Where keys are published; each answer is `none` where the call raises.
pub record Directory : Type 0 where
  -- the domains of the trusted verifiers
  pub trust_list : Option (List String)
  pub verifier_key : String → Option (Option String)
  pub resolve_peer : String → Option String

-- The handlers of `_dispatch`; the key is the sender's.
pub record Handlers (A : Type 0) : Type 0 where
  pub group_invitation : Envelope → A → A
  pub group_membership_update : Envelope → A → A
  pub group_leave : Envelope → A → A
  pub group_complete : Envelope → A → A
  pub discovery_introduction_request : Envelope → A → A
  pub service_request : Envelope → A → A
  pub service_response : Envelope → A → A
  pub relationship_proposal : Envelope → A → A
  pub relationship_accept : Envelope → String → A → A
  pub relationship_decline : Envelope → A → A
  pub relationship_revoke : Envelope → String → A → A
  pub service_followup_grant : Envelope → String → A → A
  pub service_followup : Envelope → A → A
  pub chat : Envelope → A → A

-- `localpart, domain = sender.split("^", 1)`: the domain of the sender if it is a verifier.
unfoldable pub verifier_domain : String → Option String
unfolding before from drop_text
verifier_domain sender =
    let domain = drop_text 1 (from b'^' sender) in
    if before b'^' sender == "verifier" && not (is_empty domain) then some domain else none

abbrev known_key : Option (Option String) → Option String
known_key none = none
known_key (some key) = key

trusted_key : Directory → String → Option String
trusted_key dir domain = elim dir.trust_list [
  | none ↦ none
  | some domains ↦ if contains domains domain then known_key (dir.verifier_key domain) else none
]

-- The key that a verifier publishes, if the sender is a trusted one.
unfoldable pub verifier_pub : Directory → String → Option String
unfolding trusted_key verifier_domain
verifier_pub dir sender = elim (verifier_domain sender) [
  | none ↦ none
  | some domain ↦ trusted_key dir domain
]

unfoldable pub published_key : Directory → String → Option String
unfolding verifier_pub
published_key dir sender = elim (verifier_pub dir sender) [
  | some key ↦ some key
  | none ↦ dir.resolve_peer sender
]

-- The sender's key, and the cache `peer_keys`.
unfoldable pub peer_key : Directory → String → Dict String → Option String × Dict String
unfolding published_key lookup insert
peer_key dir sender keys = elim (lookup sender keys) [
  | some key ↦ (some key, keys)
  | none ↦ elim (published_key dir sender) [
    | none ↦ (none, keys)
    | some key ↦ (some key, insert sender key keys)
  ]
]

-- The routing by the type of the payload.
unfoldable pub route : {A : Type 0} → Handlers A → Envelope → String → A → A
route h envelope key s =
    let type = envelope.payload_type in
    if type == "aap.group-invitation/v1"
    then h.group_invitation envelope s
    else if type == "aap.group-membership-update/v1"
    then h.group_membership_update envelope s
    else if type == "aap.group-leave/v1"
    then h.group_leave envelope s
    else if type == "aap.group-complete/v1"
    then h.group_complete envelope s
    else if type == "aap.discovery-introduction-request/v1"
    then h.discovery_introduction_request envelope s
    else if type == "aap.discovery-introduction-response/v1"
    then s
    else if type == "aap.service-request/v1"
    then h.service_request envelope s
    else if type == "aap.service-response/v1"
    then h.service_response envelope s
    else if type == "aap.relationship-proposal/v1"
    then h.relationship_proposal envelope s
    else if type == "aap.relationship-accept/v1"
    then h.relationship_accept envelope key s
    else if type == "aap.relationship-decline/v1"
    then h.relationship_decline envelope s
    else if type == "aap.relationship-revoke/v1"
    then h.relationship_revoke envelope key s
    else if type == "aap.service-followup-grant/v1"
    then h.service_followup_grant envelope key s
    else if type == "aap.service-followup/v1"
    then h.service_followup envelope s
    else h.chat envelope s

module _ (W : Wire) where
  -- The envelope whose sender is still to be verified.
  unfoldable pub claimed : W.Row → Option (Bool × Envelope)
  claimed row = do
    encrypted ← W.is_encrypted row
    envelope ← if encrypted then W.decrypt_inbound row else W.from_json row
    some (encrypted, envelope)

  unfoldable pub validated : W.Row → Bool → Envelope → String → Option Envelope
  validated row encrypted envelope key =
      if encrypted then W.validate_encrypted row key else W.validate_plain envelope key

module _ (W : Wire) {A : Type 0} (h : Handlers A) where
  -- The key cache, and what the handlers work on.
  abbrev pub Held : Type 0
  Held = Dict String × A

  accept_valid : Option Envelope → String → Held → Held
  unfolding route
  accept_valid none key held = held
  accept_valid (some envelope) key (keys, s) = (keys, route h envelope key s)

  accept_keyed : W.Row → Bool → Envelope → Option String × Dict String → A → Held
  unfolding accept_valid validated
  accept_keyed row encrypted envelope (none, keys) s = (keys, s)
  accept_keyed row encrypted envelope (some key, keys) s =
      accept_valid (validated W row encrypted envelope key) key (keys, s)

  -- `_dispatch`
  unfoldable pub dispatch : Directory → W.Row → Held → Held
  unfolding accept_keyed claimed peer_key
  dispatch dir row (keys, s) = elim (claimed W row) [
    | none ↦ (keys, s)
    | some (encrypted, envelope) ↦
        accept_keyed row encrypted envelope (peer_key dir envelope.iss keys) s
  ]

  -- `_dispatch_loop`: the rows in their order, each with what the directory answers then.
  unfoldable pub dispatch_loop : List (Directory × W.Row) → Held → Held
  unfolding dispatch
  dispatch_loop [] held = held
  dispatch_loop ((dir, row) ∷ rows) held = dispatch_loop rows (dispatch dir row held)
