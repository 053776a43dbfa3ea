-- ===== src/Adapter/Handlers/Established.antt =====
-- adapter.py: what can change our relationships when messages come in.
use aap_hermes.Prelude.{
  String, ◌≡◌, refl, sym, ap, subst, Option, some, arith, ◌==◌, ==_iff, Option-cases, Bool-cases,
  inl, inr, ◌⊎◌,
}
use aap_hermes.Adapter.Stores.{ConversationStore, RelationshipStore, Proposal, ProposalStore}
use aap_hermes.Adapter.Identities.{Verification}
use aap_hermes.Adapter.Relationships.{
  RelationshipAccept, RelationshipRevoke, handle_relationship_accept, handle_relationship_decline,
  handle_relationship_revoke,
}
use aap_hermes.Adapter.Introductions.{IntroductionStore, Sdk}
use aap_hermes.Adapter.Followups.{GrantStore}
use aap_hermes.Adapter.Handlers.{Payloads, Host, Inbox, handlers}
use aap_hermes.Adapter.Inbound.{Envelope, Wire, IsWire, Directory, Handlers, Held, route, dispatch}
use aap_hermes.Adapter.Inbound.Routed.{route_elim}
use aap_hermes.Adapter.Inbound.Pinned.{IsHandled, dispatch_validates}

module _ (C : ConversationStore) (R : RelationshipStore) (P : ProposalStore) (I : IntroductionStore)
    (G : GrantStore) (V : Verification) (sdk : Sdk) (dir : Directory) (read : Payloads)
    (host : Host) (turn answer : Envelope → Inbox C R P I G → Inbox C R P I G) where
  abbrev pub adapter : Handlers (Inbox C R P I G)
  adapter = handlers C R P I G V sdk dir read host turn answer

  module _ (e : Envelope) (key : String) (s : Inbox C R P I G) where
    -- The sender accepts a pending proposal that we sent to it, and the store takes both envelopes.
    pub record IsAccepted (after : Inbox C R P I G) : Type 0 where
      pub typed : e.payload_type ≡ "aap.relationship-accept/v1"
      pub accept : RelationshipAccept
      pub row : Proposal
      pub decoded : read.relationship_accept e ≡ some accept
      pub pending : (P.take_outbound accept.proposal_nonce s.stores.proposals).1 ≡ some row
      pub addressed : row.peer_address ≡ e.iss
      pub established :
          R.establish host.me.address e.iss row.proposal_envelope_json e.json host.me.public_key key
            s.stores.relationships
          ≡ some after.stores.relationships

    -- The sender revokes what it has with us.
    pub record IsRevoked (after : Inbox C R P I G) : Type 0 where
      pub typed : e.payload_type ≡ "aap.relationship-revoke/v1"
      pub revoke : RelationshipRevoke
      pub decoded : read.relationship_revoke e ≡ some revoke
      pub removed :
          after.stores.relationships
          ≡ (R.revoke host.me.address e.iss e.json key s.stores.relationships).0

    -- The relationships are the same, or they changed for one of these reasons.
    abbrev pub IsJustified : Inbox C R P I G → Type 0
    IsJustified after =
        (after.stores.relationships ≡ s.stores.relationships)
        ⊎ (IsAccepted after)
        ⊎ (IsRevoked after)
        ⊎ (after ≡ turn e s)
        ⊎ ((e.payload_type ≡ "aap.service-response/v1") × (after ≡ answer e s))

    abbrev establish_with : RelationshipAccept → Proposal → Option R.State
    establish_with acc row =
        R.establish host.me.address e.iss row.proposal_envelope_json e.json host.me.public_key key
          s.stores.relationships

    accept-IsJustified :
        e.payload_type ≡ "aap.relationship-accept/v1"
        → IsJustified (adapter.relationship_accept e key s)
    unfolding handle_relationship_accept
    accept-IsJustified typed = elim (Option-cases (read.relationship_accept e)) [
      | inl malformed ↦ inl (ground (arith, malformed))
      | inr (acc, decoded) ↦
          elim (Option-cases (P.take_outbound acc.proposal_nonce s.stores.proposals).1) [
            | inl missing ↦ inl (ground (arith, decoded, missing))
            | inr (row, pending) ↦ elim (Bool-cases (row.peer_address == e.iss)) [
              | inr other ↦ inl (ground (arith, decoded, pending, other))
              | inl same ↦ elim (Option-cases (establish_with acc row)) [
                | inl refused ↦ inl (ground (arith, decoded, pending, same, refused))
                | inr (r, grown) ↦ inr (
                    inl record {
                      typed = typed;
                      accept = acc;
                      row = row;
                      decoded = decoded;
                      pending = pending;
                      addressed = (==_iff row.peer_address e.iss).0 same;
                      established = ground (arith, decoded, pending, same, grown);
                    })
              ]
            ]
          ]
    ]

    decline-IsJustified : IsJustified (adapter.relationship_decline e s)
    unfolding handle_relationship_decline
    decline-IsJustified = elim (Option-cases (read.relationship_decline e)) [
      | inl malformed ↦ inl (ground (arith, malformed))
      | inr (dec, decoded) ↦ inl (ground (arith, decoded))
    ]

    revoke-IsJustified :
        e.payload_type ≡ "aap.relationship-revoke/v1"
        → IsJustified (adapter.relationship_revoke e key s)
    unfolding handle_relationship_revoke
    revoke-IsJustified typed = elim (Option-cases (read.relationship_revoke e)) [
      | inl malformed ↦ inl (ground (arith, malformed))
      | inr (rev, decoded) ↦ inr (
          inr (
            inl record {
              typed = typed;
              revoke = rev;
              decoded = decoded;
              removed = ground (arith, decoded);
            }))
    ]

    route-IsJustified : IsJustified (route adapter e key s)
    route-IsJustified =
        route_elim IsJustified adapter e key s (λ t. inl refl) (λ t. inl refl) (λ t. inl refl)
          (λ t. inl refl) (λ t. inl refl) (λ t. inl refl) (λ t. inl refl)
          (λ t. inr (inr (inr (inr (t, refl))))) (λ t. inl refl) accept-IsJustified
          (λ t. decline-IsJustified) revoke-IsJustified (λ t. inl refl) (λ t. inl refl)
          (inr (inr (inr (inl refl))))

  -- A row that is dispatched leaves the relationships as they are, unless it is an envelope that
  -- validates under the key that the cache has for its sender, and one of these holds: the sender
  -- accepts a proposal that we sent to it and that is pending, and the store establishes the
  -- relationship from the two envelopes under the two keys; the sender revokes what it has with us;
  -- or the state is what the turn of a chat message or of a service's answer makes of it.
  pub dispatch-IsJustified :
      (W : Wire) (L : IsWire W) (row : W.Row) (held : Held W adapter)
      → ((dispatch W adapter dir row held).1.stores.relationships ≡ held.1.stores.relationships)
        ⊎ ((e : Envelope) × (h : IsHandled W L adapter row e held (dispatch W adapter dir row held))
            × IsJustified e h.key held.1 (dispatch W adapter dir row held).1)
  dispatch-IsJustified W L row held = elim (dispatch_validates W L adapter dir row held) [
    | inl ignored ↦ inl (ap (λ s. s.stores.relationships) ignored)
    | inr (e, h) ↦ inr (
      e,
      h,
      subst (IsJustified e h.key held.1) (sym h.handled) (route-IsJustified e h.key held.1),
    )
  ]
