-- ===== src/Adapter/Relationships.antt =====
-- adapter.py: the handlers of the relationship payloads that answer or end a relationship. Each
-- returns the stores and the notices that it mirrors; a payload that cannot be decoded is `none`.
pub mod Consent
use aap_hermes.Prelude.{
  String, Bool, true, false, Option, none, some, List, [], ◌∷◌, ◌==◌, if◌then◌else◌,
}
use aap_hermes.Prelude.Text.{is_empty}
use aap_hermes.Prelude.Text.Joined.{concat}
use aap_hermes.Adapter.Stores.{RelationshipStore, ProposalStore, Proposal, Notice, inbound_notice}

pub record RelationshipAccept : Type 0 where
  pub proposal_nonce : String

pub record RelationshipDecline : Type 0 where
  pub proposal_nonce : String
  pub reason : String

pub record RelationshipRevoke : Type 0 where
  pub relationship_type : String

unfoldable pub established_message : String → Proposal → String
unfolding concat
established_message iss row =
    (concat ("✅ Relationship established: " ∷ row.relationship_type ∷ " with " ∷ iss ∷ []))

unfoldable pub declined_message : String → RelationshipDecline → String
unfolding concat
declined_message iss dec =
    let reason_suffix =
      if is_empty dec.reason then "" else (concat (" (" ∷ dec.reason ∷ ")" ∷ [])) in
    (concat ("🚫 Relationship proposal declined by " ∷ iss ∷ reason_suffix ∷ []))

unfoldable pub revoked_message : String → RelationshipRevoke → String
unfolding concat
revoked_message iss rev =
    (concat ("⛔ " ∷ iss ∷ " revoked the " ∷ rev.relationship_type ∷ " relationship." ∷ []))

-- Who we are, as the store verifies envelopes.
pub record Self : Type 0 where
  pub address : String
  pub public_key : String

module _ (R : RelationshipStore) (P : ProposalStore) where
  pub record Stores : Type 0 where
    pub relationships : R.State
    pub proposals : P.State

  abbrev pub Handled : Type 0
  Handled = Stores × List Notice

  unfoldable pub established : String → Proposal → Stores → Option R.State → Handled
  established iss row st none = (st, [])
  established iss row st (some r) =
      (record st { relationships = r }, inbound_notice iss (established_message iss row) ∷ [])

  unfoldable pub accept_row : Self → String → String → String → Stores → Option Proposal → Handled
  unfolding established
  accept_row me iss json peer_key st none = (st, [])
  accept_row me iss json peer_key st (some row) =
      if row.peer_address == iss
      then established iss row st (
          R.establish me.address iss row.proposal_envelope_json json me.public_key peer_key
            st.relationships)
      else (st, [])

  unfoldable pub handle_relationship_accept :
      Self → String → String → String → Option RelationshipAccept → Stores → Handled
  unfolding accept_row
  handle_relationship_accept me iss json peer_key none st = (st, [])
  handle_relationship_accept me iss json peer_key (some acc) st =
      let (p, row) = P.take_outbound acc.proposal_nonce st.proposals in
      accept_row me iss json peer_key (record st { proposals = p }) row

  unfoldable pub handle_relationship_decline :
      String → Option RelationshipDecline → Stores → Handled
  handle_relationship_decline iss none st = (st, [])
  handle_relationship_decline iss (some dec) st =
      let (p, row) = P.take_outbound dec.proposal_nonce st.proposals in
      (
        record st { proposals = p },
        elim row [ none ↦ [] | some taken ↦ inbound_notice iss (declined_message iss dec) ∷ [] ],
      )

  unfoldable pub handle_relationship_revoke :
      Self → String → String → String → Option RelationshipRevoke → Stores → Handled
  handle_relationship_revoke me iss json peer_key none st = (st, [])
  handle_relationship_revoke me iss json peer_key (some rev) st =
      let (r, removed) = R.revoke me.address iss json peer_key st.relationships in
      (
        record st { relationships = r },
        if removed then inbound_notice iss (revoked_message iss rev) ∷ [] else [],
      )
