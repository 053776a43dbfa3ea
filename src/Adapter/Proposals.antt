-- ===== src/Adapter/Proposals.antt =====
-- adapter.py: `_handle_relationship_proposal`, which parks a proposal and asks the user.
use aap_hermes.Prelude.{String, Option, none, some, List, [], ◌∷◌, ◌++◌, ◌==◌, if◌then◌else◌, map}
use aap_hermes.Prelude.Text.{is_empty}
use aap_hermes.Prelude.Text.Joined.{concat, join}
use aap_hermes.Contacts.{Contact}
use aap_hermes.Adapter.Stores.{ProposalStore, Notice, inbound_notice}
use aap_hermes.Adapter.Identities.{
  Verification, Identity, verify_identity_attestations, first_match,
}

pub record RelationshipProposal : Type 0 where
  pub nonce : String
  pub relationship_type : String
  pub resource : Option String
  pub identity_attestations : List String

resource_suffix : Option String → String
unfolding concat
resource_suffix none = ""
resource_suffix (some r) = if is_empty r then "" else (concat (" (resource: " ∷ r ∷ ")" ∷ []))

abbrev repr_of : (String → String) → Option String → String
repr_of repr none = "None"
repr_of repr (some r) = repr r

-- The lines that say what the type of the relationship gives the peer.
proposal_header : (String → String) → String → RelationshipProposal → List String
unfolding concat resource_suffix
proposal_header repr iss prop =
    if prop.relationship_type == "admin"
    then ("⚠\u{fe0f}⚠\u{fe0f}⚠\u{fe0f}  ADMIN RELATIONSHIP PROPOSAL  ⚠\u{fe0f}⚠\u{fe0f}⚠\u{fe0f}"
        ∷ ""
        ∷ (concat ("   " ∷ iss ∷ []))
        ∷ "   wants ADMIN access to this agent."
        ∷ ""
        ∷ "*** WARNING ***"
        ∷ (concat (
            "Approving this gives the peer agent FULL TOOL-CALL ACCESS to this agent "
            ∷ "on your behalf — it can read your calendar, send messages from you, run "
            ∷ "terminal commands, access your files, spend money on connected "
            ∷ "services, and do anything this agent can do. There is no per-action "
            ∷ "confirmation after this point." ∷ []))
        ∷ ""
        ∷ (concat (
            "Only approve if YOU PERSONALLY CONTROL BOTH AGENTS. This relationship "
            ∷ "type exists for the 'same human, multiple agents' case (e.g. your "
            ∷ "laptop bot + your phone bot). If the proposing agent is operated by "
            ∷ "anyone else — even someone you trust — DENY this and ask for a 'friend' "
            ∷ "relationship instead, which only allows chat." ∷ []))
        ∷ ""
        ∷ [])
    else if prop.relationship_type == "team"
    then ("⚠\u{fe0f}  Team relationship proposal"
        ∷ ""
        ∷ (concat ("   " ∷ iss ∷ []))
        ∷ (concat (
            "   wants a team relationship scoped to resource="
            ∷ (repr_of repr prop.resource)
            ∷ "."
            ∷ []))
        ∷ ""
        ∷ (concat (
            "Team relationships allow scoped tool calls limited to the shared "
            ∷ "resource. Only approve if both agents legitimately share access to that "
            ∷ "resource and you trust the peer with operations bounded by it." ∷ []))
        ∷ ""
        ∷ [])
    else ((concat ("🤝 Relationship proposal from " ∷ iss ∷ []))
        ∷ (concat ("   Type: " ∷ prop.relationship_type ∷ (resource_suffix prop.resource) ∷ []))
        ∷ [])

identity_lines : List Identity → List String
unfolding concat
identity_lines [] = "   Verified identities: NONE attached" ∷ []
identity_lines (i ∷ rest) =
    "   Verified identities (signed by trusted verifier):"
    ∷ map
        (λ ident.
          (concat
            ("      • " ∷ ident.type ∷ ": " ∷ ident.value ∷ "  (via " ∷ ident.verifier ∷ ")" ∷ [])))
        (i ∷ rest)

-- the display name of the contact that an identity belongs to, unless it is empty
contact_line : Option (Identity × Contact) → List String
unfolding concat
contact_line none = []
contact_line (some (i, c)) =
    if is_empty c.display_name
    then []
    else (concat ("   Matches your contact: \"" ∷ c.display_name ∷ "\"" ∷ [])) ∷ []

unfoldable pub proposal_prompt :
    (String → String)
    → (String → String)
    → List Contact
    → List Identity
    → String
    → RelationshipProposal
    → String
unfolding concat join proposal_header identity_lines contact_line
proposal_prompt lower repr contacts identities iss prop = join "\n" (
    proposal_header repr iss prop
    ++ (identity_lines identities
        ++ (contact_line (first_match lower contacts identities)
            ++ ((concat ("   Nonce: " ∷ prop.nonce ∷ []))
                ∷ ""
                ∷ "Reply `approve` or `deny`."
                ∷ (concat (
                    "(or explicitly: /aap friend-accept " ∷ prop.nonce ∷ " / /aap friend-decline "
                    ∷ prop.nonce ∷ ")" ∷ []))
                ∷ []))))

module _ (V : Verification) (P : ProposalStore) (lower repr : String → String) where
  -- The proposal is `none` if it cannot be decoded, and the contacts if `ContactSource.load` raises,
  -- which ends the handler.
  unfoldable pub handle_relationship_proposal :
      Option (List Contact)
      → String
      → String
      → Option RelationshipProposal
      → P.State
      → P.State × List Notice
  handle_relationship_proposal contacts iss json none s = (s, [])
  handle_relationship_proposal contacts iss json (some prop) s = elim contacts [
    | none ↦ (s, [])
    | some known ↦ (
      P.record_inbound prop.nonce
          (record {
            peer_address = iss;
            relationship_type = prop.relationship_type;
            resource = prop.resource;
            proposal_envelope_json = json;
          })
          s,
      inbound_notice iss (
            proposal_prompt lower repr known
              (verify_identity_attestations V iss prop.identity_attestations) iss prop)
          ∷ [],
    )
  ]
