-- ===== src/Adapter/Introductions/Prompt.antt =====
-- discovery.py: `render_introduction_prompt`, the question that the user is asked about a peer that
-- looks for our agent.
use aap_hermes.Prelude.{String, Option, none, some, List, [], ◌∷◌, ◌++◌, if◌then◌else◌, map}
use aap_hermes.Prelude.Text.{◌<>◌, is_empty}
use aap_hermes.Prelude.Text.Joined.{concat, join}
use aap_hermes.Contacts.{Contact}
use aap_hermes.Adapter.GroupNote.{is_nil}
use aap_hermes.Adapter.Identities.{Identity, first_match}

-- The arguments of the prompt.
pub record Searcher : Type 0 where
  pub address : String
  pub label : Option String
  pub identities : List Identity
  pub verifier_domain : String
  pub nonce : String

saved_line : (String → String) → Option String → List String
unfolding concat
saved_line repr none = []
saved_line repr (some label) =
    if is_empty label then [] else (concat ("   they have you saved as: " ∷ (repr label) ∷ [])) ∷ []

mutual_lines : (String → String) → Searcher → Identity → String → List String
unfolding saved_line concat
mutual_lines repr s i name =
    (concat ("🔍 " ∷ name ∷ " (mutual contact) is trying to find your agent." ∷ []))
    ∷ (concat ("   peer address: " ∷ s.address ∷ []))
    ∷ (concat (
        "   matched identity: " ∷ i.type ∷ "=" ∷ i.value ∷ " (you have them in your contacts)"
        ∷ []))
    ∷ (saved_line repr s.label ++ (concat ("   verified by: " ∷ s.verifier_domain ∷ [])) ∷ [])

attested_lines : (String → String) → Searcher → List String
unfolding saved_line concat join
attested_lines repr s =
    let ident_summary =
      join ", " (map (λ i. (concat (i.type ∷ "=" ∷ i.value ∷ []))) s.identities) in
    "🔍 An unrecognized agent is trying to find your agent."
    ∷ "   no contact match for their verified identifiers."
    ∷ (concat ("   peer address: " ∷ s.address ∷ []))
    ∷ (concat ("   verified identifiers: " ∷ ident_summary ∷ []))
    ∷ (concat ("   verified by: " ∷ s.verifier_domain ∷ []))
    ∷ saved_line repr s.label

unverified_lines : (String → String) → Searcher → List String
unfolding saved_line concat
unverified_lines repr s =
    "⚠\u{fe0f} An unverified agent is trying to find your agent."
    ∷ "   they attached NO verification attestations."
    ∷ (concat ("   peer address: " ∷ s.address ∷ []))
    ∷ (concat ("   relayed via: " ∷ s.verifier_domain ∷ []))
    ∷ (saved_line repr s.label ++ "   recommendation: decline by default; consider blocking." ∷ [])

unmatched_lines : (String → String) → Searcher → List String
unfolding attested_lines unverified_lines
unmatched_lines repr s =
    if is_nil s.identities then unverified_lines repr s else attested_lines repr s

-- The contact that the prompt names: one with an empty name counts as none.
unfoldable pub mutual_contact :
    (String → String) → List Contact → List Identity → Option (Identity × String)
unfolding first_match
mutual_contact lower contacts identities = elim (first_match lower contacts identities) [
  | none ↦ none
  | some (i, c) ↦ if is_empty c.display_name then none else some (i, c.display_name)
]

header_lines : (String → String) → Searcher → Option (Identity × String) → List String
unfolding mutual_lines unmatched_lines
header_lines repr s none = unmatched_lines repr s
header_lines repr s (some (i, name)) = mutual_lines repr s i name

block_offer : Searcher → Option (Identity × String) → List String
block_offer s none = "Reply `block` to silence this searcher forever." ∷ []
block_offer s (some (i, name)) = []

block_command : Searcher → Option (Identity × String) → String
unfolding concat
block_command s none = (concat ("  /  /aap discover block " ∷ s.address ∷ ")" ∷ []))
block_command s (some (i, name)) = ")"

unfoldable pub render_introduction_prompt :
    (String → String) → (String → String) → List Contact → Searcher → String
unfolding header_lines block_offer block_command mutual_contact concat join ◌<>◌
render_introduction_prompt lower repr contacts s =
    let named = mutual_contact lower contacts s.identities in
    let command =
      (concat (
        "(explicit: /aap discover approve " ∷ s.nonce ∷ "  /  /aap discover deny " ∷ s.nonce
        ∷ [])) in
    join "\n" (
      header_lines repr s named
      ++ (""
          ∷ "Reply `approve` or `deny`."
          ∷ (block_offer s named ++ (command <> block_command s named) ∷ [])))
