-- ===== src/Consent.antt =====
-- consent.py: the question whether a peer is one of the user's contacts.
use aap_hermes.Prelude.{String, [], ◌∷◌, if◌then◌else◌}
use aap_hermes.Prelude.Text.{is_empty, from, drop_text}
use aap_hermes.Prelude.Text.Joined.{concat}

-- `address.split("^", 1)[1]`, or the address if it has no `^`
unfoldable pub domain_of : String → String
unfolding from drop_text
domain_of address =
    let rest = from b'^' address in if is_empty rest then address else drop_text 1 rest

-- The matched identifier is given by its type and its value.
unfoldable pub identity_binding_prompt_text : String → String → String → String → String
unfolding domain_of concat
identity_binding_prompt_text peer name type value = concat (
    "🪪 Identity claim from "
    ∷ domain_of peer
    ∷ "\n   peer: "
    ∷ peer
    ∷ "\n   verified "
    ∷ type
    ∷ ": "
    ∷ value
    ∷ "\n\nThis matches your contact \""
    ∷ name
    ∷ "\".\nRecognize this peer as \""
    ∷ name
    ∷ "\"?\n\nTo confirm:  /aap bind "
    ∷ peer
    ∷ "\nTo reject:   /aap unbind "
    ∷ peer
    ∷ [])
