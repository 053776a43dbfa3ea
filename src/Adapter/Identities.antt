-- ===== src/Adapter/Identities.antt =====
-- adapter.py: `_verify_identity_attestations`, which says who a peer is, and the contact that a
-- verified identity belongs to.
pub mod Vouched
use aap_hermes.Prelude.{
  String, Bool, true, false, not, Option, none, some, List, [], ◌∷◌, ◌==◌, ◌>>=◌, if◌then◌else◌,
}
use aap_hermes.Prelude.Dict.{contains}
use aap_hermes.Contacts.{Contact, find_by_phone, find_by_email}

-- `VerificationAttestation` of the `aap` package, with the entries of its `identity` that are texts.
pub record Attestation : Type 0 where
  pub subject_address : String
  pub verifier : String
  pub expires_at : String
  pub identity_type : Option String
  pub identity_value : Option String

-- The functions of the `aap` package and the caches of the stores; each is `none` where it raises.
pub record Verification : Type 1 where
  pub Signed : Type 0
  -- `VerificationAttestation.PAYLOAD_TYPE`
  pub attestation_type : String
  pub from_json : String → Option Signed
  pub payload_type : Signed → String
  pub from_dict : Signed → Option Attestation
  pub verify : Signed → String → Option Bool
  -- whether a time has passed
  pub is_past : String → Option Bool
  -- the domains of the trusted verifiers
  pub trust_list : Option (List String)
  pub verifier_key : String → Option (Option String)

pub record Identity : Type 0 where
  pub type : String
  pub value : String
  pub verifier : String

abbrev pub is_yes : Option Bool → Bool
is_yes none = false
is_yes (some b) = b

abbrev pub is_no : Option Bool → Bool
is_no none = false
is_no (some b) = not b

-- the value if the test holds
abbrev pub guard {ℓ} : {A : Type ℓ} → Bool → Option A → Option A
guard test x = if test then x else none

module _ (V : Verification) (expected_subject : String) where
  abbrev pub trusted : List String
  trusted = elim V.trust_list [ none ↦ [] | some domains ↦ domains ]

  abbrev pub key_of : String → Option String
  key_of domain = elim (V.verifier_key domain) [ none ↦ none | some key ↦ key ]

  -- One round of the loop: `none` is a `continue`.
  unfoldable pub verified : String → Option Identity
  verified env_json = do
    env ← V.from_json env_json
    att ← guard (V.payload_type env == V.attestation_type) (V.from_dict env)
    key ← guard (att.subject_address == expected_subject) (
        guard (contains trusted att.verifier)
          (guard (is_no (V.is_past att.expires_at)) (key_of att.verifier)))
    type ← guard (is_yes (V.verify env key)) att.identity_type
    value ← att.identity_value
    some (record { type = type; value = value; verifier = att.verifier })

  abbrev kept : Option Identity → List Identity → List Identity
  kept none rest = rest
  kept (some i) rest = i ∷ rest

  unfoldable pub verify_identity_attestations : List String → List Identity
  unfolding verified
  verify_identity_attestations [] = []
  verify_identity_attestations (j ∷ js) = kept (verified j) (verify_identity_attestations js)

-- The contact that has an identity.
unfoldable pub contact_of : (String → String) → List Contact → Identity → Option Contact
contact_of lower contacts i =
    if i.type == "phone"
    then find_by_phone i.value contacts
    else if i.type == "email"
    then find_by_email lower i.value contacts
    else none

-- The first identity that belongs to a contact, and the contact.
unfoldable pub first_match :
    (String → String) → List Contact → List Identity → Option (Identity × Contact)
unfolding contact_of
first_match lower contacts [] = none
first_match lower contacts (i ∷ rest) = elim (contact_of lower contacts i) [
  | none ↦ first_match lower contacts rest
  | some c ↦ some (i, c)
]
