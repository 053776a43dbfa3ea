-- ===== src/Examples/Keys.antt =====
-- A peer whose key is known, a forger of its messages, and a verifier.
use aap_hermes.Prelude.{
  String, ◌≡◌, refl, false, none, some, List, [], ◌∷◌, ◌==◌, ◌⊎◌, arith, if◌then◌else◌,
}
use aap_hermes.Prelude.Dict.{lookup}
use aap_hermes.Adapter.Identities.{Attestation, Verification, verify_identity_attestations}
use aap_hermes.Adapter.Identities.Vouched.{All, verify_identity_attestations-IsVouched}
use aap_hermes.Adapter.Inbound.{
  Envelope, Wire, IsWire, Directory, Handlers, claimed, validated, dispatch, dispatch_loop,
}
use aap_hermes.Adapter.Inbound.Pinned.{IsHandled, dispatch_pinned, dispatch_validates}
use aap_hermes.Prelude.Text.{◌<>◌}
use aap_hermes.Adapter.Stores.{Notice}
use aap_hermes.Adapter.Introductions.{
  IntroductionRequest, Sdk, handle_discovery_introduction_request,
}
use aap_hermes.Adapter.Introductions.Relayed.{IsRelayed, row_of, introduction-IsRelayed}
use aap_hermes.Examples.Stores.{introduction_map, introduction_map-IsIntroductionStore}
use aap_hermes.Examples.World.{james, eve, repr}

-- what a row claims, and the key that it was signed with
abbrev pub Signed : Type 0
Signed = Envelope × String

-- a wire on which every envelope is plain
abbrev pub plain : Wire
plain = record {
  Row = Signed;
  is_encrypted = λ row. some false;
  decrypt_inbound = λ row. none;
  from_json = λ row. some (record row.0 { json = row.1 });
  validate_encrypted = λ row key. none;
  validate_plain = λ e key. if e.json == key then some e else none;
}

pub plain-IsWire : IsWire plain
plain-IsWire = record {
  iss-validate_encrypted = λ row claim valid key decoded h. ground (arith, h);
  iss-validate_plain = λ claim valid key h. ground (arith, h);
}

abbrev pub directory : Directory
directory = record {
  trust_list = some ("verify.example" ∷ []);
  verifier_key = λ d. some (some "v");
  resolve_peer = λ p. some "k2";
}

-- the senders of what the handlers were given
abbrev noted : Envelope → List String → List String
noted e s = e.iss ∷ s

abbrev all_noted : Handlers (List String)
all_noted = record {
  group_invitation = noted;
  group_membership_update = noted;
  group_leave = noted;
  group_complete = noted;
  discovery_introduction_request = noted;
  service_request = noted;
  service_response = noted;
  relationship_proposal = noted;
  relationship_accept = λ e key. noted e;
  relationship_decline = noted;
  relationship_revoke = λ e key. noted e;
  service_followup_grant = λ e key. noted e;
  service_followup = noted;
  chat = noted;
}

abbrev says : String → Envelope
says sender = record { iss = sender; payload_type = "aap.chat/v1"; json = "{}" }

-- a message in James's name under another key than his known one
abbrev forged : Signed
forged = (says james, "k2")

abbrev signed_by_eve : Signed
signed_by_eve = (says eve, "k2")

forged_claim : claimed plain forged ≡ some (false, record (says james) { json = "k2" })
unfolding claimed
forged_claim = refl

known : lookup {V = String} james ((james, "k1") ∷ []) ≡ some "k1"
unfolding lookup ◌==◌
known = refl

not_valid : validated plain forged false (record (says james) { json = "k2" }) "k1" ≡ none
unfolding validated ◌==◌
not_valid = refl

dispatch_pinned_example :
    dispatch plain all_noted directory forged
      (dispatch_loop plain all_noted ((directory, signed_by_eve) ∷ []) ((james, "k1") ∷ [], []))
    ≡ dispatch_loop plain all_noted ((directory, signed_by_eve) ∷ []) ((james, "k1") ∷ [], [])
dispatch_pinned_example =
    dispatch_pinned plain plain-IsWire all_noted ((directory, signed_by_eve) ∷ []) directory forged
      false (record (says james) { json = "k2" }) "k1" ((james, "k1") ∷ [], []) known forged_claim
      not_valid

dispatch_validates_example :
    ((dispatch plain all_noted directory signed_by_eve ((james, "k1") ∷ [], [])).1 ≡ [])
    ⊎ ((envelope : Envelope) × IsHandled plain plain-IsWire all_noted signed_by_eve envelope
          ((james, "k1") ∷ [], [])
          (dispatch plain all_noted directory signed_by_eve ((james, "k1") ∷ [], [])))
dispatch_validates_example =
    dispatch_validates plain plain-IsWire all_noted directory signed_by_eve ((james, "k1") ∷ [], [])

-- an attestation of James's phone number
abbrev pub phone : Attestation
phone = record {
  subject_address = james;
  verifier = "verify.example";
  expires_at = "2027";
  identity_type = some "phone";
  identity_value = some "+14155550100";
}

abbrev pub attestations : Verification
attestations = record {
  Signed = String;
  attestation_type = "aap.verification-attestation/v1";
  from_json = λ s. some s;
  payload_type = λ e. "aap.verification-attestation/v1";
  from_dict = λ e. some phone;
  verify = λ e key. some (key == "v");
  is_past = λ t. some (t == "2020");
  trust_list = some ("verify.example" ∷ []);
  verifier_key = λ d. some (some "v");
}

verify_identity_attestations-IsVouched_example :
    All attestations james (verify_identity_attestations attestations james ("{}" ∷ []))
verify_identity_attestations-IsVouched_example =
    verify_identity_attestations-IsVouched attestations james ("{}" ∷ [])

-- an introduction of a searcher by the verifier
abbrev introduction : IntroductionRequest
introduction = record {
  searcher = eve;
  searcher_label_for_recipient = none;
  verifier_nonce = "i1";
  expires_at = "2027";
  searcher_attestations = [];
}

abbrev introducing : Envelope
introducing = record {
  iss = "verifier^verify.example";
  payload_type = "aap.discovery-introduction-request/v1";
  json = "{}";
}

abbrev pub sdk : Sdk
sdk = record {
  verifier_relay_address = λ d. "verifier^" <> d;
  verify = λ e key. some (key == "v");
  extract_searcher_identities = λ as_given subject domains keys. [];
}

introduction-IsRelayed_example :
    (handle_discovery_introduction_request sdk directory introduction_map
        (λ t. t)
        repr
        (some [])
        introducing
        (some introduction)
        []
      ≡ ([], []))
    ⊎ ((domain : String) × (intro : IntroductionRequest) × (notice : Notice) × (some introduction
          ≡ some intro)
        × IsRelayed sdk directory introducing domain
        × ((handle_discovery_introduction_request sdk directory introduction_map
              (λ t. t)
              repr
              (some [])
              introducing
              (some introduction)
              []).1
            ≡ notice ∷ [])
        × ((k : String)
            → introduction_map.get k
                (handle_discovery_introduction_request sdk directory introduction_map
                  (λ t. t)
                  repr
                  (some [])
                  introducing
                  (some introduction)
                  []).0
              ≡ (if intro.verifier_nonce == k
                  then some (
                      row_of sdk directory introducing introduction_map
                        introduction_map-IsIntroductionStore
                        (λ t. t)
                        repr
                        domain
                        intro)
                  else introduction_map.get k [])))
introduction-IsRelayed_example =
    introduction-IsRelayed sdk directory introducing introduction_map
      introduction_map-IsIntroductionStore (λ t. t) repr (some []) (some introduction) []
