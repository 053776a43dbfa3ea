-- ===== src/Adapter/Inbound/Routed.antt =====
-- adapter.py, the routing of `_dispatch`: what holds of every handler for its type of payload holds
-- of the routing.
use aap_hermes.Prelude.{String, ◌≡◌, ◌==◌, ==_iff, if_elim}
use aap_hermes.Adapter.Inbound.{Envelope, Handlers, route}

module _ {A : Type 0} (Q : A → Type 0) (h : Handlers A) (e : Envelope) (key : String) (s : A) where
  pub route_elim :
      (e.payload_type ≡ "aap.group-invitation/v1" → Q (h.group_invitation e s))
      → (e.payload_type ≡ "aap.group-membership-update/v1" → Q (h.group_membership_update e s))
      → (e.payload_type ≡ "aap.group-leave/v1" → Q (h.group_leave e s))
      → (e.payload_type ≡ "aap.group-complete/v1" → Q (h.group_complete e s))
      → (e.payload_type ≡ "aap.discovery-introduction-request/v1"
          → Q (h.discovery_introduction_request e s))
      → (e.payload_type ≡ "aap.discovery-introduction-response/v1" → Q s)
      → (e.payload_type ≡ "aap.service-request/v1" → Q (h.service_request e s))
      → (e.payload_type ≡ "aap.service-response/v1" → Q (h.service_response e s))
      → (e.payload_type ≡ "aap.relationship-proposal/v1" → Q (h.relationship_proposal e s))
      → (e.payload_type ≡ "aap.relationship-accept/v1" → Q (h.relationship_accept e key s))
      → (e.payload_type ≡ "aap.relationship-decline/v1" → Q (h.relationship_decline e s))
      → (e.payload_type ≡ "aap.relationship-revoke/v1" → Q (h.relationship_revoke e key s))
      → (e.payload_type ≡ "aap.service-followup-grant/v1" → Q (h.service_followup_grant e key s))
      → (e.payload_type ≡ "aap.service-followup/v1" → Q (h.service_followup e s))
      → Q (h.chat e s)
      → Q (route h e key s)
  unfolding route
  route_elim on0 on1 on2 on3 on4 on5 on6 on7 on8 on9 on10 on11 on12 on13 on14 =
      if_elim Q (e.payload_type == "aap.group-invitation/v1") (h.group_invitation e s) _
        (λ t. on0 ((==_iff e.payload_type "aap.group-invitation/v1").0 t))
        (λ f.
          if_elim Q (e.payload_type == "aap.group-membership-update/v1")
            (h.group_membership_update e s) _
            (λ t. on1 ((==_iff e.payload_type "aap.group-membership-update/v1").0 t))
            (λ f.
              if_elim Q (e.payload_type == "aap.group-leave/v1") (h.group_leave e s) _
                (λ t. on2 ((==_iff e.payload_type "aap.group-leave/v1").0 t))
                (λ f.
                  if_elim Q (e.payload_type == "aap.group-complete/v1") (h.group_complete e s) _
                    (λ t. on3 ((==_iff e.payload_type "aap.group-complete/v1").0 t))
                    (λ f.
                      if_elim Q (e.payload_type == "aap.discovery-introduction-request/v1")
                        (h.discovery_introduction_request e s) _
                        (λ t.
                          on4 ((==_iff e.payload_type "aap.discovery-introduction-request/v1").0 t))
                        (λ f.
                          if_elim Q (e.payload_type == "aap.discovery-introduction-response/v1") (s)
                            _
                            (λ t. on5 (
                              (==_iff e.payload_type "aap.discovery-introduction-response/v1").0 t))
                            (λ f.
                              if_elim Q (e.payload_type == "aap.service-request/v1")
                                (h.service_request e s) _
                                (λ t. on6 ((==_iff e.payload_type "aap.service-request/v1").0 t))
                                (λ f.
                                  if_elim Q (e.payload_type == "aap.service-response/v1")
                                    (h.service_response e s) _
                                    (λ t.
                                      on7 ((==_iff e.payload_type "aap.service-response/v1").0 t))
                                    (λ f.
                                      if_elim Q (e.payload_type == "aap.relationship-proposal/v1")
                                        (h.relationship_proposal e s) _
                                        (λ t. on8 (
                                          (==_iff e.payload_type "aap.relationship-proposal/v1").0
                                            t))
                                        (λ f.
                                          if_elim Q (e.payload_type == "aap.relationship-accept/v1")
                                            (h.relationship_accept e key s) _
                                            (λ t. on9 (
                                              (==_iff e.payload_type "aap.relationship-accept/v1").0
                                                t))
                                            (λ f.
                                              if_elim Q
                                                (e.payload_type == "aap.relationship-decline/v1")
                                                (h.relationship_decline e s) _
                                                (λ t. on10 (
                                                  (==_iff e.payload_type
                                                      "aap.relationship-decline/v1").0
                                                    t))
                                                (λ f.
                                                  if_elim Q
                                                    (e.payload_type == "aap.relationship-revoke/v1")
                                                    (h.relationship_revoke e key s) _
                                                    (λ t. on11 (
                                                      (==_iff e.payload_type
                                                          "aap.relationship-revoke/v1").0
                                                        t))
                                                    (λ f.
                                                      if_elim Q
                                                        (e.payload_type
                                                          == "aap.service-followup-grant/v1")
                                                        (h.service_followup_grant e key s) _
                                                        (λ t. on12 (
                                                          (==_iff e.payload_type
                                                            "aap.service-followup-grant/v1").0
                                                            t))
                                                        (λ f.
                                                          if_elim Q
                                                            (e.payload_type
                                                            == "aap.service-followup/v1")
                                                            (h.service_followup e s) _
                                                            (λ t. on13 (
                                                            (==_iff e.payload_type
                                                            "aap.service-followup/v1").0
                                                            t))
                                                            (λ f. on14))))))))))))))
