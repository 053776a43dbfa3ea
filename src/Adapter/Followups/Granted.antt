-- ===== src/Adapter/Followups/Granted.antt =====
-- adapter.py, `_handle_service_followup`: which followups reach the user.
use aap_hermes.Prelude.{
  String, ◌≡◌, ◌⊎◌, true, some, [], ◌∷◌, arith, ◌==◌, ==_iff, Option-cases, Bool-cases, ◌&&◌, inl,
  inr,
}
use aap_hermes.Adapter.Stores.{inbound_notice}
use aap_hermes.Adapter.Followups.{
  ServiceFollowup, Grant, GrantStore, followup_prompt, handle_service_followup,
}

module _ (G : GrantStore) (iss : String) (s : G.State) (fu : ServiceFollowup) where
  -- We have granted the sender followups under the nonce, and the grant holds now.
  abbrev pub IsGranted : Grant → Type 0
  IsGranted grant =
      (G.find_issued_by_nonce fu.grant_nonce s ≡ some grant)
      × (grant.counterparty ≡ iss)
      × (grant.is_within_lifetime ≡ true)
      × (grant.is_within_outreach_window ≡ true)

  -- A followup reaches the user, with one notice, exactly if it answers a grant of ours to its sender
  -- that is within its lifetime and its window; any other is dropped.
  pub handle_service_followup-IsGranted :
      ((handle_service_followup G iss (some fu) s ≡ [])
        ⊎ ((grant : Grant) × IsGranted grant
            × (handle_service_followup G iss (some fu) s
                ≡ inbound_notice iss (followup_prompt iss fu) ∷ [])))
      × ((grant : Grant)
          → IsGranted grant
          → handle_service_followup G iss (some fu) s
            ≡ inbound_notice iss (followup_prompt iss fu) ∷ [])
  unfolding handle_service_followup
  handle_service_followup-IsGranted = (
    elim (Option-cases (G.find_issued_by_nonce fu.grant_nonce s)) [
      | inl unknown ↦ inl (ground (arith, unknown))
      | inr (grant, known) ↦
          elim (Bool-cases (
            grant.counterparty == iss
            && grant.is_within_lifetime
            && grant.is_within_outreach_window)) [
              | inl holds ↦ inr (
                grant,
                (
                  known,
                  ground (arith, holds, ==_iff grant.counterparty iss),
                  ground (arith, holds),
                  ground (arith, holds),
                ),
                ground (arith, known, holds),
              )
              | inr lapsed ↦ inl (ground (arith, known, lapsed))
            ]
    ],
    λ grant granted.
        let (known, ours, lasting, open_now) = granted in
        ground (arith, known, ours, lasting, open_now, ==_iff grant.counterparty iss),
  )
