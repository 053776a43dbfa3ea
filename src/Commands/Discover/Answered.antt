-- ===== src/Commands/Discover/Answered.antt =====
-- commands.py: what an answer to an introduction leaves pending.
use aap_hermes.Prelude.{
  String, ◌≡◌, refl, Bool, true, false, Option, none, some, List, [], ◌∷◌, arith, ◌==◌,
  if◌then◌else◌, if_elim, ◌||◌, ◌⊎◌, inl, inr,
}
use aap_hermes.Adapter.GroupNote.{is_nil}
use aap_hermes.Adapter.Introductions.{Introduction, IntroductionStore, IsIntroductionStore}
use aap_hermes.Commands.Discover.{
  not_found, send_failed, approved, denied, no_verifiers, Response, Outcome, respond, respond_to,
  discover_approve, discover_deny, rows_of, resolve_all, discover_block, verifiers_for,
}

module _ (I : IntroductionStore) (L : IsIntroductionStore I) where
  module _ (relay_of : String → String) (reaches : String → Bool) (nonce : String)
      (s : I.State) where
    -- The verdict has reached the relay of the verifier that made the introduction, and this is no
    -- longer pending; the others are.
    pub record IsAnswered (approves : Bool) (sent : List Response) (t : I.State) : Type 0 where
      pub row : Introduction
      pub pending : I.get nonce s ≡ some row
      pub reached : reaches (relay_of row.verifier_domain) ≡ true
      pub told :
          sent
          ≡ record {
            to = relay_of row.verifier_domain;
            verifier_nonce = nonce;
            approves = approves;
          }
            ∷ []
      pub settled : (k : String) → I.get k t ≡ (if nonce == k then none else I.get k s)

    abbrev pub IsSound : Bool → Outcome I relay_of reaches → Type 0
    IsSound approves (approved n searcher, sent, t) = IsAnswered true sent t × (approves ≡ true)
    IsSound approves (denied n, sent, t) = IsAnswered false sent t × (approves ≡ false)
    IsSound approves (send_failed domain, sent, t) =
        ((row : Introduction) × (I.get nonce s ≡ some row)
          × (row.verifier_domain ≡ domain)
          × (reaches (relay_of domain) ≡ false))
        × (sent ≡ [])
        × (t ≡ s)
    IsSound approves (not_found n, sent, t) = (I.get nonce s ≡ none) × (sent ≡ []) × (t ≡ s)
    IsSound approves (reply, sent, t) = ⊥

    respond_to-IsSound :
        (approves : Bool) (row : Introduction)
        → I.get nonce s ≡ some row
        → IsSound approves (respond_to I relay_of reaches approves nonce row s)
    unfolding respond_to
    respond_to-IsSound true row pending =
        if_elim (IsSound true) (reaches (relay_of row.verifier_domain)) _ _
          (λ reached. (
            record {
              row = row;
              pending = pending;
              reached = reached;
              told = refl;
              settled = L.get-resolve nonce s;
            },
            refl,
          ))
          (λ unreached. ((row, pending, refl, unreached), refl, refl))
    respond_to-IsSound false row pending =
        if_elim (IsSound false) (reaches (relay_of row.verifier_domain)) _ _
          (λ reached. (
            record {
              row = row;
              pending = pending;
              reached = reached;
              told = refl;
              settled = L.get-resolve nonce s;
            },
            refl,
          ))
          (λ unreached. ((row, pending, refl, unreached), refl, refl))

    respond_found-IsSound :
        (approves : Bool) (found : Option Introduction)
        → I.get nonce s ≡ found
        → IsSound approves (elim found as (λ o. Outcome I relay_of reaches) [
          | none ↦ (not_found nonce, [], s)
          | some row ↦ respond_to I relay_of reaches approves nonce row s
        ])
    respond_found-IsSound approves none absent = (absent, refl, refl)
    respond_found-IsSound approves (some row) pending = respond_to-IsSound approves row pending

    -- A verdict on an introduction, an approval or a denial, returns an error, sends nothing and
    -- leaves every introduction pending if the introduction is not pending or its verifier cannot be
    -- reached. Otherwise it is sent, as it is, to the relay of the verifier that made the
    -- introduction, and exactly that introduction is no longer pending.
    pub discover_answers :
        (args : List String)
        → IsSound true (discover_approve I relay_of reaches (nonce ∷ args) s)
          × IsSound false (discover_deny I relay_of reaches (nonce ∷ args) s)
    unfolding discover_approve discover_deny respond
    discover_answers args = (
      respond_found-IsSound true (I.get nonce s) refl,
      respond_found-IsSound false (I.get nonce s) refl,
    )

  -- One of the rows has the nonce.
  unfoldable pub has_nonce : String → List Introduction → Bool
  has_nonce k [] = false
  has_nonce k (r ∷ rs) = r.verifier_nonce == k || has_nonce k rs

  get-resolve_all :
      (posts : String → Bool) (sorted : List String → List String) (trust_list : List String)
      (rs : List Introduction) (s : I.State) (k : String)
      → I.get k (resolve_all I sorted trust_list posts rs s)
        ≡ (if has_nonce k rs then none else I.get k s)
  unfolding resolve_all has_nonce
  get-resolve_all posts sorted trust_list [] s k = refl
  get-resolve_all posts sorted trust_list (r ∷ rs) s k = ground (
    arith,
    get-resolve_all posts sorted trust_list rs (I.resolve r.verifier_nonce s) k,
    L.get-resolve r.verifier_nonce s k,
  )

  -- A block either returns an error and changes nothing, or it settles every pending introduction of
  -- the searcher, and no other, whichever verifiers took the request.
  pub discover_block_settles :
      (posts : String → Bool) (sorted : List String → List String) (trust_list : List String)
      (searcher : String) (args : List String) (s : I.State)
      → let outcome = discover_block I sorted trust_list posts (searcher ∷ args) s in
        (outcome ≡ (no_verifiers, s))
        ⊎ ((k : String)
            → I.get k outcome.1
              ≡ (if has_nonce k (rows_of searcher (I.rows s)) then none else I.get k s))
  unfolding discover_block
  discover_block_settles posts sorted trust_list searcher args s =
      let settled =
        λ (k : String). get-resolve_all posts sorted trust_list (rows_of searcher (I.rows s)) s k in
      if_elim
        (λ outcome.
          (outcome ≡ (no_verifiers, s))
          ⊎ ((k : String)
              → I.get k outcome.1
                ≡ (if has_nonce k (rows_of searcher (I.rows s)) then none else I.get k s)))
        (is_nil (verifiers_for I sorted trust_list posts (rows_of searcher (I.rows s)))) _ _
        (λ nobody. inl refl) (λ somebody. inr settled)
