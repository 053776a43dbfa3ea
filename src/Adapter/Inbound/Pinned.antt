-- ===== src/Adapter/Inbound/Pinned.antt =====
-- adapter.py, the start of `_dispatch`: under which key a message is accepted.
use aap_hermes.Prelude.{
  String, ◌≡◌, refl, Bool, true, false, Option, none, some, List, [], ◌∷◌, arith, ==_iff, ==_refl,
  Option-cases, inl, inr, ◌⊎◌,
}
use aap_hermes.Prelude.Dict.{Dict, lookup, lookup-insert}
use aap_hermes.Adapter.Inbound.{
  Envelope, Wire, IsWire, Directory, Handlers, peer_key, published_key, route, validated, claimed,
  dispatch, dispatch_loop, accept_keyed, accept_valid, Held,
}

lookup-peer_key :
    (dir : Directory) (sender k : String) (keys : Dict String) (key : String)
    → lookup k keys ≡ some key
    → lookup k (peer_key dir sender keys).1 ≡ some key
unfolding peer_key
lookup-peer_key dir sender k keys key known = elim (Option-cases (lookup sender keys)) [
  | inr (old, cached) ↦ ground (arith, cached)
  | inl missing ↦ elim (Option-cases (published_key dir sender)) [
    | inl unpublished ↦ ground (arith, missing, unpublished)
    | inr (new, published) ↦
        ground (arith, missing, published, lookup-insert sender k new keys, ==_iff sender k)
  ]
]

peer_key-cached :
    (dir : Directory) (sender : String) (keys : Dict String) (key : String)
    → (peer_key dir sender keys).0 ≡ some key
    → lookup sender (peer_key dir sender keys).1 ≡ some key
unfolding peer_key
peer_key-cached dir sender keys key h = elim (Option-cases (lookup sender keys)) [
  | inr (old, cached) ↦ ground (arith, cached)
  | inl missing ↦ elim (Option-cases (published_key dir sender)) [
    | inl unpublished ↦ ground (arith, missing, unpublished)
    | inr (new, published) ↦
        ground (arith, missing, published, lookup-insert sender sender new keys, ==_refl sender)
  ]
]

module _ (W : Wire) (L : IsWire W) {A : Type 0} (h : Handlers A) where
  lookup-accept_keyed :
      (row : W.Row) (encrypted : Bool) (envelope : Envelope) (found : Option String × Dict String)
      (s : A)
      → (accept_keyed W h row encrypted envelope found s).0 ≡ found.1
  unfolding accept_keyed accept_valid
  lookup-accept_keyed row encrypted envelope (none, keys) s = refl
  lookup-accept_keyed row encrypted envelope (some key, keys) s =
      elim (Option-cases (validated W row encrypted envelope key)) [
        | inl invalid ↦ ground (arith, invalid)
        | inr (valid, accepted) ↦ ground (arith, accepted)
      ]

  lookup-dispatch :
      (dir : Directory) (row : W.Row) (k key : String) (held : Held W h)
      → lookup k held.0 ≡ some key
      → lookup k (dispatch W h dir row held).0 ≡ some key
  unfolding dispatch
  lookup-dispatch dir row k key (keys, s) known = elim (Option-cases (claimed W row)) [
    | inl malformed ↦ ground (arith, malformed)
    | inr ((encrypted, envelope), decoded) ↦ ground (
      arith,
      decoded,
      lookup-accept_keyed row encrypted envelope (peer_key dir envelope.iss keys) s,
      lookup-peer_key dir envelope.iss k keys key known,
    )
  ]

  lookup-dispatch_loop :
      (rows : List (Directory × W.Row)) (k key : String) (held : Held W h)
      → lookup k held.0 ≡ some key
      → lookup k (dispatch_loop W h rows held).0 ≡ some key
  unfolding dispatch_loop
  lookup-dispatch_loop [] k key held known = known
  lookup-dispatch_loop ((dir, row) ∷ rows) k key held known =
      lookup-dispatch_loop rows k key (dispatch W h dir row held)
        (lookup-dispatch dir row k key held known)

  dispatch_invalid :
      (dir : Directory) (row : W.Row) (encrypted : Bool) (envelope : Envelope) (key : String)
      (held : Held W h)
      → claimed W row ≡ some (encrypted, envelope)
      → lookup envelope.iss held.0 ≡ some key
      → validated W row encrypted envelope key ≡ none
      → dispatch W h dir row held ≡ held
  unfolding dispatch accept_keyed accept_valid peer_key
  dispatch_invalid dir row encrypted envelope key (keys, s) decoded cached invalid =
      ground (arith, decoded, cached, invalid)

  -- Once the key of a sender is known, it is never replaced: whatever is dispatched in between, and
  -- whatever is published, a later message that claims this sender and does not validate under that
  -- first key is dropped.
  pub dispatch_pinned :
      (rows : List (Directory × W.Row)) (dir : Directory) (row : W.Row) (encrypted : Bool)
      (envelope : Envelope) (key : String) (held : Held W h)
      → lookup envelope.iss held.0 ≡ some key
      → claimed W row ≡ some (encrypted, envelope)
      → validated W row encrypted envelope key ≡ none
      → dispatch W h dir row (dispatch_loop W h rows held) ≡ dispatch_loop W h rows held
  dispatch_pinned rows dir row encrypted envelope key held known decoded invalid =
      dispatch_invalid dir row encrypted envelope key (dispatch_loop W h rows held) decoded
        (lookup-dispatch_loop rows envelope.iss key held known) invalid

  -- What the dispatch of one row does, if it hands the row to a handler.
  pub record IsHandled (row : W.Row) (envelope : Envelope) (before after : Held W h) : Type 0 where
    pub key : String
    pub cached : lookup envelope.iss after.0 ≡ some key
    pub accepted :
        (W.validate_encrypted row key ≡ some envelope)
        ⊎ ((claim : Envelope) × (W.validate_plain claim key ≡ some envelope))
    pub handled : after.1 ≡ route h envelope key before.1

  iss-validated :
      (row : W.Row) (encrypted : Bool) (claim envelope : Envelope) (key : String)
      → claimed W row ≡ some (encrypted, claim)
      → validated W row encrypted claim key ≡ some envelope
      → envelope.iss ≡ claim.iss
  unfolding claimed validated
  iss-validated row encrypted claim envelope key decoded accepted = ground (
    arith,
    L.iss-validate_encrypted row claim envelope key,
    L.iss-validate_plain claim envelope key,
  )

  accepted_lem :
      (row : W.Row) (encrypted : Bool) (claim envelope : Envelope) (key : String)
      → validated W row encrypted claim key ≡ some envelope
      → (W.validate_encrypted row key ≡ some envelope)
        ⊎ ((c : Envelope) × (W.validate_plain c key ≡ some envelope))
  unfolding validated
  accepted_lem row true claim envelope key accepted = inl accepted
  accepted_lem row false claim envelope key accepted = inr (claim, accepted)

  -- A row that is dispatched either has no effect but on the cache of the keys, or it is an envelope
  -- that validates under the key that the cache then has for its sender, and its handler is run.
  pub dispatch_validates :
      (dir : Directory) (row : W.Row) (held : Held W h)
      → ((dispatch W h dir row held).1 ≡ held.1)
        ⊎ ((envelope : Envelope) × IsHandled row envelope held (dispatch W h dir row held))
  unfolding dispatch accept_keyed accept_valid
  dispatch_validates dir row (keys, s) = elim (Option-cases (claimed W row)) [
    | inl malformed ↦ inl (ground (arith, malformed))
    | inr ((encrypted, claim), decoded) ↦ elim (Option-cases (peer_key dir claim.iss keys).0) [
      | inl unknown ↦ inl (ground (arith, decoded, unknown))
      | inr (key, found) ↦ elim (Option-cases (validated W row encrypted claim key)) [
        | inl invalid ↦ inl (ground (arith, decoded, found, invalid))
        | inr (envelope, accepted) ↦ inr (
          envelope,
          record {
            key = key;
            cached = ground (
              arith,
              decoded,
              found,
              accepted,
              iss-validated row encrypted claim envelope key decoded accepted,
              peer_key-cached dir claim.iss keys key found,
            );
            accepted = accepted_lem row encrypted claim envelope key accepted;
            handled = ground (arith, decoded, found, accepted);
          },
        )
      ]
    ]
  ]
