-- ===== src/Tools/Relationships/Revoked.antt =====
-- tools.py, `aap_revoke_relationship_handler`: what is left of the relationships.
use aap_hermes.Prelude.{
  String, ◌≡◌, Bool, true, false, ◌&&◌, ◌||◌, Option, none, some, List, [], ◌∷◌, ◌==◌,
  if◌then◌else◌,
}
use aap_hermes.Adapter.Stores.{Relationship, RelationshipStore}
use aap_hermes.Tools.Relationships.{revoked, resource_eq, not_revoked, RevokeOutcome}

-- The same type and resource.
abbrev pub same_kind : Relationship → Relationship → Bool
same_kind r t = r.relationship_type == t.relationship_type && resource_eq r.resource t.resource

-- The records without those of a kind.
unfoldable pub without_kind : Relationship → List Relationship → List Relationship
without_kind t [] = []
without_kind t (r ∷ rs) = let rest = without_kind t rs in if same_kind r t then rest else r ∷ rest

-- The same resource, or none in both.
abbrev pub same_resource : Option String → Option String → Bool
same_resource none none = true
same_resource none (some b) = false
same_resource (some a) none = false
same_resource (some a) (some b) = a == b

-- The relationships that the arguments of a call name: all if no type is given, and otherwise those
-- of the type, of which a team must also have the resource.
abbrev pub is_named : Option String → Option String → Relationship → Bool
is_named none resource r = true
is_named (some t) resource r =
    if r.relationship_type == t
    then (if t == "team" then same_resource r.resource resource else true)
    else false

unfoldable pub named : Option String → Option String → List Relationship → List Relationship
named type resource [] = []
named type resource (r ∷ rs) =
    let rest = named type resource rs in if is_named type resource r then r ∷ rest else rest

-- The records that a call leaves.
unfoldable pub others : Option String → Option String → List Relationship → List Relationship
others type resource [] = []
others type resource (r ∷ rs) =
    let rest = others type resource rs in if is_named type resource r then rest else r ∷ rest

-- The store removes the records of the kind that a revoke envelope of ours names
-- (tests/test_relationships.py).
pub record IsRevocable (R : RelationshipStore) (self public_key : String)
    (revoke_envelope : Relationship → String) : Type 0 where
  pub all-revoke :
      (r : Relationship) (peer k : String) (s : R.State)
      → R.all_for_peer k (R.revoke self peer (revoke_envelope r) public_key s).0
        ≡ (if peer == k then without_kind r (R.all_for_peer k s) else R.all_for_peer k s)

-- Some record of a list has the kind.
unfoldable hit : Relationship → List Relationship → Bool
hit r [] = false
hit r (t ∷ ts) = same_kind r t || hit r ts

-- The records without those of several kinds.
unfoldable without_kinds : List Relationship → List Relationship → List Relationship
unfolding hit
without_kinds ts [] = []
without_kinds ts (r ∷ rs) = let rest = without_kinds ts rs in if hit r ts then rest else r ∷ rest

module _ (type resource : Option String) where
  abbrev Covered : List Relationship → List Relationship → Type 0
  Covered base [] = Unit {0}
  Covered base (r ∷ rs) = (hit r base ≡ true) × Covered base rs

module _ (R : RelationshipStore) (self public_key : String)
    (revoke_envelope : Relationship → String) (L : IsRevocable R self public_key revoke_envelope)
    (reaches : String → Bool) where
  module _ (type resource : Option String) (s : R.State) where
    -- The relationships of the wanted kinds with the peer have ended, and no other.
    abbrev pub IsSound : RevokeOutcome R self public_key revoke_envelope → Type 0
    IsSound (revoked peer rs, sent, t) =
        (rs ≡ named type resource (R.all_for_peer peer s))
        × ((k : String)
            → R.all_for_peer k t ≡ (
                if peer == k
                then others type resource (R.all_for_peer k s)
                else R.all_for_peer k s))
    IsSound (not_revoked e, sent, t) = (sent ≡ []) × (t ≡ s)
