-- ===== src/Contacts/Lookup.antt =====
-- contacts.py: what the lookups find.
use aap_hermes.Prelude.{String, ◌≡◌, true, false, some, List, [], ◌∷◌, ◌++◌, arith}
use aap_hermes.Contacts.{Contact, normalize_phone, has, first, find_by_phone}

-- the phones of a contact hold the number
abbrev pub Holds : String → Contact → Type 0
Holds phone c = has normalize_phone (normalize_phone phone) c.phones ≡ true

-- every contact of a list lacks it
abbrev pub Lacks : String → List Contact → Type 0
Lacks phone [] = Unit {0}
Lacks phone (c ∷ cs) =
    (has normalize_phone (normalize_phone phone) c.phones ≡ false) × Lacks phone cs

-- A lookup by phone finds the first contact that holds the number, up to punctuation.
pub find_by_phone-append :
    (phone : String) (before after : List Contact) (c : Contact)
    → Lacks phone before
    → Holds phone c
    → find_by_phone phone (before ++ c ∷ after) ≡ some c
unfolding find_by_phone first
find_by_phone-append phone [] after c lacks holds = ground (arith, holds)
find_by_phone-append phone (b ∷ before) after c lacks holds =
    ground (arith, lacks.0, find_by_phone-append phone before after c lacks.1 holds)
