-- ===== src/Contacts.antt =====
-- contacts.py: the user's address book, and the lookups in it. `lower` is Python's `str.lower`.
pub mod Lookup
use aap_hermes.Prelude.{
  ◌>>=◌, ℕ, String, Bool, true, false, ◌||◌, Option, none, some, List, [], ◌∷◌, ◌==◌, if◌then◌else◌,
  map,
}
use aap_hermes.Prelude.Text.{code_eq, strip}
use Prim.Native.Char.{Char, code}
use Prim.Native.String

pub record Contact : Type 0 where
  pub id : String
  pub display_name : String
  pub phones : List String
  pub emails : List String

-- An item of the file: a required key that is missing is `none`, and so is a list that is missing,
-- `null` or empty.
pub record Item : Type 0 where
  pub id : Option String
  pub display_name : Option String
  pub phones : Option (List String)
  pub emails : Option (List String)

-- The file: absent, unreadable or no JSON, a document that is no object, on which `data.get` raises,
-- or an object with its list of contacts.
pub data File : Type 0 where
  missing : File
  corrupt : File
  no_object : File
  contacts : List Item → File

abbrev or_empty : Option (List String) → List String
or_empty none = []
or_empty (some xs) = xs

-- `none` is the `KeyError` of a required key.
unfoldable pub decode : Item → Option Contact
decode item = do
  id ← item.id
  display_name ← item.display_name
  some (record {
    id = id;
    display_name = display_name;
    phones = or_empty item.phones;
    emails = or_empty item.emails;
  })

unfoldable pub decode_all : List Item → Option (List Contact)
unfolding decode
decode_all [] = some []
decode_all (item ∷ rest) = do c ← decode item; cs ← decode_all rest; some (c ∷ cs)

-- `ContactSource.load`; `none` is an exception, which one bad item raises for the whole file.
unfoldable pub load : File → Option (List Contact)
unfolding decode_all
load missing = some []
load corrupt = some []
load no_object = none
load (contacts items) = decode_all items

-- `[ \-()\.]`
abbrev pub is_punctuation : Char → Bool
is_punctuation c =
    let n = code c in
    code_eq n b' ' || code_eq n b'-' || code_eq n b'(' || code_eq n b')' || code_eq n b'.'

unfoldable pub normalize_phone : String → String
normalize_phone String.[] = String.[]
normalize_phone (String.◌∷◌ c s) =
    let rest = normalize_phone s in if is_punctuation c then rest else String.◌∷◌ c rest

unfoldable pub normalize_email : (String → String) → String → String
normalize_email lower s = lower (strip s)

-- some text of a list is the target when it is normalised
unfoldable pub has : (String → String) → String → List String → Bool
has normalize target [] = false
has normalize target (x ∷ xs) = normalize x == target || has normalize target xs

-- the first contact that a test accepts
unfoldable pub first : (Contact → Bool) → List Contact → Option Contact
first test [] = none
first test (c ∷ cs) = let rest = first test cs in if test c then some c else rest

unfoldable pub find_by_phone : String → List Contact → Option Contact
unfolding first has
find_by_phone phone = first (λ c. has normalize_phone (normalize_phone phone) c.phones)

unfoldable pub find_by_email : (String → String) → String → List Contact → Option Contact
unfolding first has
find_by_email lower email =
    first (λ c. has (normalize_email lower) (normalize_email lower email) c.emails)

unfoldable pub get_by_id : String → List Contact → Option Contact
unfolding first
get_by_id contact_id = first (λ c. c.id == contact_id)
