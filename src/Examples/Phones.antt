-- ===== src/Examples/Phones.antt =====
-- A number that is written in another way than in the address book.
use aap_hermes.Prelude.{refl, [], ◌∷◌, ◌==◌}
use aap_hermes.Contacts.{Contact, normalize_phone, has}
use aap_hermes.Contacts.Lookup.{Holds, Lacks}

abbrev ann : Contact
ann = record { id = "1"; display_name = "Ann"; phones = "+1 (415) 1" ∷ []; emails = [] }

abbrev bob : Contact
bob = record { id = "2"; display_name = "Bob"; phones = "+1-415-2" ∷ []; emails = [] }

not_ann : Lacks "+14152" (ann ∷ [])
unfolding has normalize_phone ◌==◌
not_ann = (refl, tt)

is_bob : Holds "+14152" bob
unfolding has normalize_phone ◌==◌
is_bob = refl
