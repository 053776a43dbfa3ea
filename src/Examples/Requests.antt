-- ===== src/Examples/Requests.antt =====
-- A service request that is recorded, attacked and answered.
use aap_hermes.Prelude.{
  String, ◌≡◌, ◌≢◌, refl, true, false, inl, inr, none, some, List, [], ◌∷◌, arith, ◌==◌, ==_iff,
}
use aap_hermes.Prelude.Dict.{lookup, insert, erase, contains}
use aap_hermes.Prelude.Text.{replace, starts_with}
use aap_hermes.Origins
use aap_hermes.Origins.{
  record_origin, RequestOrigin, File, missing, entries, load, parse_iso, targets, pop_entry, prune,
  save, writable, text, null, object, asdict, from_dict, no_other_fields, aware, created, completed,
  pop_if,
}
use aap_hermes.Origins.Prune.{kept}
use aap_hermes.Origins.View.{IsWellFormed, is_free, live}
use aap_hermes.Origins.Life.{
  Attempt, attempts, IsForged, Call, store, pop, calls, IsAfter, pop_if-record, pop_if-pop_if,
}
use aap_hermes.Examples.Stores.{new_year}

abbrev pub diner : String
diner = "book^dinetable.example"

abbrev booking : RequestOrigin
booking = record {
  platform = text "telegram";
  chat_id = text "77";
  chat_type = text "dm";
  user_id = text "7";
  user_name = null;
  thread_id = null;
  chat_name = null;
  target_address = text diner;
  group_conversation_id = null;
  created_at = text "2026-01-01T00:00:00Z";
}

abbrev pub forgeries : List Attempt
forgeries =
    record { at = 6; nonce = "n1"; iss = "eve^evil.example" }
    ∷ record { at = 7; nonce = "n2"; iss = diner }
    ∷ []

==-neq : (a b : String) → (a == b) ≡ false → a ≢ b
==-neq a b h = λ same. ground (arith, ==_iff a b)

pub missing-IsWellFormed : IsWellFormed new_year 100 missing
unfolding load
missing-IsWellFormed = tt

booked_at : created new_year 100 (object (asdict booking)) ≡ aware 5
unfolding created parse_iso asdict lookup replace starts_with ◌==◌
booked_at = refl

pub free : is_free new_year 100 5 missing "n1" ≡ true
unfolding is_free live load kept lookup
free = refl

pub forgeries-IsForged : IsForged new_year 100 "n1" diner 5 9 forgeries
unfolding ◌==◌
forgeries-IsForged = (
  omega arith,
  inr (==-neq "eve^evil.example" diner refl),
  (omega arith, inl (==-neq "n2" "n1" refl), omega arith),
)

-- the file once the booking is in it
abbrev booked : File
booked = entries (("n1", object (asdict booking)) ∷ [])

stored_booking :
    record_origin new_year 100 5 writable "n1" booking missing
    ≡ some (booked, true, Origins.sent "n1" booking)
unfolding record_origin prune load save lookup insert
stored_booking = refl

pop_if-record_example :
    (after : File) × (pop_if new_year 100 9 writable "n1" diner
        (attempts new_year 100 forgeries booked)
      ≡ some (after, some booking, completed "n1" (some booking)))
pop_if-record_example =
    pop_if-record new_year 100 5 5 "n1" diner booking missing 9 forgeries booked
      (Origins.sent "n1" booking) missing-IsWellFormed stored_booking booked_at refl (omega arith)
      forgeries-IsForged

booked-IsWellFormed : IsWellFormed new_year 100 booked
unfolding load
booked-IsWellFormed = (λ h. ground (arith, booked_at, h), tt)

-- the file once it is answered
abbrev done : File
done = entries []

answered :
    pop_if new_year 100 9 writable "n1" diner booked
    ≡ some (done, some booking, completed "n1" (some booking))
unfolding pop_if pop_entry prune created parse_iso asdict lookup replace starts_with ◌==◌ load
    targets from_dict save erase contains no_other_fields
answered = refl

-- another request and a forged answer in between
abbrev between : List Call
between =
    store 10 "n2" booking ∷ pop (record { at = 11; nonce = "n1"; iss = "eve^evil.example" }) ∷ []

between-IsAfter : IsAfter new_year 100 "n1" 9 12 between
unfolding ◌==◌
between-IsAfter = (
  omega arith,
  ==-neq "n2" "n1" refl,
  (λ h. ground (arith, booked_at, h)),
  (omega arith, omega arith),
)

pop_if-pop_if_example :
    (left : File) × (pop_if new_year 100 12 writable "n1" diner (calls new_year 100 between done)
      ≡ some (left, none, []))
pop_if-pop_if_example =
    pop_if-pop_if new_year 100 9 12 "n1" diner diner booked done booking
      (completed "n1" (some booking)) between booked-IsWellFormed answered between-IsAfter
