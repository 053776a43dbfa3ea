-- ===== src/Examples/Bookings.antt =====
-- A table that is booked from the user's chat: the request, and the answer to it.
use aap_hermes.Prelude.{◌≡◌, refl, true, none, some, List, [], ◌∷◌, arith, ◌==◌}
use aap_hermes.Prelude.Dict.{lookup}
use aap_hermes.Adapter.Noise.{ends_with}
use aap_hermes.Tools.Address.{parse_user_address}
use aap_hermes.Prelude.Text.{strip, replace, starts_with}
use aap_hermes.TurnContext.{outside}
use aap_hermes.Origins
use aap_hermes.Origins.Record.{recorded}
use aap_hermes.Origins.{
  missing, writable, record_origin, prune, load, save, created, aware, asdict, object, or_null,
  parse_iso, from_session_source, utcnow_iso,
}
use aap_hermes.Origins.Life.{attempts}
use aap_hermes.Adapter.Services.{
  ServiceResponse, confirmed, State, Handler, handle_service_response,
}
use aap_hermes.Adapter.Services.Routed.{IsKept, IsAnswered}
use aap_hermes.Tools.Services.{
  ServiceDefinition, Catalog, Cache, Sdk, ServiceRequest, checked, pass, check_address,
  check_originator, check_catalog, check_canonical, check_service, build_request_origin,
  aap_send_service_request,
}
use aap_hermes.Tools.Services.Guarded.{IsAllowed, outcome-IsAllowed}
use aap_hermes.Tools.Services.Answered.{asked, answer-aap_send_service_request}
use aap_hermes.Examples.Stores.{
  conversation_list, peer_list, session_map, nobody_waits, new_year, platform_named, home,
}
use aap_hermes.Examples.Requests.{diner, forgeries, forgeries-IsForged, missing-IsWellFormed, free}
use aap_hermes.Examples.World.{addresses, repr, quiet}

abbrev Now : Type 0
Now = State conversation_list peer_list session_map nobody_waits new_year 100 repr platform_named

abbrev silent :
    Handler conversation_list peer_list session_map nobody_waits new_year 100 repr platform_named
silent ev s = (none, s)

abbrev book_table : ServiceDefinition
book_table = record { service_id = "book-table"; verification_required = [] }

abbrev diner_catalog : Catalog
diner_catalog = record { canonical_agent_address = none; get = λ id. some book_table }

abbrev catalogs : Cache
catalogs = some (λ address. some (some diner_catalog))

abbrev sdk : Sdk ServiceRequest
sdk = record {
  is_valid = λ payload service. true;
  matching = λ type verifiers days. none;
  send_envelope_raw = λ request. true;
}

-- a relay that takes nothing
abbrev booking : ServiceRequest
booking = record {
  to = diner;
  service_id = "book-table";
  payload = "two";
  attestations = [];
  nonce = "n1";
}

-- in the user's chat
abbrev at_home : Now
at_home = record {
  world = record quiet { context = record outside { session_source = some home } };
  origins = missing;
  pending = 0;
  journal = [];
}

allowed :
    checked sdk addresses at_home.world.context catalogs "n1" diner "book-table" "two"
    ≡ pass booking
unfolding checked parse_user_address ends_with strip ◌==◌ check_address check_originator
    check_catalog check_canonical check_service
allowed = refl

sends :
    (aap_send_service_request conversation_list peer_list session_map nobody_waits new_year 100 repr
      platform_named sdk addresses catalogs 5 5 writable none "n1" diner "book-table" "two" none
      at_home).1
    ≡ booking ∷ []
unfolding aap_send_service_request checked parse_user_address ends_with strip ◌==◌ check_address
    check_originator check_catalog check_canonical check_service build_request_origin record_origin
    prune load lookup save
sends = refl

outcome-IsAllowed_example :
    IsAllowed sdk addresses at_home.world.context catalogs "n1" diner "book-table" "two" booking
    × (◌≡◌ {A = List ServiceRequest} [] [])
outcome-IsAllowed_example =
    outcome-IsAllowed conversation_list peer_list session_map nobody_waits new_year 100 repr
      platform_named sdk addresses catalogs 5 5 writable none "n1" diner "book-table" "two" none
      at_home booking [] sends

abbrev confirmation : ServiceResponse
confirmation = record {
  request_nonce = "n1";
  service_id = "book-table";
  status = confirmed;
  payload = none;
  denial_reason = "None";
}

-- the state after the request and the forged answers
abbrev attacked : Now
attacked = record at_home {
  origins =
      attempts new_year 100 forgeries
        (asked conversation_list peer_list session_map nobody_waits new_year 100 repr platform_named
          sdk addresses catalogs 5 5 none diner "book-table" "two" none at_home confirmation booking
          home).origins;
}

requested_at :
    created new_year 100 (object (asdict (from_session_source new_year 5 home diner none)))
    ≡ aware 5
unfolding created parse_iso asdict lookup replace starts_with ◌==◌ from_session_source utcnow_iso
requested_at = refl

home-IsKept : IsKept platform_named home
unfolding ◌==◌
home-IsKept = record {
  platform = refl;
  known = refl;
  chat = ("77", refl, refl);
  kind = ("dm", refl, refl);
  unnamed = refl;
}

answer-aap_send_service_request_example :
    IsAnswered conversation_list peer_list session_map nobody_waits new_year 100 repr platform_named
      silent 5 5 9 5 "now" diner confirmation home none forgeries missing
      (recorded new_year 100 5 "n1" (from_session_source new_year 5 home diner none) missing)
      (Origins.sent "n1" (from_session_source new_year 5 home diner none))
      attacked
      (handle_service_response conversation_list peer_list session_map nobody_waits new_year 100
        repr platform_named
        (some silent)
        9
        writable
        "now"
        diner
        (some confirmation)
        attacked)
answer-aap_send_service_request_example =
    answer-aap_send_service_request conversation_list peer_list session_map nobody_waits new_year
      100 repr platform_named sdk addresses catalogs 5 5 none diner "book-table" "two" none at_home
      confirmation booking home silent 9 5 "now" forgeries attacked allowed refl refl
      missing-IsWellFormed free requested_at (omega arith) forgeries-IsForged home-IsKept refl refl
