-- ===== src/Examples/Answers.antt =====
-- A business's answer, and a forged one.
use aap_hermes.Prelude.{◌≡◌, refl, none, some, true, List, [], ◌∷◌, arith, ◌==◌}
use aap_hermes.Prelude.Dict.{lookup, insert}
use aap_hermes.Origins
use aap_hermes.Origins.{
  Logged, record_origin, prune, save, File, entries, missing, writable, load, asdict, object,
  RequestOrigin, created, aware, or_null, from_session_source, utcnow_iso, parse_iso,
}
use aap_hermes.Prelude.Text.{replace, starts_with}
use aap_hermes.Origins.Life.{attempts}
use aap_hermes.Adapter.Services.{
  ServiceResponse, confirmed, State, Handler, handle_service_response,
}
use aap_hermes.Adapter.Services.Routed.{IsKept, IsAnswered, handle_service_response-record}
use aap_hermes.Examples.Stores.{
  conversation_list, peer_list, session_map, nobody_waits, new_year, platform_named, home,
}
use aap_hermes.Examples.Requests.{diner, forgeries, forgeries-IsForged, missing-IsWellFormed}
use aap_hermes.Examples.World.{repr, quiet}

abbrev Now : Type 0
Now = State conversation_list peer_list session_map nobody_waits new_year 100 repr platform_named

abbrev silent :
    Handler conversation_list peer_list session_map nobody_waits new_year 100 repr platform_named
silent ev s = (none, s)

abbrev confirmation : ServiceResponse
confirmation = record {
  request_nonce = "n1";
  service_id = "book-table";
  status = confirmed;
  payload = none;
  denial_reason = "None";
}

-- what the request leaves
abbrev request : RequestOrigin
request = from_session_source new_year 5 home diner none

abbrev attacked_file : File
attacked_file = attempts new_year 100 forgeries (entries (("n1", object (asdict request)) ∷ []))

abbrev waiting : Now
waiting = record { world = quiet; origins = attacked_file; pending = 0; journal = [] }

requested_at : created new_year 100 (object (asdict request)) ≡ aware 5
unfolding created parse_iso asdict lookup replace starts_with ◌==◌ from_session_source utcnow_iso
requested_at = refl

home-IsKept : IsKept platform_named home
unfolding ◌==◌
home-IsKept = record {
  platform = refl;
  known = refl;
  chat = ("77", refl, refl);
  kind = ("dm", refl, refl);
  unnamed = refl;
}

-- the file with the request, and what was logged
abbrev stored_file : File
stored_file = entries (("n1", object (asdict request)) ∷ [])

abbrev lines : List Logged
lines = Origins.sent "n1" request

recorded_first :
    record_origin new_year 100 5 writable "n1" request missing ≡ some (stored_file, true, lines)
unfolding record_origin prune load save lookup insert
recorded_first = refl

handle_service_response-record_example :
    IsAnswered conversation_list peer_list session_map nobody_waits new_year 100 repr platform_named
      silent 5 5 9 5 "now" diner confirmation home none forgeries missing stored_file lines waiting
      (handle_service_response conversation_list peer_list session_map nobody_waits new_year 100
        repr platform_named
        (some silent)
        9
        writable
        "now"
        diner
        (some confirmation)
        waiting)
handle_service_response-record_example =
    handle_service_response-record conversation_list peer_list session_map nobody_waits new_year 100
      repr platform_named silent 5 5 9 5 "now" diner confirmation home none forgeries missing
      stored_file lines waiting missing-IsWellFormed recorded_first requested_at (omega arith)
      forgeries-IsForged home-IsKept refl refl
