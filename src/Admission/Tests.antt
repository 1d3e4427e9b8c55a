-- ===== src/Admission/Tests.antt =====
-- A server with room for two requests.
use perfect_ws.Base.{
  ℕ, String, ◌≡◌, refl, Bool, true, false, not, ◌&&◌, none, some, List, [], ◌∷◌, map, arith,
  if◌then◌else◌, is_some, any, ◌==◌, nat_eq, string_eq,
}
use Prim.Native.String.{◌++◌}
use perfect_ws.JsMap.{get, set, delete, has}
use perfect_ws.Protocol.{is_capacity_exempt}
use perfect_ws.Admission.{
  Packet, Client, Active, Server, reached, Config, claimed_identity, identify, is_response,
  find_own, find_under, find_response, counts_with, release_syncs, new_active, request_limit,
  dedupe_client, begin_route, begin_response, admit_request, on_unknown_event, on_unknown,
  on_accepted, on_numbered, on_client, on_identified, on_request, Event, packet, step, run,
}
use perfect_ws.Response.{
  Response, Env, release_by, abort, end_response, tear_down, release_response, on_request_abort,
}
use perfect_ws.Response.Events.{open_response, opened}
use perfect_ws.Admission.Capacity.{IsWithin, run-IsWithin}
use perfect_ws.Admission.Isolation.{others, reaches_own, others-on_request}
use perfect_ws.Admission.Sync.{
  end_unnamed, sync_response, sync_each, names, sync_responses, unknown_requests,
  names-unknown_requests, has_ref, drops, aborts, sync_responses-settles,
}

computing : Unit {0}
unfolding get set delete has run step on_request on_identified on_client on_accepted on_numbered
    on_unknown on_unknown_event admit_request begin_response begin_route new_active request_limit
    release_syncs counts_with find_own find_under find_response is_response identify
    claimed_identity dedupe_client is_capacity_exempt
computing = tt

abbrev key : String → String → String
key client request = client ++ ("/" ++ request)

abbrev any_route : String → Bool
any_route method = true

abbrev config : Config
config = record {
  max_active_requests = 2;
  max_internal_requests = 1;
  enable_ack_system = false;
  limits = record {
    processed_packets_retention = 10;
    max_processed_packets = 4;
    max_processed_packet_clients = 2;
    max_total_processed_packets = 6;
  };
  abort_config = record {
    max_pending_aborts = 2;
    max_total_pending_aborts = 3;
    pending_aborts_min_age = 10;
  };
}

abbrev fresh : Server
fresh = record {
  active = [];
  aborts = [];
  processed = record { packets = []; by_client = []; by_client_count = 0 };
  dedupe_clients = [];
  pending_acks = [];
  next_ref = 0;
}

abbrev packet_of : String → String → String → Packet
packet_of client method request = record {
  method = method;
  request_id = request;
  event = none;
  packet_id = "";
  client_id = some client;
  require_ack = false;
  valid_timeout = true;
  ack_for = none;
}

abbrev from : String → Client
from client = record { socket = 1; bound = some client }

abbrev calls : List (Event config key any_route)
calls =
    packet 1 (from "a") (packet_of "a" "x" "1")
    ∷ packet 2 (from "b") (packet_of "b" "x" "1")
    ∷ packet 3 (from "a") (packet_of "a" "x" "2")
    ∷ packet 4 (from "b") (packet_of "a" "___ping" "3")
    ∷ []

-- The third call is over the limit, and the fourth names another client than its socket's.
two_active : map (λ a. a.of_client) (run config key any_route fresh calls).active ≡ "a" ∷ "b" ∷ []
unfolding computing
two_active = refl

run-IsWithin_example : IsWithin config (run config key any_route fresh calls).active
run-IsWithin_example =
    run-IsWithin config key any_route fresh calls ((λ c i. omega arith), (λ c m. omega arith))

abbrev session_release : Packet
session_release = record (packet_of "b" "" "9") { event = some "___session.release" }

others-on_request_example :
    (others "b"
        (on_request config key any_route 5
          (from "b")
          session_release
          (run config key any_route fresh calls)).0.active
      ≡ others "b" (run config key any_route fresh calls).active)
    × (reaches_own "b"
          (run config key any_route fresh calls).active
          (on_request config key any_route 5
            (from "b")
            session_release
            (run config key any_route fresh calls)).1
        ≡ true)
unfolding computing
others-on_request_example =
    others-on_request config key any_route 5 1 "b" session_release
      (run config key any_route fresh calls) refl

-- The release of its session takes the client's responses away, and another packet for a response
-- reaches it.
session_released_run :
    (map
        (λ a. a.of_client)
        (on_request config key any_route 5
          (from "b")
          session_release
          (run config key any_route fresh calls)).0.active
      ≡ "a" ∷ [])
    × ((on_request config key any_route 5
          (from "b")
          (packet_of "b" "x" "1")
          (run config key any_route fresh calls)).1
        ≡ reached 1)
unfolding computing
session_released_run = (refl, refl)

-- A request id that is the text of another client and request id has its response reached by that
-- client.
foreign_reached :
    (on_request config key any_route 5 (from "b") (packet_of "b" "x" "7") (
      run config key any_route fresh
        (packet 1 (from "a") (packet_of "a" "x" (key "b" "7")) ∷ []))).1
    ≡ reached 0
unfolding computing
foreign_reached = refl

abbrev active : List Active
active =
    new_active 0 "a" (packet_of "a" "x" "1")
    ∷ new_active 1 "a" (packet_of "a" "x" "2")
    ∷ new_active 2 "b" (packet_of "b" "x" "1")
    ∷ []

names-unknown_requests_example :
    names "3" (unknown_requests "a" ("1" ∷ "3" ∷ []) active)
    ≡ (names "3" ("1" ∷ "3" ∷ []) && not (is_some (find_own "a" "3" active)))
names-unknown_requests_example = names-unknown_requests "a" "3" ("1" ∷ "3" ∷ []) active

abbrev plain : Env
plain = record { keep_alive = false; unregistered = false }

-- The first response is kept alive, and the second one is not.
abbrev env : ℕ → Env
env r = if r == 0 then record plain { keep_alive = true } else plain

abbrev response : ℕ → Response ℕ
response r = open_response 1 false

unnamed_leave :
    (map (λ a. a.ref) (sync_responses env response "a" "9" [] active).active ≡ 0 ∷ 2 ∷ [])
    × ((sync_responses env response "a" "9" [] active).aborted ≡ 0 ∷ 1 ∷ [])
unfolding sync_responses sync_each sync_response end_unnamed release_response on_request_abort
    release_by abort end_response tear_down open_response new_active
unnamed_leave = (refl, refl)

sync_responses-settles_example :
    (has_ref 1 (sync_responses env response "a" "9" ("1" ∷ []) active).active ≡ (
      has_ref 1 active
      && not (any (λ a. a.of_client == "a" && drops env response "a" "9" ("1" ∷ []) 1 a) active)))
    × (any (λ a. a == 1) (sync_responses env response "a" "9" ("1" ∷ []) active).aborted
        ≡ any (λ a. a.of_client == "a" && aborts env response "a" "9" ("1" ∷ []) 1 a) active)
unfolding open_response
sync_responses-settles_example =
    sync_responses-settles env response "a" "9" ("1" ∷ []) true (λ i. 1) (λ i. false) 1 active
      (λ i. opened) (λ i. refl)
