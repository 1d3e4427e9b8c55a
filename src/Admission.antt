-- ===== src/Admission.antt =====
-- The way of a packet through `_onRequest` of src/PerfectWS.ts, up to the response that it begins or
-- reaches. The table of responses is a list in which `_getActiveResponse` finds; that a request id is
-- the text of a pair and two clients share it, where one entry may take the place of another, is left
-- out (see ResponseTable). A known response is left to the model of its life (see Response);
-- duplicates and early aborts are those of Ack.Dedupe and PendingAborts.
pub mod Counts
pub mod Keeps
pub mod Capacity
pub mod Isolation
pub mod Sync
mod Tests
use perfect_ws.Base.{
  ℕ, suc, ◌+◌, String, Bool, true, false, not, ◌&&◌, ◌||◌, Option, none, some, List, [], ◌∷◌, ◌++◌,
  leb, if◌then◌else◌, ◌==◌, string_eq, nat_eq, count_if, keep_if, or_default,
}
use perfect_ws.JsMap.{JsMap, get, set}
use perfect_ws.Protocol.{is_capacity_exempt}
use perfect_ws.Ack.Dedupe.{Limits, Processed, accept_packet}
use perfect_ws.PendingAborts.{Config as AbortConfig, Aborts, is_full, add_abort, take_abort}

pub record Packet : Type 0 where
  pub method : String
  pub request_id : String
  -- the name of its event
  pub event : Option String
  -- the empty text for none
  pub packet_id : String
  pub client_id : Option String
  pub require_ack : Bool
  -- `isValidRequestTimeout`, of the claimed timeout or that of the configuration
  pub valid_timeout : Bool
  -- `data.ackFor`, where it is a text
  pub ack_for : Option String

pub record Client : Type 0 where
  pub socket : ℕ
  -- the client id that authentication has bound to the socket
  pub bound : Option String

-- A response of `_activeResponses`.
pub record Active : Type 0 where
  pub ref : ℕ
  pub of_client : String
  pub of_request : String
  pub internal : Bool
  pub of_method : String

pub record Server : Type 0 where
  pub active : List Active
  pub aborts : Aborts
  pub processed : Processed
  -- `_perfectWSDedupeClientId` of the sockets
  pub dedupe_clients : JsMap ℕ String
  pub pending_acks : List String
  pub next_ref : ℕ

pub data Verdict : Type 0 where
  acknowledged : Verdict
  -- an error frame with this code
  refused : (code : String) → Verdict
  duplicate : Verdict
  -- a response that is known
  reached : (ref : ℕ) → Verdict
  abort_noted : Verdict
  -- `client.forceClose(1013, …)`
  socket_closed : Verdict
  session_released : Verdict
  ignored : Verdict
  -- a response of its own: for no method, aborted before it began, or run
  begins_not_found begins_aborted begins : (ref : ℕ) → Verdict

pub record Config : Type 0 where
  pub max_active_requests : ℕ
  pub max_internal_requests : ℕ
  pub enable_ack_system : Bool
  pub limits : Limits
  pub abort_config : AbortConfig

pub data Identity : Type 0 where
  mismatch missing : Identity
  is_client : String → Identity

pub claimed_identity : Option String → Identity
claimed_identity none = missing
claimed_identity (some c) = if c == "" then missing else is_client c

pub identify : (bound claimed : Option String) → Identity
unfolding claimed_identity
identify none claimed = claimed_identity claimed
identify (some b) none = mismatch
identify (some b) (some c) = if c == b then claimed_identity (some c) else mismatch

pub is_response : String → String → Active → Bool
is_response client request a = a.of_client == client && a.of_request == request

-- The response of a client for a request id.
pub find_own : String → String → List Active → Option Active
unfolding is_response
find_own client request [] = none
find_own client request (a ∷ rest) =
    if is_response client request a then some a else find_own client request rest

-- What stands under a text as its request id, whichever client it is of.
pub find_under : String → List Active → Option Active
find_under text [] = none
find_under text (a ∷ rest) = if a.of_request == text then some a else find_under text rest

-- `_getActiveResponse`: the second lookup is by the text of the pair, under which another response may
-- stand as under its request id.
pub find_response : (String → String → String) → String → String → List Active → Option Active
unfolding find_own find_under
find_response key client request active = elim (find_own client request active) [
  | some a ↦ some a
  | none ↦ find_under (key client request) active
]

-- The responses that a new one of this method and client is counted with.
pub counts_with : String → String → Active → Bool
counts_with client method a =
    if is_capacity_exempt method
    then a.internal && (a.of_method == method && a.of_client == client)
    else not a.internal

-- The `___syncRequests` of a client puts an end to its earlier ones.
pub release_syncs : String → Packet → List Active → List Active
release_syncs client p active =
    if p.method == "___syncRequests"
    then keep_if
        (λ a. not (
          not (a.of_request == p.request_id) && (a.of_client == client && a.of_method == p.method)))
        active
    else active

pub new_active : ℕ → String → Packet → Active
new_active r client p = record {
  ref = r;
  of_client = client;
  of_request = p.request_id;
  internal = is_capacity_exempt p.method;
  of_method = p.method;
}

pub request_limit : Config → String → ℕ
request_limit config method =
    if is_capacity_exempt method then config.max_internal_requests else config.max_active_requests

-- The client id that duplicates are looked up under, and the sockets after it is noted.
pub dedupe_client : ℕ → String → JsMap ℕ String → String
dedupe_client socket client clients = or_default (get clients socket) client

module _ (config : Config) (key : String → String → String) (is_route : String → Bool) where
  pub begin_route : String → Packet → Server → ℕ → Server × Verdict
  begin_route client p s r =
      let t = take_abort key config.abort_config client p.request_id s.aborts in
      (record s { aborts = t.1 }, if t.0 then begins_aborted r else begins r)

  pub begin_response : String → Packet → Server → Server × Verdict
  unfolding begin_route new_active
  begin_response client p s =
      let r = s.next_ref in
      let s' : Server = record s {
        active = s.active ++ (new_active r client p ∷ []);
        next_ref = suc r;
      } in
      if is_route p.method then begin_route client p s' r else (s', begins_not_found r)

  -- The part after the events, once `release_syncs` is done.
  pub admit_request : String → Packet → Server → Server × Verdict
  unfolding begin_response counts_with request_limit
  admit_request client p s =
      if leb (request_limit config p.method) (count_if (counts_with client p.method) s.active)
      then (s, refused "tooManyRequests")
      else begin_response client p s

  -- An event for a response that is not known.
  pub on_unknown_event : ℕ → String → Packet → String → Server → Server × Verdict
  on_unknown_event now client p event s =
      if event == "___abort"
      then if is_full key config.abort_config client p.request_id s.aborts
        then (s, socket_closed)
        else (
          record s { aborts = add_abort key config.abort_config now client p.request_id s.aborts },
          abort_noted,
        )
      else if event == "___session.release"
      then (
        record s { active = keep_if (λ a. not (a.of_client == client)) s.active },
        session_released,
      )
      else if event == "___request.release"
      then (s, ignored)
      else (s, refused "requestNotFound")

  pub on_unknown : ℕ → String → Packet → Server → Server × Verdict
  unfolding on_unknown_event release_syncs admit_request
  on_unknown now client p s =
      if p.valid_timeout
      then elim p.event [
        | some event ↦ on_unknown_event now client p event s
        | none ↦ admit_request client p (record s { active = release_syncs client p s.active })
      ]
      else (s, refused "invalidTimeout")

  pub on_accepted : ℕ → String → Packet → Server → Server × Verdict
  unfolding find_response on_unknown
  on_accepted now client p s = elim (find_response key client p.request_id s.active) [
    | some a ↦ (s, reached a.ref)
    | none ↦ on_unknown now client p s
  ]

  -- A packet that is to be acknowledged, under the client id of its socket.
  pub on_numbered : ℕ → String → Packet → String → Server → Server × Verdict
  unfolding on_accepted
  on_numbered now client p d s =
      let o = accept_packet config.limits now p.packet_id p.request_id (some d) s.processed in
      let told : Server = record s { processed = o.processed } in
      if o.accepted then on_accepted now client p told else (told, duplicate)

  pub on_client : ℕ → ℕ → String → Packet → Server → Server × Verdict
  unfolding dedupe_client on_accepted on_numbered
  on_client now socket client p s =
      let d = dedupe_client socket client s.dedupe_clients in
      let noted : Server = record s { dedupe_clients = set s.dedupe_clients socket d } in
      if (config.enable_ack_system || p.require_ack) && not (p.packet_id == "")
      then on_numbered now client p d noted
      else on_accepted now client p noted

  pub on_identified : ℕ → ℕ → Identity → Packet → Server → Server × Verdict
  unfolding on_client
  on_identified now socket mismatch p s = (s, refused "clientIdMismatch")
  on_identified now socket missing p s = (s, refused "invalidClientId")
  on_identified now socket (is_client client) p s = on_client now socket client p s

  pub on_request : ℕ → Client → Packet → Server → Server × Verdict
  unfolding identify on_identified
  on_request now client p s =
      if p.method == "___ack"
      then elim p.ack_for [
        | some id ↦
            (record s { pending_acks = keep_if (λ a. not (a == id)) s.pending_acks }, acknowledged)
        | none ↦ on_identified now client.socket (identify client.bound p.client_id) p s
      ]
      else on_identified now client.socket (identify client.bound p.client_id) p s

  pub data Event : Type 0 where
    packet : ℕ → Client → Packet → Event
    -- a response is released
    leaves : (ref : ℕ) → Event

  pub step : Server → Event → Server
  unfolding on_request
  step s (packet now client p) = (on_request now client p s).0
  step s (leaves ref) = record s { active = keep_if (λ a. not (a.ref == ref)) s.active }

  pub run : Server → List Event → Server
  unfolding step
  run s [] = s
  run s (e ∷ es) = run (step s e) es
