-- ===== src/Protocol.antt =====
-- The words that both sides of the protocol share: errors as in `WSErrorShape` of src/PerfectWS.ts,
-- and src/utils/requestProtocol.ts.
use perfect_ws.Base.{
  String, Bool, ◌||◌, ◌&&◌, List, [], ◌∷◌, ◌==◌, string_eq, any, Option, some, none,
}

-- `WSErrorShape`
pub record WsError : Type 0 where
  pub message : String
  pub code : String

abbrev pub internal_events : List String
internal_events =
    "___request.finished" ∷ "___request.connected" ∷ "___request.disconnected"
    ∷ "___request.resourcesChanged" ∷ "___request.sendFailed" ∷ "___request.operationSettled"
    ∷ "___request.eventDelivered" ∷ "___session.release" ∷ []

abbrev pub capacity_exempt_methods : List String
capacity_exempt_methods = "___syncRequests" ∷ "___hasRequest" ∷ "___ping" ∷ []

pub is_internal_event : String → Bool
is_internal_event name = any (λ e. e == name) internal_events

unfoldable pub is_capacity_exempt : String → Bool
is_capacity_exempt method = any (λ m. m == method) capacity_exempt_methods

-- `isDurableControlEvent`, on the event's name and the `op` of its first argument.
unfoldable pub is_durable_control_event : String → Option String → Bool
is_durable_control_event name op =
    name == "___callback.release"
    || name == "___pureRPC.request" && or_release op
    || name == "___abort"
    || name == "___request.release"
    || name == "___callback.request"
    || name == "___callback.response"
    || name == "___pureRPC.request"
    || name == "___pureRPC.response"
  where
    or_release : Option String → Bool
    or_release none = Bool.false
    or_release (some o) = o == "release"
