-- ===== src/Callbacks/Calls.antt =====
-- The calls of the peer's functions: `_activeRequests`, and how each of the promises that
-- `_invokeReceived` gives is settled. A call is a number, made new by `randomUUID`; a result is a
-- parameter, and the text of an error is what `errorMessage` gives. The notice of a response to those
-- who still send its call (see Sending) is left out.
pub mod Settled
mod Tests
use perfect_ws.Base.{
  ℕ, suc, String, Bool, true, false, not, ◌||◌, Option, none, some, List, [], ◌∷◌, ◌++◌, map, leb,
  if◌then◌else◌, ◌==◌, nat_eq, string_eq, any, keep_if, length, or_default,
}
use perfect_ws.Protocol.{WsError}

pub data Outcome (A : Type 0) : Type 0 where
  resolved : A → Outcome A
  rejected : WsError → Outcome A

-- `___callback.request`
pub record Sent : Type 0 where
  pub func_id : String
  pub call_id : ℕ
  pub durable : Bool

pub record Calls (A : Type 0) : Type 0 where
  -- the keys of `_activeRequests`
  pub active : List ℕ
  pub next_call : ℕ
  pub sent : List Sent
  -- how promises were settled, the latest first
  pub outcomes : List (ℕ × Outcome A)
  -- the calls that were refused at once
  pub refusals : List WsError
  pub released : Bool

module _ {A : Type 0} where
  unfoldable pub fresh : Calls A
  fresh = record {
    active = [];
    next_call = 0;
    sent = [];
    outcomes = [];
    refusals = [];
    released = false;
  }

  -- `_invokeReceived`
  pub invoke : (max_operations : ℕ) → (func_id : String) → (durable : Bool) → Calls A → Calls A
  invoke max_operations func_id durable c =
      if c.released
      then record c {
        refusals =
            record { message = "Callback channel released"; code = "callbackReleased" }
            ∷ c.refusals;
      }
      else if leb max_operations (length c.active)
      then record c {
        refusals =
            record { message = "Too many callback operations"; code = "callbackCapacity" }
            ∷ c.refusals;
      }
      else record c {
        active = c.active ++ (c.next_call ∷ []);
        next_call = suc c.next_call;
        sent = record { func_id = func_id; call_id = c.next_call; durable = durable } ∷ c.sent;
      }

  pub is_active : ℕ → Calls A → Bool
  is_active id c = any (λ i. i == id) c.active

  pub take_out : ℕ → Outcome A → Calls A → Calls A
  take_out id outcome c = record c {
    active = keep_if (λ i. not (i == id)) c.active;
    outcomes = (id, outcome) ∷ c.outcomes;
  }

  -- A call that is there is taken out, and its promise settled.
  pub settle : ℕ → Outcome A → Calls A → Calls A
  unfolding is_active take_out
  settle id outcome c = if is_active id c then take_out id outcome c else c

  -- `_onCallbackResponse`: a message with an error, or with a result.
  pub on_response : ℕ → (error : Option String) → A → Calls A → Calls A
  unfolding settle
  on_response id none value c = settle id (resolved value) c
  on_response id (some message) value c =
      settle id (rejected (record { message = message; code = "callbackError" })) c

  -- Every promise is rejected with the same error.
  pub reject_all : WsError → Calls A → Calls A
  reject_all error c = record c {
    active = [];
    outcomes = map (λ i. (i, rejected error)) c.active ++ c.outcomes;
  }

  -- `_onTransportSendFailed`: of one call, or of the whole connection, where no event is named.
  pub on_send_failed :
      (message event_name : Option String) → (operation_id : Option ℕ) → Calls A → Calls A
  unfolding settle reject_all
  on_send_failed message none operation c =
      reject_all
        (record {
          message = or_default message "Callback transport send failed";
          code = "callbackDisconnected";
        })
        c
  on_send_failed message (some name) none c = c
  on_send_failed message (some name) (some id) c =
      if name == "___callback.request" || name == "___callback.response"
      then settle id
          (rejected (record {
            message = or_default message "Callback transport send failed";
            code = "callbackDisconnected";
          }))
          c
      else c

  -- `releaseAll`, for the calls.
  pub release_all : Calls A → Calls A
  unfolding reject_all
  release_all c =
      if c.released
      then c
      else record (reject_all
          (record { message = "Callback channel released"; code = "callbackReleased" }) c) {
            released = true;
          }

pub data Event (A : Type 0) : Type 0 where
  invokes : (func_id : String) → (durable : Bool) → Event A
  responds : (id : ℕ) → (error : Option String) → (value : A) → Event A
  send_fails : (message event_name : Option String) → (operation_id : Option ℕ) → Event A
  releases : Event A

module _ {A : Type 0} (max_operations : ℕ) where
  -- A released channel hears no event any more.
  pub step : Event A → Calls A → Calls A
  unfolding invoke on_response on_send_failed release_all
  step (invokes func_id durable) c = invoke max_operations func_id durable c
  step (responds id error value) c = if c.released then c else on_response id error value c
  step (send_fails message name id) c = if c.released then c else on_send_failed message name id c
  step releases c = release_all c

  -- The events, the latest first.
  pub run : List (Event A) → Calls A
  unfolding step fresh
  run [] = fresh
  run (e ∷ es) = step e (run es)
