-- ===== src/Response/Tests.antt =====
-- Histories of a response, and the theorems at them.
use perfect_ws.Base.{ℕ, ◌≡◌, refl, true, false, [], ◌∷◌, nat_eq, string_eq}
use perfect_ws.Protocol.{WsError}
use perfect_ws.Response.{
  partial, final_data, final_error, relayed, Response, Env, tear_down, release_by, end_response,
  abort, release_response, begin_response_finish, send_frame, on_resources_changed,
  on_request_abort, send_unserializable, on_timeout, answer, send, after_send, relay_local_event,
  relay_settled,
}
use perfect_ws.Response.Events.{
  open_response, sends, send_fails, answer_fails, returns, answer_sent, times_out, relays,
  relay_settles, step, Reach, opened, next,
}
use perfect_ws.Response.Once.{IsAnswered, response-IsAnswered}
use perfect_ws.Response.Release.{IsGone, delivers, response-IsGone}

computing : Unit {0}
unfolding open_response step tear_down release_by end_response abort release_response
    begin_response_finish send_frame send_unserializable answer send after_send relay_local_event
    relay_settled on_resources_changed on_request_abort on_timeout
computing = tt

abbrev plain : Env
plain = record { keep_alive = false; unregistered = false }

-- The handler sends one part and returns; an event that must be delivered is still under way.
abbrev answered : Response ℕ
answered = step plain answer_sent (
    step plain (returns 8 true) (
      step plain (relays "___callback.request" true)
        (step plain (sends 7 false true) (open_response 3 true))))

answered-Reach : Reach true 3 true answered
unfolding computing
answered-Reach =
    next plain answer_sent (refl, refl)
      (next plain (returns 8 true) tt (
        next plain (relays "___callback.request" true) tt
          (next plain (sends 7 false true) tt opened)))

answered_sent :
    (answered.sent ≡ final_data 8 ∷ relayed "___callback.request" ∷ partial 7 ∷ [])
    × (answered.response_released ≡ false)
    × ((step plain relay_settles answered).response_released ≡ true)
unfolding computing
answered_sent = (refl, refl, refl)

-- A time-out answers by an error, and the handler's own result comes too late.
late :
    (step plain (returns 8 true) (step plain times_out (open_response {D = ℕ} 3 true))).sent
    ≡ final_error (record { message = "Request timeout"; code = "timeout" }) ∷ []
unfolding computing
late = refl

abbrev unserializable : WsError
unserializable = record { message = "no JSON"; code = "serializeFailed" }

-- A handler sends a value that cannot be serialized and returns at once: its answer is sent first, and
-- the `catch` of the first send sends a second final frame.
answered_twice :
    (step plain (send_fails unserializable) (
      step plain
        (returns 8 true)
        (step plain (sends 7 false false) (open_response {D = ℕ} 3 true)))).sent
    ≡ final_error unserializable ∷ final_data 8 ∷ []
unfolding computing
answered_twice = refl

-- A return value that cannot be serialized is answered by its error.
answer_unserialized :
    (step plain
      (answer_fails unserializable)
      (step plain (returns 8 false) (open_response {D = ℕ} 3 true))).sent
    ≡ final_error unserializable ∷ []
unfolding computing
answer_unserialized = refl

response-IsAnswered_example : IsAnswered answered
response-IsAnswered_example = response-IsAnswered 3 true answered answered-Reach

response-IsGone_example : IsGone (relay_settled plain answered)
unfolding computing
response-IsGone_example =
    response-IsGone 3 true plain answered (relay_settled plain answered) answered-Reach
      (delivers refl refl refl)
