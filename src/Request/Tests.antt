-- ===== src/Request/Tests.antt =====
-- Histories of a request, and the theorems at them.
use perfect_ws.Base.{ℕ, ◌≡◌, refl, true, false, none, some, [], ◌∷◌, arith, nat_eq, string_eq}
use perfect_ws.Request.{
  resolved, rejected, Request, Env, failure, emit_durable, tear_down, emit_release_once,
  release_finished, settle, finish, note_call, reenter, callback, fail, release_with,
  on_request_abort, abort, on_resources_changed, release_request, relay_settled, start_sending,
  receive,
}
use perfect_ws.Request.Events.{
  open_request, starts, content_sent, content_confirmed, responds, unknown, user_aborts,
  relay_settles, step, Reach, opened, next,
}
use perfect_ws.Request.Delivery.{IsNotResent, request-IsNotResent}
use perfect_ws.Request.Release.{request-released}

computing : Unit {0}
unfolding open_request step emit_durable tear_down emit_release_once release_finished settle finish
    note_call reenter callback fail on_request_abort abort release_request release_with
    relay_settled on_resources_changed start_sending receive
computing = tt

abbrev plain : Env
plain = record { keep_alive = false; unregistered = false }

abbrev sent : Request ℕ
sent =
    step plain content_confirmed
      (step plain content_sent (step plain starts (open_request false true none)))

sent-Reach : Reach false true none sent
unfolding computing
sent-Reach =
    next plain content_confirmed (omega arith)
      (next plain content_sent tt (next plain starts refl opened))

-- The caller aborts: the promise is rejected at once, the request goes when the abort is delivered.
abbrev aborted : Request ℕ
aborted = step plain (user_aborts "stop") sent

aborted-Reach : Reach false true none aborted
aborted-Reach = next plain (user_aborts "stop") tt sent-Reach

aborted_settled :
    (aborted.settlements ≡ rejected (failure "stop" "abort") ∷ [])
    × (aborted.released ≡ false)
    × ((step plain relay_settles aborted).released ≡ true)
unfolding computing
aborted_settled = (refl, refl, refl)

responded : (step plain (responds (some 9) none true) sent).settlements ≡ resolved (some 9) ∷ []
unfolding computing
responded = refl

-- The callback aborts its signal within the final call: it is called again with the error of the abort,
-- and the promise is rejected though a value had come.
called_again :
    let r =
      step plain
        (responds (some 9) none true)
        (step plain starts (open_request {D = ℕ} false true (some "stop"))) in
    (r.settlements ≡ rejected (failure "stop" "abort") ∷ [])
    × (r.calls
        ≡ record { value = none; error = some (failure "stop" "abort"); down = true }
          ∷ record { value = some 9; error = none; down = true }
          ∷ [])
unfolding computing
called_again = (refl, refl)

request-IsNotResent_example : IsNotResent sent (step plain unknown sent)
unfolding computing
request-IsNotResent_example = request-IsNotResent false true sent plain unknown sent-Reach tt refl

request-released_example :
    let r' = relay_settled plain aborted in
    (r'.released ≡ true)
    × (r'.registered ≡ false)
    × (r'.relay_attached ≡ false)
    × (r'.resources_released ≡ 1)
unfolding computing
request-released_example =
    request-released false true aborted plain aborted-Reach refl refl refl refl
