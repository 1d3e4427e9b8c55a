-- ===== src/Response/Once.antt =====
-- When a response is answered at most once, and nothing follows the answer.
use perfect_ws.Base.{
  ℕ, ◌-◌, ◌≤◌, ◌≡◌, refl, ◌⊎◌, inr, Bool, true, false, ◌||◌, List, [], ◌∷◌, arith, String, any,
  count_if,
}
use perfect_ws.Protocol.{WsError}
use perfect_ws.Response.{
  send_unserializable, Response, Env, Frame, partial, final_data, final_error, channel_error,
  relayed, end_response, abort, release_response, can_finish, send_frame, on_resources_changed,
  on_request_abort, answer_error, on_timeout, answer, send, after_send, after_unserializable,
  relay_local_event, relay_settled, send_channel_error, give_up, connect, on_client_close,
}
use perfect_ws.Response.Events.{
  Event, step, open_response, Reach, opened, next, Enabled, send_fails, answer_fails, sends,
  sent_settles, failure_sent, rejects, returns, answer_sent, times_out, gives_up, remote_abort,
  resources_change, relays, relay_settles, releases, channel_fails, connects, closes,
}
use perfect_ws.Response.Flags.{IsConsistent, response-IsConsistent}

module _ {D : Type 0} where
  abbrev pub is_final : Frame D → Bool
  is_final (final_data d) = true
  is_final (final_error e) = true
  is_final _ = false

  -- The frames that carry the handler's data or settle the request.
  abbrev pub is_answer : Frame D → Bool
  is_answer (partial d) = true
  is_answer f = is_final f

  -- The latest frame stands first: no answer follows a final one.
  abbrev pub IsOrdered : List (Frame D) → Type 0
  IsOrdered [] = Unit
  IsOrdered (f ∷ fs) = (is_answer f ≡ true → any is_final fs ≡ false) × IsOrdered fs

  pub count_final-le :
      (fs : List (Frame D))
      → IsOrdered fs
      → (count_if is_final fs ≤ 1) × (any is_final fs ≡ false → count_if is_final fs ≡ 0)
  count_final-le [] o = (omega arith, λ h. refl)
  count_final-le (partial d ∷ fs) o = ground (arith, count_final-le fs o.1)
  count_final-le (final_data d ∷ fs) o = ground (arith, count_final-le fs o.1)
  count_final-le (final_error e ∷ fs) o = ground (arith, count_final-le fs o.1)
  count_final-le (channel_error e ∷ fs) o = ground (arith, count_final-le fs o.1)
  count_final-le (relayed n ∷ fs) o = ground (arith, count_final-le fs o.1)

  pub record IsAnswered (r : Response D) : Type 0 where
    pub ordered : IsOrdered r.sent
    -- one that can still finish has no final frame yet
    pub unfinished : can_finish r ≡ true → any is_final r.sent ≡ false
    pub finishing : r.response_finishing ≡ true → (any is_final r.sent || r.answer_failed) ≡ true
    pub ended : r.response_ended ≡ true → (any is_final r.sent || r.aborted) ≡ true
    -- nothing stands in the place of an answer that could not be serialized until its error is sent
    pub failed : r.answer_failed ≡ true → (can_finish r ≡ false) × (any is_final r.sent ≡ false)

  end_response-IsAnswered :
      (env : Env) (r : Response D)
      → IsAnswered r
      → (r.aborted ≡ true) ⊎ ((can_finish r ≡ false) × (r.answer_failed ≡ false))
      → IsAnswered (end_response env r)
  unfolding end_response
  end_response-IsAnswered env r a h = ground arith

  abort-IsAnswered : (env : Env) (r : Response D) → IsAnswered r → IsAnswered (abort env r)
  unfolding abort end_response
  abort-IsAnswered env r a = ground arith

  release_response-IsAnswered :
      (env : Env) (force : Bool) (r : Response D)
      → IsAnswered r
      → IsAnswered (release_response env force r)
  unfolding release_response
  release_response-IsAnswered env force r a = ground arith

  on_resources_changed-IsAnswered :
      (env : Env) (r : Response D) → IsAnswered r → IsAnswered (on_resources_changed env r)
  unfolding on_resources_changed
  on_resources_changed-IsAnswered env r a =
      ground (arith, release_response-IsAnswered env false r a)

  on_request_abort-IsAnswered :
      (env : Env) (r : Response D) → IsAnswered r → IsAnswered (on_request_abort env r)
  unfolding on_request_abort
  on_request_abort-IsAnswered env r a =
      ground (arith, release_response-IsAnswered env true r a, abort-IsAnswered env r a)

  answer_error-IsAnswered :
      (e : WsError) (r : Response D) → IsAnswered r → IsAnswered (answer_error e r)
  unfolding answer_error
  answer_error-IsAnswered e r a = ground arith

  on_timeout-IsAnswered :
      (env : Env) (r : Response D) → IsAnswered r → IsAnswered (on_timeout env r)
  unfolding on_timeout
  on_timeout-IsAnswered env r a = ground arith

  answer-IsAnswered :
      (d : D) (serializes : Bool) (r : Response D)
      → IsAnswered r
      → IsAnswered (answer d serializes r)
  unfolding answer
  answer-IsAnswered d true r a = ground arith
  answer-IsAnswered d false r a = ground arith

  send-IsAnswered :
      (d : D) (down serializes : Bool) (r : Response D)
      → IsAnswered r
      → IsAnswered (send d down serializes r)
  unfolding send
  send-IsAnswered d true true r a = ground arith
  send-IsAnswered d false true r a = ground arith
  send-IsAnswered d true false r a = ground arith
  send-IsAnswered d false false r a = ground arith

  send_fails-IsAnswered :
      (e : WsError) (r : Response D)
      → IsAnswered r
      → can_finish r ≡ true
      → IsAnswered (send_unserializable e (record r { unserialized = r.unserialized - 1 }))
  unfolding send_unserializable
  send_fails-IsAnswered e r a h = ground arith

  answer_fails-IsAnswered :
      (e : WsError) (r : Response D)
      → IsAnswered r
      → r.answer_failed ≡ true
      → IsAnswered (send_unserializable e (record r { answer_failed = false }))
  unfolding send_unserializable
  answer_fails-IsAnswered e r a h = ground arith

  after_send-IsAnswered :
      (env : Env) (down sent loss : Bool) (r : Response D)
      → IsConsistent r
      → IsAnswered r
      → (down ≡ true → (can_finish r ≡ false) × (r.answer_failed ≡ false))
      → IsAnswered (after_send env down sent loss r)
  unfolding after_send
  after_send-IsAnswered env down sent loss r c a h = ground arith

  after_unserializable-IsAnswered :
      (env : Env) (r : Response D)
      → IsAnswered r
      → can_finish r ≡ false
      → IsAnswered (after_unserializable env r)
  unfolding after_unserializable
  after_unserializable-IsAnswered env r a h = ground arith

  relay_local_event-IsAnswered :
      (name : String) (durable : Bool) (r : Response D)
      → IsAnswered r
      → IsAnswered (relay_local_event name durable r)
  unfolding relay_local_event
  relay_local_event-IsAnswered name durable r a = ground arith

  relay_settled-IsAnswered :
      (env : Env) (r : Response D) → IsAnswered r → IsAnswered (relay_settled env r)
  unfolding relay_settled
  relay_settled-IsAnswered env r a = ground arith

  step-IsAnswered :
      (env : Env) (e : Event D) (r : Response D)
      → Enabled true e r
      → IsConsistent r
      → IsAnswered r
      → IsAnswered (step env e r)
  unfolding step give_up send_channel_error send_frame connect on_client_close
  step-IsAnswered env (sends d down f) r h c a = send-IsAnswered d down f r a
  step-IsAnswered env (send_fails e) r h c a = send_fails-IsAnswered e r a (h.1 refl)
  step-IsAnswered env (answer_fails e) r h c a = answer_fails-IsAnswered e r a h
  step-IsAnswered env (sent_settles true sent loss) r h c a =
      after_send-IsAnswered env true sent loss r c a (λ _. h)
  step-IsAnswered env (sent_settles false sent loss) r h c a =
      after_send-IsAnswered env false sent loss r c a (λ e. cc)
  step-IsAnswered env failure_sent r h c a = after_unserializable-IsAnswered env r a h
  step-IsAnswered env (rejects e) r h c a = answer_error-IsAnswered e r a
  step-IsAnswered env (returns d f) r h c a = answer-IsAnswered d f r a
  step-IsAnswered env answer_sent r h c a = end_response-IsAnswered env r a (inr h)
  step-IsAnswered env times_out r h c a = on_timeout-IsAnswered env r a
  step-IsAnswered env (gives_up is_event) r h c a = ground (arith, abort-IsAnswered env r a)
  step-IsAnswered env remote_abort r h c a = ground (arith, on_request_abort-IsAnswered env r a)
  step-IsAnswered env resources_change r h c a =
      ground (arith, on_resources_changed-IsAnswered env r a)
  step-IsAnswered env (relays n d) r h c a = relay_local_event-IsAnswered n d r a
  step-IsAnswered env relay_settles r h c a = relay_settled-IsAnswered env r a
  step-IsAnswered env (releases force) r h c a = release_response-IsAnswered env force r a
  step-IsAnswered env (channel_fails e) r h c a = ground arith
  step-IsAnswered env (connects ws) r h c a = ground arith
  step-IsAnswered env (closes ws) r h c a = ground arith

-- In every state that a response reaches in a calm run, where nothing has answered or ended it when the
-- failure to serialize a value of `send` without `down` is caught: no answer, partial or final, was
-- sent after a final one; there is no final frame while the response can still finish, and one while
-- it is finishing, unless its answer could not be serialized and the error that takes its place is still
-- to be sent; and a response that has ended was either answered or aborted.
pub response-IsAnswered :
    {D : Type 0} (ws : ℕ) (timed : Bool) (r : Response D) → Reach true ws timed r → IsAnswered r
unfolding open_response
response-IsAnswered ws timed _ opened = ground arith
response-IsAnswered ws timed _ (next {r} env e enabled reach) =
    step-IsAnswered env e r enabled (response-IsConsistent ws timed r reach)
      (response-IsAnswered ws timed r reach)
