-- ===== src/Request/Release.antt =====
-- A finished request is released as soon as nothing holds its channel.
use perfect_ws.Base.{
  ◌-◌, String, ◌≡◌, Bool, true, false, not, ◌&&◌, ◌||◌, Option, none, some, arith, nat_eq,
  string_eq,
}
use perfect_ws.Protocol.{WsError}
use perfect_ws.Request.{
  Request, Env, release_finished, release_with, on_resources_changed, release_request,
  relay_settled,
}
use perfect_ws.Request.Events.{Reach}
use perfect_ws.Request.Flags.{IsConsistent, relay_settled-IsConsistent, request-IsConsistent}

module _ {D : Type 0} (env : Env) (r : Request D) (finished : r.finished ≡ true)
    (settled : r.pending_durable_sends ≡ 0)
    (announced : (r.channel_was_kept_alive && not r.release_event_emitted) ≡ false) where
  release_finished_releases : (e : Option WsError) → (release_finished env e r).released ≡ true
  unfolding release_finished
  release_finished_releases e = ground arith

  release_request_releases : (e : Option WsError) → (release_request env e r).released ≡ true
  unfolding release_request release_with
  release_request_releases none = release_finished_releases none
  release_request_releases (some e) = ground (arith, release_finished_releases (some e))

  on_resources_changed_releases :
      env.keep_alive ≡ false → (on_resources_changed env r).released ≡ true
  unfolding on_resources_changed
  on_resources_changed_releases k = ground (arith, release_finished_releases none)

relay_settled-released :
    {D : Type 0} (env : Env) (r : Request D)
    → r.finished ≡ true
    → r.pending_durable_sends ≡ 1
    → (r.channel_was_kept_alive && not r.release_event_emitted) ≡ false
    → (r.release_requested || not env.keep_alive) ≡ true
    → (relay_settled env r).released ≡ true
unfolding relay_settled
relay_settled-released env r f p e k =
    let r0 = record r { pending_durable_sends = r.pending_durable_sends - 1 } in
    ground (
      arith,
      release_request_releases env r0 f (omega arith) e r.deferred_release_error,
      on_resources_changed_releases env r0 f (omega arith) e,
    )

-- When the last durable send of a finished request settles, its release event is out or not needed,
-- and the release was requested or the channel need not be kept alive, then the request is
-- released; and, if the state can be reached, it then stands in no table, relays no events and has
-- freed its resources once.
pub request-released :
    {D : Type 0} {reason : Option String} (do_not_wait has_server : Bool) (r : Request D)
    (env : Env)
    → Reach do_not_wait has_server reason r
    → r.finished ≡ true
    → r.pending_durable_sends ≡ 1
    → (r.channel_was_kept_alive && not r.release_event_emitted) ≡ false
    → (r.release_requested || not env.keep_alive) ≡ true
    → let r' = relay_settled env r in
      (r'.released ≡ true)
      × (r'.registered ≡ false)
      × (r'.relay_attached ≡ false)
      × (r'.resources_released ≡ 1)
request-released w s r env c f p e k =
    let done = relay_settled-released env r f p e k in
    let consistent : IsConsistent (relay_settled env r) =
      relay_settled-IsConsistent env r (request-IsConsistent w s r c) in
    ground (arith, done, consistent)
