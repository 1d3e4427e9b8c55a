-- ===== src/Response/Release.antt =====
-- A response is released as soon as nothing holds its channel.
use perfect_ws.Base.{ℕ, ◌-◌, ◌≡◌, ◌⊎◌, inr, Bool, true, false, not, ◌||◌, none, refl, arith}
use perfect_ws.Response.{
  Response, Env, end_response, release_response, relay_settled, on_resources_changed,
}
use perfect_ws.Response.Events.{Reach}
use perfect_ws.Response.Flags.{
  IsConsistent, response-IsConsistent, release_response-IsConsistent, relay_settled-IsConsistent,
  end_response-IsConsistent,
}

-- Released: no entry in the table, no client, no listeners, the resources freed once.
pub record IsGone {D : Type 0} (r : Response D) : Type 0 where
  pub released : r.response_released ≡ true
  pub registered : r.registered ≡ false
  pub client : r.client ≡ none
  pub channel_attached : r.channel_attached ≡ false
  pub resources_released : r.resources_released ≡ 1

module _ {D : Type 0} where
  released-IsGone : (r : Response D) → IsConsistent r → r.response_released ≡ true → IsGone r
  released-IsGone r c h = ground arith

  end_response-released :
      (env : Env) (r : Response D)
      → r.pending_durable_sends ≡ 0
      → env.keep_alive ≡ false
      → (end_response env r).response_released ≡ true
  unfolding end_response
  end_response-released env r p k = ground arith

  release_response-released :
      (env : Env) (force : Bool) (r : Response D)
      → (r.pending_durable_sends ≡ 0) ⊎ (force ≡ true)
      → (release_response env force r).response_released ≡ true
  unfolding release_response
  release_response-released env force r h = ground arith

  relay_settled-released :
      (env : Env) (r : Response D)
      → r.response_ended ≡ true
      → r.pending_durable_sends ≡ 1
      → (r.release_requested || not env.keep_alive) ≡ true
      → (relay_settled env r).response_released ≡ true
  unfolding relay_settled on_resources_changed
  relay_settled-released env r h p k = ground (
    arith,
    release_response-released env false
        (record r { pending_durable_sends = r.pending_durable_sends - 1 }),
  )

-- The turns after which nothing holds a response: it ends with no durable send under way and its
-- channel not kept alive; its last durable send settles after it ended, and a release was
-- requested or the channel is not kept alive; it is released by force, whatever is under way.
pub data Settles {D : Type 0} (env : Env) (r : Response D) : Response D → Type 0 where
  ends : r.pending_durable_sends ≡ 0 → env.keep_alive ≡ false → Settles env r (end_response env r)
  delivers :
      r.response_ended ≡ true
      → r.pending_durable_sends ≡ 1
      → (r.release_requested || not env.keep_alive) ≡ true
      → Settles env r (relay_settled env r)
  forced : Settles env r (release_response env true r)

-- From every state that a response can reach, a turn after which nothing holds it (it ends with no
-- durable send under way and its channel not kept alive; its last durable send settles after it
-- ended, and a release was requested or the channel is not kept alive; or a forced release) leaves
-- it released: out of the table, without client and listeners, its resources freed once.
pub response-IsGone :
    {D : Type 0} {calm : Bool} (ws : ℕ) (timed : Bool) (env : Env) (r r' : Response D)
    → Reach calm ws timed r
    → Settles env r r'
    → IsGone r'
response-IsGone ws timed env r _ reach (ends p k) =
    released-IsGone _ (end_response-IsConsistent env r (response-IsConsistent ws timed r reach))
      (end_response-released env r p k)
response-IsGone ws timed env r _ reach (delivers h p k) =
    released-IsGone _ (relay_settled-IsConsistent env r (response-IsConsistent ws timed r reach))
      (relay_settled-released env r h p k)
response-IsGone ws timed env r _ reach forced =
    released-IsGone _
      (release_response-IsConsistent env true r (response-IsConsistent ws timed r reach))
      (release_response-released env true r (inr refl))
