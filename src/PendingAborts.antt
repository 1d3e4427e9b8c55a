-- ===== src/PendingAborts.antt =====
-- `_pendingAborts` of src/PerfectWS.ts: aborts that came before the request that they abort. `key`
-- is the text that `JSON.stringify` gives for a client and a request id.
pub mod Kept
pub mod Bounds
mod Tests
use perfect_ws.Base.{
  ℕ, ◌+◌, String, Bool, true, false, not, ◌&&◌, ◌||◌, Option, none, some, List, [], ◌∷◌, ltb, leb,
  if◌then◌else◌, ◌==◌, string_eq, count_if, keep_if,
}
use perfect_ws.JsMap.{JsMap, set, delete, has, size}

pub record PendingAbort : Type 0 where
  pub client_id : String
  pub request_id : String
  pub timestamp : ℕ

pub record Config : Type 0 where
  pub max_pending_aborts : ℕ
  pub max_total_pending_aborts : ℕ
  pub pending_aborts_min_age : ℕ

abbrev pub Aborts : Type 0
Aborts = JsMap String PendingAbort

module _ (key : String → String → String) (c : Config) where
  pub is_full : String → String → Aborts → Bool
  is_full client request t =
      not (has t (key client request))
      && (leb c.max_pending_aborts (count_if (λ p. p.1.client_id == client) t)
          || leb c.max_total_pending_aborts (size t))

  -- An abort of a request that is not known; where the table is full, the socket is closed.
  pub add_abort : ℕ → String → String → Aborts → Aborts
  add_abort now client request t =
      if is_full client request t
      then t
      else set (delete t (key client request)) (key client request)
          (record { client_id = client; request_id = request; timestamp = now })

  -- The early abort of a request that begins: the answer, and the table after it.
  pub take_abort : String → String → Aborts → Bool × Aborts
  take_abort client request t =
      if has t (key client request) then (true, delete t (key client request)) else (false, t)

  pub is_aged : ℕ → PendingAbort → Bool
  is_aged now a = ltb (a.timestamp + c.pending_aborts_min_age) now

  -- One round of `_clearOldRequests`; `known` tells whether `_getActiveResponse` finds a response.
  pub clear_aborts : (known : String → String → Bool) → ℕ → Aborts → Aborts
  clear_aborts known now t =
      let old =
        keep_if (λ p. not (is_aged now p.1 && not (known p.1.client_id p.1.request_id))) t in
      if ltb c.max_total_pending_aborts (size old)
      then keep_if (λ p. known p.1.client_id p.1.request_id || not (is_aged now p.1)) old
      else old

  pub data Event : Type 0 where
    aborts begins : (client request : String) → Event
    clears : (known : String → String → Bool) → Event

  pub step : Aborts → ℕ × Event → Aborts
  step t (now, aborts client request) = add_abort now client request t
  step t (now, begins client request) = (take_abort client request t).1
  step t (now, clears known) = clear_aborts known now t

  pub run : Aborts → List (ℕ × Event) → Aborts
  run t [] = t
  run t (e ∷ es) = run (step t e) es
