-- ===== src/Sending/Server.antt =====
-- `sendJSON` in `_onRequest` of src/PerfectWS.ts, for a frame that can be serialized: the one attempt
-- for a frame that may be lost, and the loop for the others. A round is what one pass meets: the state at its start, what its wait for the client
-- gives, the result of `_sendWithAck` and the socket then. The list may end while the loop waits.
pub mod Kept
mod Tests
use perfect_ws.Base.{
  ℕ, suc, ◌+◌, Bool, true, false, not, ◌&&◌, ◌||◌, List, [], ◌∷◌, leb, if◌then◌else◌,
}

pub data Waited : Type 0 where
  added released aborted timeout : Waited

pub record Round : Type 0 where
  pub open_start : Bool
  pub response_released : Bool
  pub request_aborted : Bool
  pub waited : Waited
  -- `clientRef.ref` is there
  pub has_client : Bool
  pub sent : Bool
  pub open_sent : Bool

-- A frame that is dropped, because the response is over or the frame may be lost, has no more attempts;
-- one that is given up aborts the request, or tells of the failure.
pub data Result : Type 0 where
  delivered dropped given_up waiting : Result

pub record Trace : Type 0 where
  -- the calls of `_sendWithAck`
  pub attempts : ℕ
  -- `forceClose`
  pub closes : ℕ
  pub result : Result

abbrev pub ends : Result → Trace
ends r = record { attempts = 0; closes = 0; result = r }

pub is_added : Waited → Bool
is_added added = true
is_added other = false

-- Whether the wait may end in this way.
pub may_end : (durable : Bool) → Waited → Bool
may_end durable added = true
may_end durable released = true
may_end durable aborted = not durable
may_end durable timeout = not durable

unfoldable pub attempted : Trace → Trace
attempted t = record t { attempts = suc t.attempts }

-- The socket is closed where it is open, and the count of attempts starts again.
pub restart : Round → Trace → Trace
restart r t = record t { closes = t.closes + (if r.open_sent then 1 else 0) }

-- The second part of a pass, with a client or none.
pub send_round : (durable : Bool) → (limit i : ℕ) → Round → (next again : Trace) → Trace
unfolding attempted restart
send_round durable limit i r next again =
    if not r.has_client
    then next
    else if r.sent
    then attempted (ends delivered)
    else if not r.open_sent || (durable && leb limit (suc i))
    then attempted (restart r again)
    else attempted next

-- The loop at its pass `i` since it was started again.
pub send_loop : (durable : Bool) → (limit i : ℕ) → List Round → Trace
unfolding send_round is_added
send_loop durable limit i [] = if leb limit i then ends given_up else ends waiting
send_loop durable limit i (r ∷ rs) =
    let next = send_loop durable limit (suc i) rs in
    let again = send_loop durable limit 0 rs in
    if leb limit i
    then ends given_up
    else if r.open_start
    then send_round durable limit i r next again
    else if r.response_released || (not durable && r.request_aborted)
    then ends dropped
    else if is_added r.waited
    then send_round durable limit i r next again
    else ends given_up

abbrev pub max_send_attempts : ℕ → ℕ
max_send_attempts retries = if leb retries 1 then 1 else retries

-- A frame that may be lost: one attempt if a client is there, whose result is not looked at.
pub send_lossy : List Round → Trace
unfolding attempted
send_lossy [] = ends waiting
send_lossy (r ∷ rs) = if r.has_client then attempted (ends dropped) else ends dropped

-- `durable` is that of a control event or of `mustDeliver`, and `live` is `prepared.hasLiveResources`.
pub send_json : (durable live allow_package_loss : Bool) → (retries : ℕ) → List Round → Trace
unfolding send_loop send_lossy
send_json durable live allow_package_loss retries rounds =
    if allow_package_loss && not live
    then send_lossy rounds
    else send_loop (durable || live) (max_send_attempts retries) 0 rounds
