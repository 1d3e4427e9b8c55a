-- ===== src/Sending/Client.antt =====
-- `sendRequestRetry` of src/PerfectWS.ts, for a content that can be serialized. A round is what its
-- loop meets at the awaits of one pass: the result of `_sendWithAck`, and of `waitForServer` where
-- it waits for a server. The list of the rounds may end while the loop still waits.
pub mod Limits
mod Tests
use perfect_ws.Base.{
  ℕ, suc, ◌+◌, Bool, true, false, not, ◌&&◌, ◌||◌, List, [], ◌∷◌, leb, if◌then◌else◌,
}

pub record Content : Type 0 where
  pub is_event : Bool
  -- `isDurableControlEvent`
  pub durable : Bool
  -- a call of the peer that may be settled while it is sent
  pub tracks_operation : Bool
  pub do_not_wait : Bool

-- What `waitForServer` listens to; the first three resolve it, the others reject it.
pub data WaitEnd : Type 0 where
  server_came operation_settled request_finished signal_aborted timed_out : WaitEnd

-- Whether the wait listens to this: to the signal where it does not ignore an abort, and to a timer
-- where it is not the first.
pub can_end : (first_time ignore_abort : Bool) → WaitEnd → Bool
can_end first_time ignore_abort signal_aborted = not ignore_abort
can_end first_time ignore_abort timed_out = not first_time
can_end first_time ignore_abort other = true

pub rejects : WaitEnd → Bool
rejects signal_aborted = true
rejects timed_out = true
rejects other = false

pub record Round : Type 0 where
  -- what `_sendWithAck` gives, and the state when it does
  pub sent : Bool
  pub released_sent : Bool
  pub settled_sent : Bool
  pub open_sent : Bool
  pub finished_sent : Bool
  -- how `waitForServer` ends, and the state when it does
  pub wait_end : WaitEnd
  pub released_waited : Bool
  pub settled_waited : Bool
  pub aborted_waited : Bool

pub data Result : Type 0 where
  delivered stopped failed waiting : Result

pub record Trace : Type 0 where
  -- the calls of `_sendWithAck`
  pub attempts : ℕ
  -- `___request.connected`
  pub reconnections : ℕ
  -- `forceClose`
  pub closes : ℕ
  pub result : Result

abbrev pub ends : Result → Trace
ends r = record { attempts = 0; reconnections = 0; closes = 0; result = r }

unfoldable pub attempted : Trace → Trace
attempted t = record t { attempts = suc t.attempts }

-- `failSend`, which does nothing for a released request.
pub fail_send : (released : Bool) → Result
fail_send released = if released then stopped else failed

pub waits : Content → ℕ → ℕ → Round → Bool
waits c limit i r =
    (not r.open_sent || (c.durable && leb limit (suc i)))
    && (not c.do_not_wait || (r.finished_sent || c.is_event))

pub stops_sent : Content → Round → Bool
stops_sent c r = r.released_sent || (c.tracks_operation && r.settled_sent)

pub stops_waited : Content → Round → Bool
stops_waited c r =
    r.released_waited
    || ((c.tracks_operation && r.settled_waited) || (not c.durable && r.aborted_waited))

-- The loop starts again on the new server; an open socket was closed before.
pub reconnected : Round → Trace → Trace
reconnected r t = record t {
  reconnections = suc t.reconnections;
  closes = t.closes + (if r.open_sent then 1 else 0);
}

-- What follows a wait.
pub after_wait : Content → Round → (again : Trace) → Trace
unfolding fail_send stops_waited reconnected
after_wait c r again =
    if rejects r.wait_end
    then record (ends (fail_send r.released_waited)) { closes = if r.open_sent then 1 else 0 }
    else if stops_waited c r
    then record (ends stopped) { closes = if r.open_sent then 1 else 0 }
    else reconnected r again

-- The loop at its `i`-th attempt since the last reconnection.
pub retry : Content → (limit i : ℕ) → List Round → Trace
unfolding attempted stops_sent waits after_wait
retry c limit i [] = if leb limit i then ends failed else ends waiting
retry c limit i (r ∷ rs) =
    let next = retry c limit (suc i) rs in
    let again = retry c limit 0 rs in
    if leb limit i
    then ends failed
    else if r.sent
    then attempted (ends delivered)
    else if stops_sent c r
    then attempted (ends stopped)
    else if waits c limit i r
    then attempted (after_wait c r again)
    else attempted next

-- `Math.max(1, Math.floor(sendRequestRetries))`
abbrev pub max_send_attempts : ℕ → ℕ
max_send_attempts retries = if leb retries 1 then 1 else retries

-- The flags are those at the start, with no `await` before the first attempt.
pub send_request_retry : Content → (retries : ℕ) → (released settled : Bool) → List Round → Trace
unfolding retry
send_request_retry c retries released settled rounds =
    if released
    then ends stopped
    else if c.tracks_operation && settled
    then ends failed
    else retry c (max_send_attempts retries) 0 rounds
