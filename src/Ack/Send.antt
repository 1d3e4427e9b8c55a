-- ===== src/Ack/Send.antt =====
-- `_sendWithAck` of src/PerfectWS.ts with `_sendData` and the handlers of one entry of
-- `_pendingAcks`. Sockets and packet ids are what the table maps between. What other code does
-- while an attempt waits is given by the table as it stands when the wait ends.
pub mod Delivery
pub mod Limits
pub mod Retry
mod Tests
use perfect_ws.Base.{
  ℕ, ◌+◌, String, Bool, true, false, not, ◌&&◌, ◌||◌, Option, none, some, List, [], ◌∷◌, ltb, leb,
  if◌then◌else◌, ◌==◌, string_eq, nat_eq, count_if, keep_if, is_some,
}
use perfect_ws.JsMap.{JsMap, set, delete, size}

abbrev pub Pending : Type 0
Pending = JsMap String ℕ

pub record Config : Type 0 where
  pub enable_ack_system : Bool
  pub ack_timeout : ℕ
  pub ack_retry_delays : List ℕ
  pub max_pending_acks : ℕ
  pub max_total_pending_acks : ℕ

-- The parameters of the call, with the id that the packet has or is given.
pub record Packet : Type 0 where
  pub packet_id : String
  pub is_ack_message : Bool
  pub allow_package_loss : Bool
  pub require_delivery : Bool

pub data Outcome : Type 0 where
  -- `resolve` of the table's entry, the timer, the socket's close, the signal's abort
  acked timed_out closed aborted : Outcome
  -- `reject` of the table's entry, and whether the signal is aborted by then
  rejected : Bool → Outcome

-- The surroundings of one attempt.
pub record Wait : Type 0 where
  pub is_open : Bool
  pub is_aborted : Bool
  -- `_sendJSON` hands the frame to an open socket
  pub send_ok : Bool
  -- where it does not, whether it throws, as the serializer may, instead of answering false; and
  -- whether the signal is aborted when that is caught
  pub throws : Bool
  pub aborted_then : Bool
  pub outcome : Outcome
  -- `_pendingAcks` when the wait ends, before the clean-up
  pub pending_after : Pending

pub record Sender : Type 0 where
  pub pending_acks : Pending
  -- sockets that were closed by force, the latest first
  pub force_closed : List ℕ
  -- frames handed to the socket, calls of `onSent` and of `onDelivered`
  pub frames : ℕ
  pub sent_calls : ℕ
  pub delivered_calls : ℕ
  -- the timers armed, the latest first
  pub timers : List ℕ
  pub failed_to_send : Bool

pub data Verdict : Type 0 where
  done : Bool → Verdict
  retry : Verdict

pub pending_of : ℕ → Pending → ℕ
pending_of server t = count_if (λ p. p.1 == server) t

-- `forceClose` runs the close listeners at once, and each takes its entry out of the table.
pub force_close : ℕ → Sender → Sender
force_close server st = record st {
  pending_acks = keep_if (λ p. not (p.1 == server)) st.pending_acks;
  force_closed = server ∷ st.force_closed;
}

-- The socket with the most entries of `t`; of those with as many, the one that came first.
pub saturated : Pending → Pending → Option ℕ
saturated t [] = none
saturated t ((k, s) ∷ m) = elim (saturated t m) [
  | none ↦ some s
  | some b ↦ if leb (pending_of b t) (pending_of s t) then some s else some b
]

-- The state after the tests of capacity, whether there is room, and whether the packet's own
-- socket is still open.
pub make_room : Config → ℕ → Sender → Sender × (Bool × Bool)
make_room c server st =
    if leb c.max_pending_acks (pending_of server st.pending_acks)
    then (force_close server st, (false, false))
    else if leb c.max_total_pending_acks (size st.pending_acks)
    then elim (saturated st.pending_acks st.pending_acks) [
      | none ↦ (st, (false, true))
      | some s ↦
          let st' = force_close s st in
          (st', (ltb (size st'.pending_acks) c.max_total_pending_acks, not (s == server)))
    ]
    else (st, (true, true))

-- `cleanup` at the end of a wait.
pub clean_up : Packet → Pending → Sender → Sender
clean_up p t st = record st { pending_acks = delete t p.packet_id }

pub settle : Packet → Wait → Sender → Sender × Verdict
settle p w st = elim w.outcome [
  | acked ↦ (
    (record (clean_up p w.pending_after st) { delivered_calls = st.delivered_calls + 1 }),
    done true,
  )
  | timed_out ↦ (clean_up p w.pending_after st, retry)
  | closed ↦ (clean_up p w.pending_after st, retry)
  | aborted ↦ (clean_up p w.pending_after st, done false)
  | rejected since ↦ (clean_up p w.pending_after st, if since then done false else retry)
]

-- The promise of an attempt. Where the frame is not handed over, the entry, its listeners and its timer
-- stay, for nothing cleans up.
pub wait_ack : Packet → ℕ → ℕ → Bool → Wait → Sender → Sender × Verdict
wait_ack p server delay still_open w st =
    let registered = record st { pending_acks = set st.pending_acks p.packet_id server } in
    if w.is_aborted
    then (clean_up p registered.pending_acks registered, done false)
    else if still_open && w.send_ok
    then settle p w (record registered {
      timers = delay ∷ st.timers;
      frames = st.frames + 1;
      sent_calls = st.sent_calls + 1;
    })
    else if w.throws
    then (
      record registered { timers = delay ∷ st.timers },
      if w.aborted_then then done false else retry,
    )
    else ((record registered { timers = delay ∷ st.timers; failed_to_send = true }), done false)

pub attempt : Config → Packet → ℕ → ℕ → Wait → Sender → Sender × Verdict
attempt c p server delay w st =
    if not w.is_open
    then (st, done false)
    else let room = make_room c server st in
      if room.1.0 then wait_ack p server delay room.1.1 w room.0 else (room.0, done false)

-- The loop over the delays, and the close when they are exhausted; `waits i` is about the attempt
-- that follows `i` others.
pub attempts : Config → Packet → ℕ → (ℕ → Wait) → ℕ → List ℕ → Sender → Sender × Bool
attempts c p server waits i [] st = (force_close server st, false)
attempts c p server waits i (d ∷ ds) st =
    let (st', verdict) = attempt c p server d (waits i) st in
    elim verdict [ done b ↦ (st', b) | retry ↦ attempts c p server waits (i + 1) ds st' ]

-- `direct_ok` is what `_sendJSON` answers where no acknowledgement is awaited.
pub send_with_ack : Config → Packet → ℕ → (direct_ok : Bool) → (ℕ → Wait) → Sender → Sender × Bool
send_with_ack c p server direct_ok waits st =
    if p.is_ack_message
    then (record st { frames = st.frames + (if direct_ok then 1 else 0) }, direct_ok)
    else if (not c.enable_ack_system || p.allow_package_loss) && not p.require_delivery
    then (
      if direct_ok
          then record st {
            frames = st.frames + 1;
            sent_calls = st.sent_calls + 1;
            delivered_calls = st.delivered_calls + 1;
          }
          else st,
      direct_ok,
    )
    else attempts c p server waits 0 (c.ack_timeout ∷ c.ack_retry_delays) st

pub fresh : Pending → Sender
fresh t = record {
  pending_acks = t;
  force_closed = [];
  frames = 0;
  sent_calls = 0;
  delivered_calls = 0;
  timers = [];
  failed_to_send = false;
}
