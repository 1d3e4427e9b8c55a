-- ===== src/Ack/Dedupe.antt =====
-- `_acceptPacket` of src/PerfectWS.ts and the part of `_startAckCleanupLoop` that forgets processed
-- packets. The clock is read once in a turn. Limits are natural numbers, for which the source's
-- `Math.max(0, limit)` is the limit.
pub mod Counts
pub mod Bounds
pub mod Once
mod Tests
use perfect_ws.Base.{
  ℕ, ◌+◌, ◌-◌, ◌<◌, ◌≡◌, inl, inr, arith, Bool-cases, String, Bool, true, false, not, ◌&&◌, Option,
  none, some, List, [], ◌∷◌, ltb, leb, if◌then◌else◌, or_default, string_eq,
}
use perfect_ws.JsMap.{JsMap, size}
use perfect_ws.JsMap
use perfect_ws.JsMap.Laws.{get_of_not_has}

pub record Limits : Type 0 where
  pub processed_packets_retention : ℕ
  pub max_processed_packets : ℕ
  pub max_processed_packet_clients : ℕ
  pub max_total_processed_packets : ℕ

-- Packet id to the time at which it was accepted.
abbrev pub Packets : Type 0
Packets = JsMap String ℕ

-- `_processedPackets`, `_processedPacketsByClient` and `_processedPacketsByClientCount`.
pub record Processed : Type 0 where
  pub packets : Packets
  pub by_client : JsMap String Packets
  pub by_client_count : ℕ

pub data Reply : Type 0 where
  -- the `___ack` frame for a request and a packet
  ack : (request_id packet_id : String) → Reply
  -- `socket.forceClose(1013, reason)`
  force_close : (reason : String) → Reply

pub record Outcome : Type 0 where
  pub processed : Processed
  pub accepted : Bool
  pub reply : Reply

-- `timestamp < now - retention`
abbrev pub is_expired : Limits → ℕ → ℕ → Bool
is_expired l now timestamp = ltb (timestamp + l.processed_packets_retention) now

pub drop_expired : Limits → ℕ → Packets → Packets
drop_expired l now [] = []
drop_expired l now ((id, t) ∷ m) =
    if is_expired l now t then drop_expired l now m else (id, t) ∷ drop_expired l now m

pub expired_number : Limits → ℕ → Packets → ℕ
expired_number l now [] = 0
expired_number l now ((id, t) ∷ m) = (if is_expired l now t then 1 else 0) + expired_number l now m

-- The map that `clientId` selects; a client not known yet has an empty one.
pub packets_of : Option String → Processed → Packets
packets_of none d = d.packets
packets_of (some c) d = or_default (JsMap.get d.by_client c) []

-- The loop over the selected map.
forget_client : Limits → ℕ → String → Processed → Option Packets → Processed
forget_client l now c d none = d
forget_client l now c d (some m) = record d {
  by_client = JsMap.set d.by_client c (drop_expired l now m);
  by_client_count = d.by_client_count - expired_number l now m;
}

pub forget_expired : Limits → ℕ → Option String → Processed → Processed
unfolding forget_client
forget_expired l now none d = record d { packets = drop_expired l now d.packets }
forget_expired l now (some c) d = forget_client l now c d (JsMap.get d.by_client c)

pub remember : ℕ → Option String → String → Processed → Processed
unfolding packets_of
remember now none id d = record d { packets = JsMap.set d.packets id now }
remember now (some c) id d = record d {
  by_client = JsMap.set d.by_client c (JsMap.set (packets_of (some c) d) id now);
  by_client_count = d.by_client_count + 1;
}

-- `clientId !== undefined && !this._processedPacketsByClient.has(clientId)`
pub is_new_client : Option String → Processed → Bool
is_new_client none d = false
is_new_client (some c) d = not (JsMap.has d.by_client c)

abbrev pub refuse : Processed → Reply → Outcome
refuse d r = record { processed = d; accepted = false; reply = r }

-- The checks once the expired packets are gone.
pub admit : Limits → ℕ → String → String → Option String → Processed → Outcome
admit l now packet_id request_id client_id d =
    let known = packets_of client_id d in
    if JsMap.has known packet_id
    then refuse d (ack request_id packet_id)
    else if leb l.max_processed_packets (size known)
    then refuse d (force_close "ACK deduplication capacity reached")
    else if is_new_client client_id d && leb l.max_processed_packet_clients (size d.by_client)
    then refuse d (force_close "ACK deduplication client capacity reached")
    else if leb l.max_total_processed_packets (size d.packets + d.by_client_count)
    then refuse d (force_close "Global ACK deduplication capacity reached")
    else record {
      processed = remember now client_id packet_id d;
      accepted = true;
      reply = ack request_id packet_id;
    }

pub accept_packet : Limits → ℕ → String → String → Option String → Processed → Outcome
accept_packet l now packet_id request_id client_id d =
    admit l now packet_id request_id client_id (forget_expired l now client_id d)

pub total_size : JsMap String Packets → ℕ
total_size [] = 0
total_size ((c, m) ∷ cs) = size m + total_size cs

-- `if (packets.size === 0) this._processedPacketsByClient.delete(clientId)`
abbrev pub keep_client : String → Packets → JsMap String Packets → JsMap String Packets
keep_client c [] cs = cs
keep_client c (p ∷ m) cs = (c, p ∷ m) ∷ cs

pub drop_expired_clients : Limits → ℕ → JsMap String Packets → JsMap String Packets
drop_expired_clients l now [] = []
drop_expired_clients l now ((c, m) ∷ cs) =
    keep_client c (drop_expired l now m) (drop_expired_clients l now cs)

-- One round of the clean-up loop, once its sleep is over. With no client nothing is recounted.
pub cleanup_clients : Limits → ℕ → JsMap String Packets → Processed → Processed
cleanup_clients l now [] d = d
cleanup_clients l now (c ∷ cs) d =
    let kept = drop_expired_clients l now (c ∷ cs) in
    record d { by_client = kept; by_client_count = total_size kept }

pub cleanup : Limits → ℕ → Processed → Processed
unfolding cleanup_clients
cleanup l now d =
    let d' = record d { packets = drop_expired l now d.packets } in
    cleanup_clients l now d'.by_client d'

-- What can happen to the tables, each at its time.
pub data Event : Type 0 where
  packet : (packet_id request_id : String) (client_id : Option String) → Event
  sweep : Event

pub step : Limits → Processed → ℕ × Event → Processed
step l d (now, packet packet_id request_id client_id) =
    (accept_packet l now packet_id request_id client_id d).processed
step l d (now, sweep) = cleanup l now d

pub run : Limits → Processed → List (ℕ × Event) → Processed
run l d [] = d
run l d (e ∷ es) = run l (step l d e) es

pub empty : Processed
empty = record { packets = []; by_client = []; by_client_count = 0 }

-- What the checks can come to: nothing is stored, or all of them have passed.
pub admit_cases {ℓ} :
    (P : Outcome → Type ℓ) (l : Limits) (now : ℕ) (id rid : String) (c : Option String)
    (d : Processed)
    → ((r : Reply) → P (refuse d r))
    → (JsMap.get (packets_of c d) id ≡ none
        → size (packets_of c d) < l.max_processed_packets
        → (is_new_client c d ≡ true → size d.by_client < l.max_processed_packet_clients)
        → size d.packets + d.by_client_count < l.max_total_processed_packets
        → P (record { processed = remember now c id d; accepted = true; reply = ack rid id }))
    → P (admit l now id rid c d)
unfolding admit
admit_cases P l now id rid c d refused passed = elim (Bool-cases (JsMap.has (packets_of c d) id)) [
  | inl e ↦ rw (e, admit) (refused _)
  | inr e ↦ elim (Bool-cases (leb l.max_processed_packets (size (packets_of c d)))) [
    | inl f ↦ rw (e, f, admit) (refused _)
    | inr f ↦
        elim (Bool-cases
          (is_new_client c d && leb l.max_processed_packet_clients (size d.by_client))) [
            | inl g ↦ rw (e, f, g, admit) (refused _)
            | inr g ↦
                elim (Bool-cases
                  (leb l.max_total_processed_packets (size d.packets + d.by_client_count))) [
                    | inl h ↦ rw (e, f, g, h, admit) (refused _)
                    | inr h ↦
                        rw (e, f, g, h, admit)
                          (passed (get_of_not_has _ id e) (ground arith) (ground arith)
                            (ground arith))
                  ]
          ]
  ]
]
