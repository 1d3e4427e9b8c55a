-- ===== src/Ack/Send/Limits.antt =====
-- How much a send does: its frames, its timers, and the entries of the table.
use perfect_ws.Base.{
  ℕ, ◌+◌, ◌≤◌, ◌<◌, ◌≡◌, inl, inr, String, Bool, true, not, Option-cases, List, [], ◌∷◌, arith,
  length, keep_if, ◌==◌, string_eq, nat_eq,
}
use perfect_ws.JsMap.{set, size}
use perfect_ws.JsMap.Laws.{size-set-le}
use perfect_ws.Ack.Send.{
  Pending, Config, Packet, Wait, Sender, pending_of, force_close, saturated, make_room, clean_up,
  settle, wait_ack, attempt, attempts, send_with_ack,
}

make_room-frames :
    (c : Config) (server : ℕ) (st : Sender) → (make_room c server st).0.frames ≡ st.frames
unfolding make_room force_close
make_room-frames c server st = ground arith

wait_ack-frames :
    (p : Packet) (server d : ℕ) (still_open : Bool) (w : Wait) (st : Sender)
    → (wait_ack p server d still_open w st).0.frames ≤ st.frames + 1
unfolding wait_ack settle clean_up
wait_ack-frames p server d still_open w st = ground arith

attempt-frames :
    (c : Config) (p : Packet) (server d : ℕ) (w : Wait) (st : Sender)
    → (attempt c p server d w st).0.frames ≤ st.frames + 1
unfolding attempt
attempt-frames c p server d w st =
    let room = make_room c server st in
    ground (arith, make_room-frames c server st, wait_ack-frames p server d room.1.1 w room.0)

attempts-frames :
    (c : Config) (p : Packet) (server : ℕ) (waits : ℕ → Wait) (i : ℕ) (ds : List ℕ) (st : Sender)
    → (attempts c p server waits i ds st).0.frames ≤ st.frames + length ds
unfolding attempts force_close
attempts-frames c p server waits i [] st = omega arith
attempts-frames c p server waits i (d ∷ ds) st = ground (
  arith,
  attempt-frames c p server d (waits i) st,
  attempts-frames c p server waits (i + 1) ds (attempt c p server d (waits i) st).0,
)

-- One send hands at most one frame more to its socket than there are retry delays.
pub send_with_ack-frames :
    (c : Config) (p : Packet) (server : ℕ) (direct_ok : Bool) (waits : ℕ → Wait) (st : Sender)
    → (send_with_ack c p server direct_ok waits st).0.frames
      ≤ st.frames + (1 + length c.ack_retry_delays)
unfolding send_with_ack
send_with_ack-frames c p server direct_ok waits st =
    ground (arith, attempts-frames c p server waits 0 (c.ack_timeout ∷ c.ack_retry_delays) st)

pending_of-keep_if :
    (t : Pending) (s r : ℕ) → pending_of r (keep_if (λ p. not (p.1 == s)) t) ≤ pending_of r t
unfolding pending_of
pending_of-keep_if [] s r = omega arith
pending_of-keep_if (p ∷ t) s r = ground (arith, pending_of-keep_if t s r)

pending_of-set : (t : Pending) (k : String) (s : ℕ) → pending_of s (set t k s) ≤ pending_of s t + 1
unfolding pending_of set
pending_of-set [] k s = ground arith
pending_of-set ((j, r) ∷ t) k s = ground (arith, pending_of-set t k s)

make_room-capacity :
    (c : Config) (server : ℕ) (st : Sender)
    → (make_room c server st).1.0 ≡ true
    → (pending_of server (make_room c server st).0.pending_acks < c.max_pending_acks)
      × (size (make_room c server st).0.pending_acks < c.max_total_pending_acks)
unfolding make_room force_close
make_room-capacity c server st h = elim (Option-cases (saturated st.pending_acks st.pending_acks)) [
  | inl e ↦ ground arith
  | inr (s, e) ↦ ground (arith, pending_of-keep_if st.pending_acks s server)
]

-- Where the tests of capacity let an attempt go on, the table holds at most `maxPendingAcks`
-- entries of its socket and at most `maxTotalPendingAcks` in all once its own is there.
pub make_room-IsWithin :
    (c : Config) (server : ℕ) (packet_id : String) (st : Sender)
    → (make_room c server st).1.0 ≡ true
    → (pending_of server (set (make_room c server st).0.pending_acks packet_id server)
        ≤ c.max_pending_acks)
      × (size (set (make_room c server st).0.pending_acks packet_id server)
          ≤ c.max_total_pending_acks)
make_room-IsWithin c server k st h =
    let t = (make_room c server st).0.pending_acks in
    let (few, few_in_all) = make_room-capacity c server st h in
    (
      omega (arith, few, pending_of-set t k server),
      omega (arith, few_in_all, size-set-le t k server),
    )
