-- ===== src/Ack/Send/Delivery.antt =====
-- What the answer of a send says.
use perfect_ws.Base.{
  ℕ, ◌+◌, ◌≡◌, Bool, false, List, [], ◌∷◌, arith, if◌then◌else◌, string_eq, nat_eq,
}
use perfect_ws.Ack.Send.{
  Config, Packet, Wait, Sender, Verdict, done, retry, force_close, make_room, clean_up, settle,
  wait_ack, attempt, attempts, send_with_ack,
}

-- The calls of `onDelivered` that an answer stands for.
abbrev pub deliveries : Bool → ℕ
deliveries b = if b then 1 else 0

abbrev answered : Verdict → Bool
answered (done b) = b
answered retry = false

make_room-delivered_calls :
    (c : Config) (server : ℕ) (st : Sender)
    → (make_room c server st).0.delivered_calls ≡ st.delivered_calls
unfolding make_room force_close
make_room-delivered_calls c server st = ground arith

wait_ack-delivered_calls :
    (p : Packet) (server d : ℕ) (open' : Bool) (w : Wait) (st : Sender)
    → (wait_ack p server d open' w st).0.delivered_calls
      ≡ st.delivered_calls + deliveries (answered (wait_ack p server d open' w st).1)
unfolding wait_ack settle clean_up
wait_ack-delivered_calls p server d open' w st = ground arith

attempt-delivered_calls :
    (c : Config) (p : Packet) (server d : ℕ) (w : Wait) (st : Sender)
    → (attempt c p server d w st).0.delivered_calls
      ≡ st.delivered_calls + deliveries (answered (attempt c p server d w st).1)
unfolding attempt
attempt-delivered_calls c p server d w st =
    let room = make_room c server st in
    ground (
      arith,
      make_room-delivered_calls c server st,
      wait_ack-delivered_calls p server d room.1.1 w room.0,
    )

attempts-delivered_calls :
    (c : Config) (p : Packet) (server : ℕ) (waits : ℕ → Wait) (i : ℕ) (ds : List ℕ) (st : Sender)
    → (attempts c p server waits i ds st).0.delivered_calls
      ≡ st.delivered_calls + deliveries (attempts c p server waits i ds st).1
unfolding attempts force_close
attempts-delivered_calls c p server waits i [] st = omega arith
attempts-delivered_calls c p server waits i (d ∷ ds) st = ground (
  arith,
  attempt-delivered_calls c p server d (waits i) st,
  attempts-delivered_calls c p server waits (i + 1) ds (attempt c p server d (waits i) st).0,
)

-- By the time that a send of anything but an acknowledgement answers, it has called `onDelivered`
-- exactly once if the answer is true, and never if it is false, whatever happens in the attempts. An
-- entry whose frame could not be handed over stays, and may still call it after that.
pub send_with_ack-delivered_calls :
    (c : Config) (p : Packet) (server : ℕ) (direct_ok : Bool) (waits : ℕ → Wait) (st : Sender)
    → p.is_ack_message ≡ false
    → (send_with_ack c p server direct_ok waits st).0.delivered_calls
      ≡ st.delivered_calls + deliveries (send_with_ack c p server direct_ok waits st).1
unfolding send_with_ack
send_with_ack-delivered_calls c p server direct_ok waits st h =
    ground
      (arith, attempts-delivered_calls c p server waits 0 (c.ack_timeout ∷ c.ack_retry_delays) st)
