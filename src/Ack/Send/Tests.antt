-- ===== src/Ack/Send/Tests.antt =====
-- Sends with two retry delays over tables with entries of other packets, and the theorems there.
use perfect_ws.Base.{
  ℕ, ◌+◌, ◌<◌, ◌≡◌, refl, true, false, some, [], ◌∷◌, arith, length, nat_beq, string_eq, nat_eq,
  if◌then◌else◌,
}
use perfect_ws.JsMap.{get, set, delete, has}
use perfect_ws.Ack.Send.{
  Pending, Config, Packet, acked, timed_out, Wait, fresh, pending_of, force_close, saturated,
  make_room, clean_up, settle, wait_ack, attempt, attempts, send_with_ack,
}
use perfect_ws.Ack.Send.Delivery.{deliveries, send_with_ack-delivered_calls}
use perfect_ws.Ack.Send.Retry.{GoesOut, HasRoom, rev_onto, send_with_ack-exhausted}

computing : Unit {0}
unfolding fresh pending_of force_close saturated make_room clean_up settle wait_ack attempt attempts
    send_with_ack get set delete has
computing = tt

abbrev config : Config
config = record {
  enable_ack_system = true;
  ack_timeout = 5000;
  ack_retry_delays = 300 ∷ 1000 ∷ [];
  max_pending_acks = 4;
  max_total_pending_acks = 6;
}

abbrev packet : Packet
packet = record {
  packet_id = "p";
  is_ack_message = false;
  allow_package_loss = true;
  require_delivery = true;
}

abbrev others : Pending
others = ("q", 7) ∷ ("r", 8) ∷ []

abbrev silent : Wait
silent = record {
  is_open = true;
  is_aborted = false;
  send_ok = true;
  throws = false;
  aborted_then = false;
  outcome = timed_out;
  pending_after = ("p", 7) ∷ others;
}

abbrev answers_third : ℕ → Wait
answers_third n = if nat_beq n 2 then record silent { outcome = acked } else silent

abbrev never_answers : ℕ → Wait
never_answers n = silent

abbrev unsendable : ℕ → Wait
unsendable n = record silent { send_ok = false }

third_answered :
    ((send_with_ack config packet 7 true answers_third (fresh others)).1 ≡ true)
    × ((send_with_ack config packet 7 true answers_third (fresh others)).0.timers
        ≡ 1000 ∷ 300 ∷ 5000 ∷ [])
unfolding computing
third_answered = (refl, refl)

-- A frame that cannot be handed over leaves its entry behind.
unsendable_left :
    ((send_with_ack config packet 7 true unsendable (fresh others)).1 ≡ false)
    × (get (send_with_ack config packet 7 true unsendable (fresh others)).0.pending_acks "p"
        ≡ some 7)
unfolding computing
unsendable_left = (refl, refl)

abbrev unserializable : ℕ → Wait
unserializable n = record silent { send_ok = false; throws = true }

-- A serializer that throws is tried again with each delay, and then the socket is closed.
thrown_again :
    ((send_with_ack config packet 7 true unserializable (fresh others)).1 ≡ false)
    × ((send_with_ack config packet 7 true unserializable (fresh others)).0.timers
        ≡ 1000 ∷ 300 ∷ 5000 ∷ [])
    × ((send_with_ack config packet 7 true unserializable (fresh others)).0.frames ≡ 0)
    × ((send_with_ack config packet 7 true unserializable (fresh others)).0.force_closed ≡ 7 ∷ [])
unfolding computing
thrown_again = (refl, refl, refl, refl)

others_room : HasRoom config 7 others
unfolding computing
others_room = record { few = omega arith; few_in_all = omega arith }

silent_out : GoesOut config 7 timed_out silent
unfolding computing
silent_out = record {
  open_then = refl;
  not_aborted = refl;
  handed = refl;
  ends = refl;
  room_after = record { few = omega arith; few_in_all = omega arith };
}

third_out : GoesOut config 7 acked (answers_third 2)
unfolding computing
third_out = record {
  open_then = refl;
  not_aborted = refl;
  handed = refl;
  ends = refl;
  room_after = record { few = omega arith; few_in_all = omega arith };
}

send_with_ack-delivered_calls_example :
    (send_with_ack config packet 7 true answers_third (fresh others)).0.delivered_calls
    ≡ (fresh others).delivered_calls
      + deliveries (send_with_ack config packet 7 true answers_third (fresh others)).1
send_with_ack-delivered_calls_example =
    send_with_ack-delivered_calls config packet 7 true answers_third (fresh others) refl

send_with_ack-exhausted_example :
    ((send_with_ack config packet 7 true never_answers (fresh others)).1 ≡ false)
    × ((send_with_ack config packet 7 true never_answers (fresh others)).0.frames
        ≡ (fresh others).frames + (1 + length config.ack_retry_delays))
    × ((send_with_ack config packet 7 true never_answers (fresh others)).0.timers
        ≡ rev_onto (config.ack_timeout ∷ config.ack_retry_delays) (fresh others).timers)
    × ((send_with_ack config packet 7 true never_answers (fresh others)).0.force_closed
        ≡ 7 ∷ (fresh others).force_closed)
unfolding computing
send_with_ack-exhausted_example =
    send_with_ack-exhausted config packet 7 true never_answers (fresh others) refl refl others_room
      (λ n. silent_out)

other : (n : ℕ) → n < 2 → nat_beq n 2 ≡ false
other n h = ground arith

before_third : (n : ℕ) → n < 2 → GoesOut config 7 timed_out (answers_third n)
before_third n h = rw (other n h) silent_out
