-- ===== src/Ack/Dedupe/Tests.antt =====
-- Runs of the tables of processed packets, and the theorems at concrete inputs.
use perfect_ws.Base.{ℕ, ◌≡◌, refl, true, some, List, [], ◌∷◌, arith, string_eq}
use perfect_ws.JsMap.{get, set, has, delete}
use perfect_ws.Ack.Dedupe.{
  Limits, Event, packet, sweep, ack, force_close, refuse, accept_packet, forget_expired, run, step,
  empty, admit, remember, packets_of, drop_expired, expired_number, is_new_client, cleanup,
  total_size, drop_expired_clients,
}
use perfect_ws.Ack.Dedupe.Once.{accept_packet_once}
use perfect_ws.Ack.Dedupe.Bounds.{IsBounded, run-empty-IsBounded}

abbrev limits : Limits
limits = record {
  processed_packets_retention = 60;
  max_processed_packets = 2;
  max_processed_packet_clients = 3;
  max_total_processed_packets = 4;
}

abbrev history : List (ℕ × Event)
history =
    (5, packet "p1" "r1" (some "a"))
    ∷ (6, packet "p2" "r2" (some "a"))
    ∷ (7, packet "p1" "r1" (some "b"))
    ∷ (30, sweep)
    ∷ []

computing : Unit {0}
unfolding accept_packet admit remember packets_of drop_expired expired_number is_new_client cleanup
    total_size drop_expired_clients forget_expired run step empty get set has delete
computing = tt

-- The third packet of a client meets the limit of its map, until the retention is over.
full_then_free :
    (accept_packet limits 40 "p3" "r3" (some "a") (run limits empty history)
      ≡ refuse (run limits empty history) (force_close "ACK deduplication capacity reached"))
    × ((accept_packet limits 66 "p3" "r3" (some "a") (run limits empty history)).accepted ≡ true)
unfolding computing
full_then_free = (refl, refl)

run-empty-IsBounded_example : IsBounded limits (run limits empty history)
run-empty-IsBounded_example = run-empty-IsBounded limits history

accept_packet_once_example :
    accept_packet limits 65 "p1" "r9"
      (some "a")
      (run limits (accept_packet limits 5 "p1" "r1" (some "a") empty).processed history)
    ≡ refuse
        (forget_expired limits 65
          (some "a")
          (run limits (accept_packet limits 5 "p1" "r1" (some "a") empty).processed history))
        (ack "r9" "p1")
unfolding computing
accept_packet_once_example =
    accept_packet_once limits empty (some "a") "p1" "r1" "r9" 5 65 history refl (omega arith)
      (omega arith)
