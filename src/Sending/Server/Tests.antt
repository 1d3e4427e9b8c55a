-- ===== src/Sending/Server/Tests.antt =====
-- A durable frame whose client answers none of two attempts, is closed, and comes again.
use perfect_ws.Base.{◌≡◌, refl, true, false, List, [], ◌∷◌, any, nat_eq, string_eq}
use perfect_ws.Sending.Server.{
  added, released, Round, delivered, dropped, given_up, is_added, may_end, attempted, restart,
  send_round, send_loop, send_lossy, send_json,
}
use perfect_ws.Sending.Server.Kept.{is_over, is_lost, send_json-kept}

abbrev silent : Round
silent = record {
  open_start = true;
  response_released = false;
  request_aborted = true;
  waited = added;
  has_client = true;
  sent = false;
  open_sent = true;
}

abbrev rounds : List Round
rounds = silent ∷ silent ∷ record silent { open_start = false; sent = true } ∷ []

resent :
    send_json true false false 2 rounds ≡ record { attempts = 3; closes = 1; result = delivered }
unfolding send_json send_lossy send_loop send_round attempted restart is_added
resent = refl

-- A frame that need not outlive its request is given up after two attempts.
given_up_twice :
    send_json false false false 2 rounds ≡ record { attempts = 2; closes = 0; result = given_up }
unfolding send_json send_lossy send_loop send_round attempted restart is_added
given_up_twice = refl

-- A control event whose loss is allowed is sent once.
sent_once :
    send_json true false true 2 rounds ≡ record { attempts = 1; closes = 0; result = dropped }
unfolding send_json send_lossy send_loop send_round attempted restart is_added
sent_once = refl

-- After two silent attempts the socket is closed, and the response is released in the wait.
abbrev released_rounds : List Round
released_rounds = silent ∷ silent ∷ record silent { open_start = false; waited = released } ∷ []

send_json-kept_example : any is_over released_rounds ≡ true
unfolding send_json send_lossy send_loop send_round attempted restart is_added is_lost may_end
send_json-kept_example =
    send_json-kept true false false 2 released_rounds refl refl (refl, (refl, (refl, tt))) refl
