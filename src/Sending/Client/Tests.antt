-- ===== src/Sending/Client/Tests.antt =====
-- A durable event whose first server is lost.
use perfect_ws.Base.{
  suc, ◌*◌, ◌≤◌, ◌≡◌, refl, ◌≢◌, true, false, List, [], ◌∷◌, length, nat_eq, string_eq,
}
use perfect_ws.Sending.Client.{
  rejects, Content, server_came, can_end, Round, delivered, failed, waiting, attempted, waits,
  stops_sent, stops_waited, reconnected, after_wait, retry, max_send_attempts, send_request_retry,
}
use perfect_ws.Sending.Client.Limits.{send_request_retry-limits, send_request_retry-kept}

abbrev durable_call : Content
durable_call = record {
  is_event = true;
  durable = true;
  tracks_operation = true;
  do_not_wait = false;
}

abbrev lost : Round
lost = record {
  sent = false;
  released_sent = false;
  settled_sent = false;
  open_sent = false;
  finished_sent = false;
  wait_end = server_came;
  released_waited = false;
  settled_waited = false;
  aborted_waited = false;
}

-- On an open socket that does not answer, the third attempt gives up the connection.
abbrev silent : Round
silent = record lost { open_sent = true }

abbrev rounds : List Round
rounds = lost ∷ silent ∷ silent ∷ silent ∷ record lost { sent = true } ∷ []

resent :
    send_request_retry durable_call 3 false false rounds
    ≡ record { attempts = 5; reconnections = 2; closes = 1; result = delivered }
unfolding send_request_retry retry attempted stops_sent waits after_wait reconnected stops_waited
    rejects
resent = refl

send_request_retry-limits_example :
    ((send_request_retry durable_call 3 false false rounds).attempts
      ≤ suc (send_request_retry durable_call 3 false false rounds).reconnections
        * max_send_attempts 3)
    × ((send_request_retry durable_call 3 false false rounds).result ≡ waiting
        → length rounds
          ≤ suc (send_request_retry durable_call 3 false false rounds).reconnections
            * max_send_attempts 3)
send_request_retry-limits_example = send_request_retry-limits durable_call 3 false false rounds

send_request_retry-kept_example :
    (send_request_retry durable_call 3 false false rounds).result ≢ failed
unfolding can_end
send_request_retry-kept_example =
    send_request_retry-kept durable_call 3 false rounds refl refl
      (refl, (refl, (refl, (refl, (refl, tt)))))
