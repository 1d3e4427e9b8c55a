-- ===== src/Auth/RemoteServer/Tests.antt =====
-- Runs of an attachment to a URL.
use perfect_ws.Base.{◌≡◌, refl, true, some, List, [], ◌∷◌, nat_eq, string_eq}
use perfect_ws.JsMap.{set, delete}
use perfect_ws.Auth.RemoteServer.{
  Options, is_password_rejection, forget_client, register_client, unregister, stop, reconnects,
  delay_after, enter, leave, attach, Event, registers_client, wakes, closes, step, run,
}
use perfect_ws.Auth.RemoteServer.Attempts.{run-unregister}

abbrev options : Options
options = record {
  is_url = true;
  auto_reconnect = true;
  delay_before_reconnect = 3000;
  password_failure_delay = 12100;
}

-- A wrong password, a lost connection, and the third attempt.
abbrev rejected : List Event
rejected = wakes ∷ closes (some 1006) ∷ registers_client 2 7 ∷ wakes ∷ closes (some 3001) ∷ []

slow_then_fast :
    (run options rejected (attach options)).waits ≡ (some 1006, 3000) ∷ (some 3001, 12100) ∷ []
unfolding run step leave enter reconnects delay_after is_password_rejection forget_client
    register_client attach set delete
slow_then_fast = refl

-- The handshake of the first attempt still sends its answer when the socket closes: it is registered
-- after that, and stays listed while the attachment waits and connects again.
late_registration :
    ((run options (registers_client 1 7 ∷ closes (some 1006) ∷ []) (attach options)).clients
      ≡ (7, 1) ∷ [])
    × ((run options
          (wakes ∷ registers_client 1 7 ∷ closes (some 1006) ∷ [])
          (attach options)).clients
        ≡ (7, 1) ∷ [])
unfolding run step leave enter reconnects delay_after is_password_rejection forget_client
    register_client attach set delete
late_registration = (refl, refl)

run-unregister_example :
    ((run options (wakes ∷ []) (unregister (attach options))).attempts ≡ (attach options).attempts)
    × ((run options (wakes ∷ []) (stop (attach options))).attempts ≡ (attach options).attempts)
run-unregister_example = run-unregister options (wakes ∷ []) (attach options)
