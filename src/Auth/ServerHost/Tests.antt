-- ===== src/Auth/ServerHost/Tests.antt =====
-- Peers of a host whose password is a number.
use perfect_ws.Base.{
  ℕ, ◌≤◌, ◌≡◌, refl, String, true, false, none, some, List, [], ◌∷◌, any, nat_eq, string_eq,
}
use perfect_ws.JsMap.{get, set, delete, has}
use perfect_ws.Auth.ServerHost.{
  one, Config, Event, connects, gives_password, gives_id, initializes, readies, socket_closes,
  validate_password, is_awaiting_password, is_awaiting_id, client_in, set_phase, refuse,
  with_limiter, blocked, leave_clients, on_close, refuse_by_force, on_id, on_ready, of_event,
  on_connection, on_password, resume, resume_ref, step, run,
}
use perfect_ws.Auth.ServerHost.Admitted.{gave_password, clients-IsValid}
use perfect_ws.Auth.ServerHost.Counting.{open_count}
use perfect_ws.Auth.ServerHost.Counted.{connection_count-run}

computing : Unit {0}
unfolding get set delete has validate_password is_awaiting_password is_awaiting_id client_in
    set_phase refuse with_limiter blocked leave_clients on_close refuse_by_force on_id on_ready
    of_event on_connection on_password resume resume_ref step run
computing = tt

abbrev config : Config ℕ
config = record {
  max_connections = 3;
  limits = record { max_attempts = 1; window_ms = 100; max_tracked_keys = 10 };
  password = one 7;
}

-- The latest first.
abbrev enters : ℕ → String → List (Event ℕ) → List (Event ℕ)
enters r c es =
    readies r true
    ∷ initializes r true
    ∷ gives_id r (some c) false
    ∷ gives_password 1 r (some 7)
    ∷ connects 1 none
    ∷ es

listed : get (run config none (enters 0 "c" [])).clients "c" ≡ some 0
unfolding computing
listed = refl

clients-IsValid_example : any (gave_password config.password 0) (enters 0 "c" []) ≡ true
clients-IsValid_example = clients-IsValid config none (enters 0 "c" []) "c" 0 listed

-- The peer comes again while its last socket is closing, and is no longer listed when that has closed.
listed_again : get (run config none (enters 1 "c" (enters 0 "c" []))).clients "c" ≡ some 1
unfolding computing
listed_again = refl

lost : get (run config none (socket_closes 0 ∷ enters 1 "c" (enters 0 "c" []))).clients "c" ≡ none
unfolding computing
lost = refl

connection_count-run_example :
    ((run config none (socket_closes 0 ∷ enters 0 "c" [])).connection_count
      ≡ open_count (run config none (socket_closes 0 ∷ enters 0 "c" [])).connections)
    × ((run config none (socket_closes 0 ∷ enters 0 "c" [])).connection_count
        ≤ config.max_connections)
connection_count-run_example = connection_count-run config none (socket_closes 0 ∷ enters 0 "c" [])
