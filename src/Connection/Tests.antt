-- ===== src/Connection/Tests.antt =====
-- Runs of a connection whose first server is lost.
use perfect_ws.Base.{◌≡◌, refl, true, false, List, [], ◌∷◌, nat_eq, string_eq}
use perfect_ws.Connection.{
  fresh, is, is_opened, connected_in, is_connected, unregister_server, shut, close, close_current,
  become_ready, server_open, replace_server, on_open, set_server, open_socket, on_synced, Event,
  sets_server, opens, shuts, closes, syncs, asks, step, run,
}
use perfect_ws.Connection.Ready.{IsServed}
use perfect_ws.Connection.Told.{IsHonest, run-IsServed}

-- One waits through the loss of the first server and a second one that cannot be synchronized.
abbrev third_time : List Event
third_time =
    asks
    ∷ syncs 2 true
    ∷ sets_server true
    ∷ syncs 1 false
    ∷ opens 1
    ∷ sets_server false
    ∷ closes 0
    ∷ asks
    ∷ sets_server true
    ∷ []

both_told : (run true third_time).told ≡ (1, true) ∷ (0, true) ∷ []
unfolding run step set_server replace_server unregister_server close_current close shut is on_open
    open_socket on_synced become_ready is_opened server_open is_connected connected_in fresh
both_told = refl

-- The server is closing, and its close event has not come: the router is ready, and who asks waits.
waits_closing :
    ((run false (asks ∷ shuts 0 ∷ sets_server true ∷ [])).ready ≡ true)
    × ((run false (asks ∷ shuts 0 ∷ sets_server true ∷ [])).waiters ≡ 0 ∷ [])
unfolding run step set_server replace_server unregister_server close_current close shut is on_open
    open_socket on_synced become_ready is_opened server_open is_connected connected_in fresh
waits_closing = (refl, refl)

run-IsServed_example :
    IsServed (run true third_time)
    × ((e : Event) → IsHonest (run true third_time) (run true (e ∷ third_time)))
run-IsServed_example = run-IsServed true third_time
