-- ===== src/Callbacks/Received/Tests.antt =====
-- A wrapper that is collected while a later marker comes in.
use perfect_ws.Base.{◌≡◌, refl, List, [], ◌∷◌, nat_eq, string_eq}
use perfect_ws.JsMap.{get, set, delete}
use perfect_ws.Callbacks.Received.{
  fresh, renew, wrap, deserialize, collect, drop, finalize, Event, deserializes, collects,
  finalizes, step, run,
}
use perfect_ws.Callbacks.Received.Leases.{IsExact, run-IsExact}

-- The finalizer of the first wrapper finds the second in its place; the second is released.
abbrev collected : List Event
collected =
    finalizes 3 1
    ∷ finalizes 3 0
    ∷ deserializes 3 4
    ∷ deserializes 3 6
    ∷ collects 3
    ∷ deserializes 3 2
    ∷ []

one_release : (run collected).releases ≡ record { id = 3; by = 1; lease = 6 } ∷ []
unfolding run step deserialize renew wrap collect drop finalize fresh get set delete
one_release = refl

run-IsExact_example : IsExact (run collected)
run-IsExact_example = run-IsExact collected
