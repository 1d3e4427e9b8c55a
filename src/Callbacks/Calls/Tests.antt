-- ===== src/Callbacks/Calls/Tests.antt =====
-- Runs of the calls under a limit of two.
use perfect_ws.Base.{ℕ, ◌≡◌, refl, true, false, none, some, List, [], ◌∷◌, nat_eq, string_eq}
use perfect_ws.Callbacks.Calls.{
  fresh, invoke, is_active, take_out, settle, on_response, reject_all, on_send_failed, release_all,
  Event, invokes, responds, releases, step, run,
}
use perfect_ws.Callbacks.Calls.Settled.{settled_count, IsOnce, calls-IsOnce}

-- Two calls and a refused third, an answer, and the release of the channel.
abbrev all_settled : List (Event ℕ)
all_settled =
    responds 1 none 5
    ∷ releases
    ∷ responds 0 (some "broken") 0
    ∷ invokes "f" false
    ∷ invokes "f" true
    ∷ invokes "f" false
    ∷ []

settled_once : settled_count 1 (run 2 all_settled) ≡ 1
unfolding settled_count run step invoke on_response on_send_failed settle take_out is_active
    reject_all release_all fresh
settled_once = refl

calls-IsOnce_example : IsOnce 2 (run 2 all_settled)
calls-IsOnce_example = calls-IsOnce 2 all_settled
