-- ===== src/Callbacks/Incoming/Tests.antt =====
-- A run of incoming requests under a limit of two.
use perfect_ws.Base.{ℕ, ◌≡◌, refl, true, List, [], ◌∷◌, nat_eq, string_eq}
use perfect_ws.JsMap.{get, set, delete}
use perfect_ws.Callbacks.Incoming.{
  replied, drop_at, fresh, await_again, answer_unknown, start, on_request, on_settled, resume,
  on_delivered, Event, requests, delivers, settles, resumes, step, run,
}
use perfect_ws.Callbacks.Incoming.Called.{deliveries, call_count, IsCounted, calls-IsCounted}

-- A request that comes twice before its result is there, and again after its delivery.
abbrev repeated : List (Event ℕ)
repeated =
    requests 4 true
    ∷ delivers 4
    ∷ resumes 1
    ∷ resumes 0
    ∷ settles 0 (replied 9)
    ∷ requests 4 true
    ∷ requests 4 true
    ∷ []

called_twice : call_count 4 (run 2 repeated) ≡ 2
unfolding call_count run step on_request start await_again answer_unknown on_settled resume drop_at
    on_delivered fresh get set delete
called_twice = refl

calls-IsCounted_example : IsCounted 2 (λ id. deliveries id repeated) (run 2 repeated)
calls-IsCounted_example = calls-IsCounted 2 repeated
