-- ===== src/Socket/Tests.antt =====
-- Two close listeners, of which the first is called once and closes the socket again by force.
use perfect_ws.Base.{
  ◌≡◌, refl, true, false, some, List, [], ◌∷◌, ◌++◌, arith, ◌==◌, nat_eq, Bool-cases, inl, inr,
  if◌then◌else◌,
}
use perfect_ws.Socket.{
  CloseEvent, fresh, Operation, adds, removes, waits, forces, socket_closes, closed, add_to_set,
  delete_from_set, is_listening, includes, remove_first, add_close_listener, remove_close_listener,
  set_on_close, ready_state, once_close, drop_called, Environment, acts, socket_close, force_close,
  perform, perform_all, call_entry, call_entries, trigger_close, run,
}
use perfect_ws.Socket.Once.{calls_of}
use perfect_ws.Socket.Called.{IsSparing, calls_of-run-ends}

computing : Unit {0}
unfolding fresh closed add_to_set delete_from_set is_listening includes remove_first
    add_close_listener remove_close_listener set_on_close ready_state once_close drop_called acts
    socket_close force_close perform perform_all call_entry call_entries trigger_close run
computing = tt

abbrev event : CloseEvent
event = record { code = 1006; reason = "lost"; was_clean = false }

abbrev env : Environment
env = record {
  body = λ k. (if k == 1 then forces 1000 "again" ∷ removes 1 ∷ [] else [], false);
  is_waiter = λ k. k == 3;
  close_at_once = some event;
}

abbrev before : List Operation
before = adds 1 true ∷ adds 2 false ∷ adds 1 false ∷ []

both_called :
    (run env (before ++ (socket_closes event ∷ socket_closes event ∷ []))).calls
    ≡ record { called = 1; event = event } ∷ record { called = 2; event = event } ∷ []
unfolding computing
both_called = refl

-- A promise asked for after the forced close is resolved at once.
at_once : (run env (forces 1000 "x" ∷ waits 3 1 ∷ [])).resolved ≡ 3 ∷ []
unfolding computing
at_once = refl

sparing : IsSparing env 2
unfolding acts
sparing k h = elim (Bool-cases (k == 3)) [
  | inl e ↦ rw (e, acts) (ground (arith, e))
  | inr e ↦ elim (Bool-cases (k == 1)) [
    | inl f ↦ rw (e, f, acts) refl
    | inr f ↦ rw (e, f, acts) refl
  ]
]

calls_of-run-ends_example : calls_of 2 (run env (before ++ (forces 1000 "bye" ∷ []))).calls ≡ 1
unfolding computing
calls_of-run-ends_example =
    calls_of-run-ends env before 2 (forces 1000 "bye") sparing refl refl refl refl
