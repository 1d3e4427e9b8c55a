-- ===== src/Auth/ServerHost/Counted.antt =====
-- The count of connections is right after any events.
use perfect_ws.Base.{
  ℕ, ◌≤◌, ◌≡◌, refl, String, Bool, not, Option, none, some, List, [], ◌∷◌, ◌++◌, arith, if_both, Eq,
  ◌==◌, string_eq, nat_eq, Option-cases, inl, inr, keep_if,
}
use perfect_ws.JsMap.{get, set}
use perfect_ws.Auth.RateLimiter.{Limiter}
use perfect_ws.Auth.ServerHost.{
  Stage, last, initialization, ready, client_in, is_awaiting_id, is_awaiting_password, awaits_last,
  awaits_initialization, awaits_ready, attached, Connection, Config, Host, Event, connects,
  gives_password, gives_id, last_closes, initializes, readies, socket_closes, on_id, on_ready,
  resume, resume_ref, of_event, step, run,
}
use perfect_ws.Auth.ServerHost.Counting.{
  open_count, Counts, set_phase-Counts, refuse-Counts, on_close-Counts, on_connection-Counts,
  on_password-Counts,
}

module _ (limit : ℕ) where
  on_id-Counts :
      (r : ℕ) (k : Connection) (answer : Option String) (last_open : Bool) (h : Host)
      → get h.connections r ≡ some k
      → Counts limit h
      → Counts limit (on_id r k answer last_open h)
  unfolding on_id
  on_id-Counts r k none last_open h f w = refuse-Counts limit r k 3000 h f w
  on_id-Counts r k (some c) last_open h f w =
      let begins = set_phase-Counts limit r k (awaits_initialization c) in
      if_both (Counts limit) (c == "") _ _ (refuse-Counts limit r k 3000 h f w)
        (elim (Option-cases (get h.clients c)) [
          | inl e ↦ simp e (begins h f w)
          | inr (previous, e) ↦ simp e (
              if_both (Counts limit) last_open _ _
                (set_phase-Counts limit r k (awaits_last c) h f w)
                (begins (record h { closes = h.closes ++ ((previous, 3000) ∷ []) }) f w))
        ])

  on_ready-Counts :
      (r : ℕ) (k : Connection) (c : String) (attaches : Bool) (h : Host)
      → get h.connections r ≡ some k
      → Counts limit h
      → Counts limit (on_ready r k c attaches h)
  unfolding on_ready
  on_ready-Counts r k c attaches h f w =
      if_both (Counts limit) attaches _ _
        (set_phase-Counts limit r k (attached c)
          (record h {
            pending_sockets = keep_if (λ p. not (p == r)) h.pending_sockets;
            clients = set h.clients c r;
          })
          f w)
        (refuse-Counts limit r k 3000 h f w)

  stage-Counts :
      (st : Stage) (k : Connection) (next : String → Host) (h : Host)
      → ((c : String) → Counts limit (next c))
      → Counts limit h
      → Counts limit (elim (client_in st k.phase) [ none ↦ h | some c ↦ next c ])
  stage-Counts st k next h g w = elim (Option-cases (client_in st k.phase)) [
    | inl e ↦ simp e w
    | inr (c, e) ↦ simp e (g c)
  ]

module _ {V : Type 0} ⦃e : Eq V⦄ (config : Config V) where
  resume-Counts :
      (event : Event V) (r : ℕ) (k : Connection) (h : Host)
      → get h.connections r ≡ some k
      → Counts config.max_connections h
      → Counts config.max_connections (resume config event r k h)
  unfolding resume
  resume-Counts (connects now key) r k h f w = w
  resume-Counts (gives_password now ref answer) r k h f w =
      if_both (Counts config.max_connections) (is_awaiting_password k.phase) _ h
        (on_password-Counts config now r k answer h f w) w
  resume-Counts (gives_id ref answer last_open) r k h f w =
      if_both (Counts config.max_connections) (is_awaiting_id k.phase) _ h
        (on_id-Counts config.max_connections r k answer last_open h f w) w
  resume-Counts (last_closes ref) r k h f w =
      stage-Counts config.max_connections last k _ h
        (λ c. set_phase-Counts config.max_connections r k (awaits_initialization c) h f w) w
  resume-Counts (initializes ref succeeds) r k h f w =
      stage-Counts config.max_connections initialization k _ h
        (λ c.
          if_both (Counts config.max_connections) succeeds _ _
            (set_phase-Counts config.max_connections r k (awaits_ready c) h f w)
            (refuse-Counts config.max_connections r k 3000 h f w))
        w
  resume-Counts (readies ref attaches) r k h f w =
      stage-Counts config.max_connections ready k _ h
        (λ c. on_ready-Counts config.max_connections r k c attaches h f w) w
  resume-Counts (socket_closes ref) r k h f w = on_close-Counts config.max_connections r k h f w

  resume_ref-Counts :
      (event : Event V) (ref : Option ℕ) (h : Host)
      → Counts config.max_connections h
      → Counts config.max_connections (resume_ref config event ref h)
  unfolding resume_ref
  resume_ref-Counts event none h w = w
  resume_ref-Counts event (some r) h w = elim (Option-cases (get h.connections r)) [
    | inl f ↦ simp (f, resume_ref) w
    | inr (k, f) ↦ simp (f, resume_ref) (resume-Counts event r k h f w)
  ]

  step-Counts :
      (event : Event V) (h : Host)
      → Counts config.max_connections h
      → Counts config.max_connections (step config event h)
  unfolding step of_event
  step-Counts (connects now key) h w = on_connection-Counts config now key h w
  step-Counts (gives_password now ref answer) h w =
      resume_ref-Counts (gives_password now ref answer) (some ref) h w
  step-Counts (gives_id ref answer last_open) h w =
      resume_ref-Counts (gives_id ref answer last_open) (some ref) h w
  step-Counts (last_closes ref) h w = resume_ref-Counts (last_closes ref) (some ref) h w
  step-Counts (initializes ref succeeds) h w =
      resume_ref-Counts (initializes ref succeeds) (some ref) h w
  step-Counts (readies ref attaches) h w = resume_ref-Counts (readies ref attaches) (some ref) h w
  step-Counts (socket_closes ref) h w = resume_ref-Counts (socket_closes ref) (some ref) h w

  run-Counts :
      (limiter : Option Limiter) (events : List (Event V))
      → Counts config.max_connections (run config limiter events)
  unfolding run get
  run-Counts limiter [] = (refl, omega arith, λ r i. refl)
  run-Counts limiter (event ∷ events) =
      step-Counts event (run config limiter events) (run-Counts limiter events)

  -- Whatever peers do and in whatever order, the host's count is the number of the accepted
  -- connections whose close event has not come, and is never more than `maxConnections`.
  pub connection_count-run :
      (limiter : Option Limiter) (events : List (Event V))
      → ((run config limiter events).connection_count
          ≡ open_count (run config limiter events).connections)
        × ((run config limiter events).connection_count ≤ config.max_connections)
  connection_count-run limiter events = let w = run-Counts limiter events in (w.0, w.1)
