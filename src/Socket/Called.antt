-- ===== src/Socket/Called.antt =====
-- The end of a socket reaches each close listener that nothing else takes away.
use perfect_ws.Base.{
  String, ℕ, ◌≤◌, ◌≡◌, refl, sym, subst, ap, Bool, true, false, ◌++◌, List, [], ◌∷◌, arith,
  Option-cases, inl, inr, ◌==◌, nat_eq, not, any, length,
}
use perfect_ws.Socket.{
  CloseEvent, Entry, Socket, Operation, adds, removes, sets_on_close, waits, forces, socket_closes,
  Environment, socket_close, force_close, acts, perform, perform_all, call_entries, trigger_close,
  is_listening, run, fresh,
}
use perfect_ws.Socket.Idle.{trigger_close-IsIdle, nothing, forced}
use perfect_ws.Socket.Entries.{IsWellFormed, run-IsWellFormed}
use perfect_ws.Socket.Once.{
  calls_of, calls_of-call_entries, drop_called-Leaves, trigger_close-opens, calls_of-run,
}
use perfect_ws.Socket.Standing.{spares, listening_stands, call_entries-calls_of}

module _ (env : Environment) where
  -- No function but `h` itself takes the close listener `h` away when it is called.
  abbrev pub IsSparing : ℕ → Type 0
  IsSparing h = (k : ℕ) → (k == h) ≡ false → any (λ o. not (spares h o)) (acts env k).0 ≡ false

  trigger_close-calls_of :
      (h : ℕ) (i : IsSparing h) (e : CloseEvent) (s : Socket)
      → is_listening h s.virtual_close_listeners ≡ true
      → s.close_event_dispatched ≡ false
      → 1 ≤ calls_of h (trigger_close env 1 e s).calls
  trigger_close-calls_of h i e s l d =
      let xs = s.virtual_close_listeners in
      let begun : Socket = record s { close_event_dispatched = true } in
      let (x, f, g) = listening_stands h xs l in
      let q = call_entries env nothing e xs begun [] in
      let r = drop_called-Leaves q.1 q.0 (calls_of-call_entries env h e xs begun [] refl).0 in
      let c = call_entries-calls_of env x (subst IsSparing (sym f) i) e xs begun [] g refl g in
      subst (λ (s' : Socket). 1 ≤ calls_of h s'.calls) (sym (trigger_close-opens env e s d))
        (omega (arith, ap (calls_of h) r.1, subst (λ j. 1 ≤ calls_of j q.0.calls) f c))

  trigger_close-dispatched :
      (e : CloseEvent) (s : Socket)
      → s.close_event_dispatched ≡ false
      → (trigger_close env 1 e s).close_event_dispatched ≡ true
  trigger_close-dispatched e s d =
      let xs = s.virtual_close_listeners in
      let begun : Socket = record s { close_event_dispatched = true } in
      let q = call_entries env nothing e xs begun [] in
      subst (λ (s' : Socket). s'.close_event_dispatched ≡ true)
        (sym (trigger_close-opens env e s d))
        (drop_called-Leaves q.1 q.0 (calls_of-call_entries env 0 e xs begun [] refl).0).0

  listening-length : (h : ℕ) (xs : List Entry) → is_listening h xs ≡ true → 1 ≤ length xs
  unfolding is_listening
  listening-length h [] l = absurd (ground (arith, l))
  listening-length h (x ∷ xs) l = omega arith

  native_listening :
      (h : ℕ) (s : Socket)
      → IsWellFormed s
      → is_listening h s.virtual_close_listeners ≡ true
      → s.native_close_handler ≡ true
  unfolding is_listening
  native_listening h s (d, n) l = ground (arith, n, listening-length h s.virtual_close_listeners l)

  socket_close-calls_of :
      (h : ℕ) (i : IsSparing h) (e : CloseEvent) (s : Socket)
      → IsWellFormed s
      → is_listening h s.virtual_close_listeners ≡ true
      → s.close_event_dispatched ≡ false
      → (1 ≤ calls_of h (socket_close env (trigger_close env 1) e s).calls)
        × ((socket_close env (trigger_close env 1) e s).close_event_dispatched ≡ true)
  unfolding socket_close
  socket_close-calls_of h i e s w l d =
      simp (native_listening h s w l, socket_close)
        (trigger_close-calls_of h i e s l d, trigger_close-dispatched e s d)

  force_close-calls_of :
      (h : ℕ) (i : IsSparing h) (code : ℕ) (reason : String) (s : Socket)
      → IsWellFormed s
      → is_listening h s.virtual_close_listeners ≡ true
      → s.close_event_dispatched ≡ false
      → s.force_closed ≡ false
      → 1 ≤ calls_of h (force_close env (trigger_close env 1) code reason s).calls
  unfolding force_close
  force_close-calls_of h i code reason s w l d f =
      let event : CloseEvent = record { code = code; reason = reason; was_clean = false } in
      elim (Option-cases env.close_at_once) [
        | inl e ↦ simp (f, e, force_close) (trigger_close-calls_of h i event (forced s) l d)
        | inr (c, e) ↦
            let p = socket_close-calls_of h i c (forced s) w l d in
            simp (f, e, force_close)
              (subst (λ (s' : Socket). 1 ≤ calls_of h s'.calls)
                (sym (
                  trigger_close-IsIdle env 1 event
                    (socket_close env (trigger_close env 1) c (forced s)) p.1))
                p.0)
      ]

  perform_all-append :
      (t : CloseEvent → Socket → Socket) (os : List Operation) (o : Operation) (s : Socket)
      → perform_all env t (os ++ (o ∷ [])) s ≡ perform env t o (perform_all env t os s)
  unfolding perform_all
  perform_all-append t [] o s = refl
  perform_all-append t (p ∷ os) o s = perform_all-append t os o (perform env t p s)

  -- The wrapped socket closes, or the wrapper is closed by force.
  abbrev pub ends : Operation → Bool
  ends (adds k once) = false
  ends (removes k) = false
  ends (sets_on_close handler) = false
  ends (waits k of_socket) = false
  ends (forces code reason) = true
  ends (socket_closes e) = true

  end_called :
      (h : ℕ) (i : IsSparing h) (o : Operation) (s : Socket)
      → IsWellFormed s
      → is_listening h s.virtual_close_listeners ≡ true
      → s.close_event_dispatched ≡ false
      → s.force_closed ≡ false
      → ends o ≡ true
      → 1 ≤ calls_of h (perform env (trigger_close env 1) o s).calls
  unfolding perform
  end_called h i (adds k once) s w l d f e = absurd (ground (arith, e))
  end_called h i (removes k) s w l d f e = absurd (ground (arith, e))
  end_called h i (sets_on_close handler) s w l d f e = absurd (ground (arith, e))
  end_called h i (waits k of_socket) s w l d f e = absurd (ground (arith, e))
  end_called h i (forces code reason) s w l d f e = force_close-calls_of h i code reason s w l d f
  end_called h i (socket_closes c) s w l d f e = (socket_close-calls_of h i c s w l d).0

  -- Let a function be registered as a close listener after some operations on a new wrapper that has
  -- neither been closed by force nor sent a close event. If no other listener takes it away when it
  -- is called, then the close of the wrapped socket calls it, exactly once, and so does `forceClose`,
  -- whether or not the wrapped socket sends its own close event from within.
  pub calls_of-run-ends :
      (os : List Operation) (h : ℕ) (o : Operation)
      → IsSparing h
      → is_listening h (run env os).virtual_close_listeners ≡ true
      → (run env os).close_event_dispatched ≡ false
      → (run env os).force_closed ≡ false
      → ends o ≡ true
      → calls_of h (run env (os ++ (o ∷ []))).calls ≡ 1
  unfolding run
  calls_of-run-ends os h o i l d f e = omega (
    arith,
    calls_of-run env (os ++ (o ∷ [])) h,
    subst (λ (s : Socket). 1 ≤ calls_of h s.calls)
        (sym (perform_all-append (trigger_close env 1) os o fresh))
        (end_called h i o (run env os) (run-IsWellFormed env os) l d f e),
  )
