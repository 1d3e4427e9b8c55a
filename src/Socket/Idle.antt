-- ===== src/Socket/Idle.antt =====
-- Emissions within an emission: none starts, so that the bound on the depth never matters.
use perfect_ws.Base.{
  String, ℕ, zero, suc, ◌≡◌, refl, sym, ◌∙◌, true, false, List, [], ◌∷◌, arith, Option-cases, inl,
  inr, if◌then◌else◌, ◌++◌,
}
use perfect_ws.Socket.{
  CloseEvent, Entry, Socket, Operation, adds, removes, sets_on_close, waits, forces, socket_closes,
  add_close_listener, remove_close_listener, set_on_close, once_close, Environment, acts,
  socket_close, force_close, perform, perform_all, call_entry, call_entries, trigger_close,
}

-- Once the event is dispatched, it does nothing.
abbrev pub IsIdle : (CloseEvent → Socket → Socket) → Type 0
IsIdle t = (e : CloseEvent) (s : Socket) → s.close_event_dispatched ≡ true → t e s ≡ s

abbrev pub nothing : CloseEvent → Socket → Socket
nothing e s = s

-- The calls and the flag of the emission stay as they are.
abbrev pub Leaves : Socket → Socket → Type 0
Leaves s s' = (s'.close_event_dispatched ≡ true) × (s'.calls ≡ s.calls)

abbrev pub logged : Entry → CloseEvent → Socket → Socket
logged x e s = record s { calls = s.calls ++ (record { called = x.listener; event = e } ∷ []) }

abbrev pub forced : Socket → Socket
forced s = record s { force_closed = true }

module _ (env : Environment) where
  pub trigger_close-IsIdle : (depth : ℕ) → IsIdle (trigger_close env depth)
  unfolding trigger_close
  trigger_close-IsIdle zero e s h = refl
  trigger_close-IsIdle (suc depth) e s h = simp h

  pub idle_socket_close :
      (t : CloseEvent → Socket → Socket) (i : IsIdle t) (e : CloseEvent) (s : Socket)
      → s.close_event_dispatched ≡ true
      → socket_close env t e s ≡ s
  unfolding socket_close
  idle_socket_close t i e s d = ground (arith, i e s d)

  pub idle_force_close :
      (t : CloseEvent → Socket → Socket) (i : IsIdle t) (code : ℕ) (reason : String) (s : Socket)
      → s.close_event_dispatched ≡ true
      → force_close env t code reason s ≡ (if s.force_closed then s else forced s)
  unfolding force_close
  idle_force_close t i code reason s d =
      let event : CloseEvent = record { code = code; reason = reason; was_clean = false } in
      elim (Option-cases env.close_at_once) [
        | inl e ↦ ground (arith, e, i event (forced s) d)
        | inr (c, e) ↦ ground (arith, e, i event (forced s) d, idle_socket_close t i c (forced s) d)
      ]

  -- What an operation does while an emission stands.
  pub perform-IsIdle :
      (t : CloseEvent → Socket → Socket) (i : IsIdle t) (o : Operation) (s : Socket)
      → s.close_event_dispatched ≡ true
      → perform env t o s ≡ perform env nothing o s
  unfolding perform
  perform-IsIdle t i (adds h once) s d = refl
  perform-IsIdle t i (removes h) s d = refl
  perform-IsIdle t i (sets_on_close handler) s d = refl
  perform-IsIdle t i (waits h of_socket) s d = refl
  perform-IsIdle t i (forces code reason) s d =
      idle_force_close t i code reason s d
      ∙ sym (idle_force_close nothing (λ e s d. refl) code reason s d)
  perform-IsIdle t i (socket_closes e) s d =
      idle_socket_close t i e s d ∙ sym (idle_socket_close nothing (λ e s d. refl) e s d)

  pub perform-Leaves :
      (o : Operation) (s : Socket)
      → s.close_event_dispatched ≡ true
      → Leaves s (perform env nothing o s)
  unfolding perform add_close_listener remove_close_listener set_on_close once_close socket_close
  perform-Leaves (adds h once) s d = ground (arith, d)
  perform-Leaves (removes h) s d = ground (arith, d)
  perform-Leaves (sets_on_close handler) s d = ground (arith, d)
  perform-Leaves (waits h of_socket) s d = ground (arith, d)
  perform-Leaves (forces code reason) s d =
      ground (arith, d, idle_force_close nothing (λ e s d. refl) code reason s d)
  perform-Leaves (socket_closes e) s d = ground (arith, d)

  pub perform_all-Leaves :
      (os : List Operation) (s : Socket)
      → s.close_event_dispatched ≡ true
      → Leaves s (perform_all env nothing os s)
  unfolding perform_all
  perform_all-Leaves [] s d = (d, refl)
  perform_all-Leaves (o ∷ os) s d =
      let p = perform-Leaves o s d in
      let q = perform_all-Leaves os (perform env nothing o s) p.0 in (q.0, q.1 ∙ p.1)

  pub perform_all-IsIdle :
      (t : CloseEvent → Socket → Socket) (i : IsIdle t) (os : List Operation) (s : Socket)
      → s.close_event_dispatched ≡ true
      → perform_all env t os s ≡ perform_all env nothing os s
  unfolding perform_all
  perform_all-IsIdle t i [] s d = refl
  perform_all-IsIdle t i (o ∷ os) s d =
      rw (perform-IsIdle t i o s d, perform_all)
        (perform_all-IsIdle t i os (perform env nothing o s) (perform-Leaves o s d).0)

  pub call_entry-IsIdle :
      (t : CloseEvent → Socket → Socket) (i : IsIdle t) (e : CloseEvent) (x : Entry) (s : Socket)
      (done : List ℕ)
      → s.close_event_dispatched ≡ true
      → call_entry env t e x s done ≡ call_entry env nothing e x s done
  unfolding call_entry
  call_entry-IsIdle t i e x s done d =
      rw (perform_all-IsIdle t i (acts env x.listener).0 (logged x e s) d) refl

  pub call_entry-dispatched :
      (e : CloseEvent) (x : Entry) (s : Socket) (done : List ℕ)
      → s.close_event_dispatched ≡ true
      → (call_entry env nothing e x s done).0.close_event_dispatched ≡ true
  unfolding call_entry
  call_entry-dispatched e x s done d =
      ground (arith, d, (perform_all-Leaves (acts env x.listener).0 (logged x e s) d).0)

  pub call_entries-IsIdle :
      (t : CloseEvent → Socket → Socket) (i : IsIdle t) (e : CloseEvent) (xs : List Entry)
      (s : Socket) (done : List ℕ)
      → s.close_event_dispatched ≡ true
      → call_entries env t e xs s done ≡ call_entries env nothing e xs s done
  unfolding call_entries
  call_entries-IsIdle t i e [] s done d = refl
  call_entries-IsIdle t i e (x ∷ xs) s done d =
      let p = call_entry env nothing e x s done in
      rw (call_entry-IsIdle t i e x s done d)
        (call_entries-IsIdle t i e xs p.0 p.1 (call_entry-dispatched e x s done d))

  -- An emission is the same whatever depth of emissions within emissions is allowed, as long as it
  -- may start at all: depth 1 is enough.
  pub trigger_close-depth :
      (depth : ℕ) (e : CloseEvent) (s : Socket)
      → trigger_close env (suc depth) e s ≡ trigger_close env 1 e s
  unfolding trigger_close
  trigger_close-depth depth e s =
      let q =
        call_entries-IsIdle (trigger_close env depth) (trigger_close-IsIdle depth) e
          s.virtual_close_listeners (record s { close_event_dispatched = true }) [] refl in
      let r =
        call_entries-IsIdle (trigger_close env 0) (trigger_close-IsIdle 0) e
          s.virtual_close_listeners (record s { close_event_dispatched = true }) [] refl in
      rw (q, r) refl
