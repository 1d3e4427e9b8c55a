-- ===== src/Socket/Keeps.antt =====
-- A property of the wrapper that every single change keeps is kept by all operations and emissions.
use perfect_ws.Base.{
  String, ℕ, Bool, true, false, ◌++◌, Option, List, [], ◌∷◌, Option-cases, Bool-cases, inl, inr,
  if◌then◌else◌, ◌==◌, nat_eq, ◌&&◌, not, if_both,
}
use perfect_ws.Socket.{
  Call, CloseEvent, Entry, Socket, Operation, adds, removes, sets_on_close, waits, forces,
  socket_closes, add_close_listener, remove_close_listener, set_on_close, once_close, ready_state,
  closed, Environment, acts, socket_close, force_close, perform, perform_all, call_entry,
  call_entries, includes,
}
use perfect_ws.Socket.Idle.{forced}

-- The single changes that need nothing of their operation.
pub record IsKept {ℓ} (P : Socket → Type ℓ) : Type ℓ where
  pub by_add : (h : ℕ) (once : Bool) (s : Socket) → P s → P (add_close_listener h once s)
  pub by_remove : (h : ℕ) (s : Socket) → P s → P (remove_close_listener h s)
  pub by_set_on_close : (handler : Option ℕ) (s : Socket) → P s → P (set_on_close handler s)
  pub by_resolve : (hs : List ℕ) (s : Socket) → P s → P (record s { resolved = hs })
  pub by_flag : (s : Socket) → P s → P (record s { force_closed = true })

module _ {ℓ} {P : Socket → Type ℓ} (k : IsKept P) (env : Environment)
    (t : CloseEvent → Socket → Socket)
    (by_trigger : (e : CloseEvent) (s : Socket) → P s → P (t e s)) where
  once_close-keeps : (h of_socket : ℕ) (s : Socket) → P s → P (once_close h of_socket s)
  unfolding once_close
  once_close-keeps h of_socket s p = elim (Bool-cases (ready_state of_socket s == closed)) [
    | inl e ↦ rw (e, once_close) (k.by_resolve (s.resolved ++ (h ∷ [])) s p)
    | inr e ↦ rw (e, once_close) (k.by_add h true s p)
  ]

  socket_close-keeps : (e : CloseEvent) (s : Socket) → P s → P (socket_close env t e s)
  unfolding socket_close
  socket_close-keeps e s p = elim (Bool-cases s.native_close_handler) [
    | inl e' ↦ simp (e', socket_close) (by_trigger e s p)
    | inr e' ↦ simp (e', socket_close) p
  ]

  abbrev forcing : ℕ → String → CloseEvent
  forcing code reason = record { code = code; reason = reason; was_clean = false }

  force_close-keeps :
      (code : ℕ) (reason : String) (s : Socket) → P s → P (force_close env t code reason s)
  unfolding force_close
  force_close-keeps code reason s p = elim (Bool-cases s.force_closed) [
    | inl e ↦ simp (e, force_close) p
    | inr e ↦ elim (Option-cases env.close_at_once) [
      | inl f ↦
          simp (e, f, force_close) (by_trigger (forcing code reason) (forced s) (k.by_flag s p))
      | inr (c, f) ↦
          simp (e, f, force_close)
            (by_trigger (forcing code reason) (socket_close env t c (forced s))
              (socket_close-keeps c (forced s) (k.by_flag s p)))
    ]
  ]

  pub perform-keeps : (o : Operation) (s : Socket) → P s → P (perform env t o s)
  unfolding perform
  perform-keeps (adds h once) s p = k.by_add h once s p
  perform-keeps (removes h) s p = k.by_remove h s p
  perform-keeps (sets_on_close handler) s p = k.by_set_on_close handler s p
  perform-keeps (waits h of_socket) s p = once_close-keeps h of_socket s p
  perform-keeps (forces code reason) s p = force_close-keeps code reason s p
  perform-keeps (socket_closes e) s p = socket_close-keeps e s p

  pub perform_all-keeps : (os : List Operation) (s : Socket) → P s → P (perform_all env t os s)
  unfolding perform_all
  perform_all-keeps [] s p = p
  perform_all-keeps (o ∷ os) s p = perform_all-keeps os (perform env t o s) (perform-keeps o s p)

  -- Where it does not look at the log of calls, the calls of an emission keep it too.
  module _ (by_call : (calls : List Call) (s : Socket) → P s → P (record s { calls = calls })) where
    call_entry-keeps :
        (e : CloseEvent) (x : Entry) (s : Socket) (done : List ℕ)
        → P s
        → P (call_entry env t e x s done).0
    unfolding call_entry
    call_entry-keeps e x s done p =
        let called : Socket = record s {
          calls = s.calls ++ (record { called = x.listener; event = e } ∷ []);
        } in
        if_both (λ (r : Socket × List ℕ). P r.0) (includes s.virtual_close_listeners x)
          (
            perform_all env t (acts env x.listener).0 called,
            if x.once && not (acts env x.listener).1 then done ++ (x.listener ∷ []) else done,
          )
          (s, done) (perform_all-keeps (acts env x.listener).0 called (by_call called.calls s p)) p

    pub call_entries-keeps :
        (e : CloseEvent) (xs : List Entry) (s : Socket) (done : List ℕ)
        → P s
        → P (call_entries env t e xs s done).0
    unfolding call_entries
    call_entries-keeps e [] s done p = p
    call_entries-keeps e (x ∷ xs) s done p =
        let q = call_entry env t e x s done in
        call_entries-keeps e xs q.0 q.1 (call_entry-keeps e x s done p)
