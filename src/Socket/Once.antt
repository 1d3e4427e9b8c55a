-- ===== src/Socket/Once.antt =====
-- A close listener is called at most once, whatever is done to the wrapper.
use perfect_ws.Base.{
  ℕ, ◌+◌, ◌≤◌, ◌≡◌, refl, sym, subst, ap, ◌⊎◌, Bool, true, false, ◌++◌, List, [], ◌∷◌, arith,
  Bool-cases, inl, inr, if◌then◌else◌, ◌==◌, nat_eq, ◌&&◌, if_both, count_if,
}
use perfect_ws.Socket.{
  Call, CloseEvent, Entry, Socket, Operation, add_close_listener, remove_close_listener,
  set_on_close, drop_called, Environment, acts, call_entry, call_entries, trigger_close, includes,
  is_listening, run, fresh, remove_first, delete_from_set,
}
use perfect_ws.Socket.Keeps.{IsKept, perform_all-keeps}
use perfect_ws.Socket.Idle.{
  trigger_close-IsIdle, Leaves, nothing, logged, perform_all-Leaves, call_entry-dispatched,
}
use perfect_ws.Socket.Entries.{
  listens, IsWellFormed, IsWellFormed-IsKept, trigger_close-IsWellFormed,
}

abbrev pub calls_of : ℕ → List Call → ℕ
calls_of h calls = count_if (λ c. c.called == h) calls

calls_of-append :
    (h : ℕ) (calls : List Call) (c : Call)
    → calls_of h (calls ++ (c ∷ [])) ≡ calls_of h calls + (if c.called == h then 1 else 0)
calls_of-append h [] c = omega arith
calls_of-append h (d ∷ calls) c = omega (arith, calls_of-append h calls c)

pub drop_called-Leaves :
    (hs : List ℕ) (s : Socket) → s.close_event_dispatched ≡ true → Leaves s (drop_called hs s)
unfolding drop_called
drop_called-Leaves [] s d = (d, refl)
drop_called-Leaves (h ∷ hs) s d =
    drop_called-Leaves hs
      (record s {
        close_listeners = delete_from_set h s.close_listeners;
        virtual_close_listeners = remove_first h s.virtual_close_listeners;
      })
      d

module _ (env : Environment) where
  pub calls_of-call_entry :
      (h : ℕ) (e : CloseEvent) (x : Entry) (s : Socket) (done : List ℕ)
      → s.close_event_dispatched ≡ true
      → calls_of h (call_entry env nothing e x s done).0.calls
        ≡ calls_of h s.calls
          + (if includes s.virtual_close_listeners x && listens h x then 1 else 0)
  unfolding call_entry
  calls_of-call_entry h e x s done d =
      let c : Call = record { called = x.listener; event = e } in
      elim (Bool-cases (includes s.virtual_close_listeners x)) [
        | inl f ↦ ground (
          arith,
          f,
          calls_of-append h s.calls c,
          ap (calls_of h) (perform_all-Leaves env (acts env x.listener).0 (logged x e s) d).1,
        )
        | inr f ↦ ground (arith, f)
      ]

  pub calls_of-call_entries :
      (h : ℕ) (e : CloseEvent) (xs : List Entry) (s : Socket) (done : List ℕ)
      → s.close_event_dispatched ≡ true
      → ((call_entries env nothing e xs s done).0.close_event_dispatched ≡ true)
        × (calls_of h (call_entries env nothing e xs s done).0.calls
            ≤ calls_of h s.calls + count_if (listens h) xs)
  unfolding call_entries
  calls_of-call_entries h e [] s done d = (d, omega arith)
  calls_of-call_entries h e (x ∷ xs) s done d =
      let p = call_entry env nothing e x s done in
      let q = calls_of-call_entries h e xs p.0 p.1 (call_entry-dispatched env e x s done d) in
      (q.0, ground (arith, q.1, calls_of-call_entry h e x s done d))

  pub calls_of-grows :
      (h : ℕ) (e : CloseEvent) (xs : List Entry) (s : Socket) (done : List ℕ)
      → s.close_event_dispatched ≡ true
      → calls_of h s.calls ≤ calls_of h (call_entries env nothing e xs s done).0.calls
  unfolding call_entries
  calls_of-grows h e [] s done d = omega arith
  calls_of-grows h e (x ∷ xs) s done d =
      let p = call_entry env nothing e x s done in
      omega (
        arith,
        calls_of-call_entry h e x s done d,
        calls_of-grows h e xs p.0 p.1 (call_entry-dispatched env e x s done d),
      )

  -- No listener is called before the emission, and none twice.
  abbrev IsCalledOnce : Socket → Type 0
  IsCalledOnce s =
      ((s.close_event_dispatched ≡ true) ⊎ (s.calls ≡ [])) × ((h : ℕ) → calls_of h s.calls ≤ 1)

  abbrev IsOnce : Socket → Type 0
  IsOnce s = IsWellFormed s × IsCalledOnce s

  add-IsCalledOnce :
      (k : ℕ) (once : Bool) (s : Socket)
      → IsCalledOnce s
      → IsCalledOnce (add_close_listener k once s)
  unfolding add_close_listener
  add-IsCalledOnce k once s p =
      if_both IsCalledOnce (is_listening k s.virtual_close_listeners) s _ p p

  IsOnce-IsKept : IsKept IsOnce
  unfolding set_on_close remove_close_listener
  IsOnce-IsKept = record {
    by_add =
        λ k once s (w, p). (IsWellFormed-IsKept.by_add k once s w, add-IsCalledOnce k once s p);
    by_remove = λ k s (w, p). (IsWellFormed-IsKept.by_remove k s w, p);
    by_set_on_close = λ handler s p. p;
    by_resolve = λ hs s p. p;
    by_flag = λ s p. p;
  }

  pub trigger_close-opens :
      (e : CloseEvent) (s : Socket)
      → s.close_event_dispatched ≡ false
      → let p =
          call_entries env nothing e s.virtual_close_listeners
            (record s { close_event_dispatched = true })
            [] in
        trigger_close env 1 e s ≡ drop_called p.1 p.0
  unfolding trigger_close
  trigger_close-opens e s d = ground (arith, d)

  none_called :
      (s : Socket)
      → IsCalledOnce s
      → s.close_event_dispatched ≡ false
      → (h : ℕ) → calls_of h s.calls ≡ 0
  none_called s (inl d, c) f h = absurd (ground (arith, d, f))
  none_called s (inr e, c) f h = ap (calls_of h) e

  trigger_close-IsCalledOnce :
      (e : CloseEvent) (s : Socket) → IsOnce s → IsCalledOnce (trigger_close env 1 e s)
  trigger_close-IsCalledOnce e s (w, p) = elim (Bool-cases s.close_event_dispatched) [
    | inl d ↦ subst IsCalledOnce (sym (trigger_close-IsIdle env 1 e s d)) p
    | inr d ↦
        let xs = s.virtual_close_listeners in
        let begun : Socket = record s { close_event_dispatched = true } in
        let q = call_entries env nothing e xs begun [] in
        let r = drop_called-Leaves q.1 q.0 (calls_of-call_entries 0 e xs begun [] refl).0 in
        subst IsCalledOnce (sym (trigger_close-opens e s d)) (
          inl r.0,
          λ h. omega (
            arith,
            ap (calls_of h) r.1,
            (calls_of-call_entries h e xs begun [] refl).1,
            none_called s p d h,
            w.0 h,
          ),
        )
  ]

  trigger_close-IsOnce : (e : CloseEvent) (s : Socket) → IsOnce s → IsOnce (trigger_close env 1 e s)
  trigger_close-IsOnce e s o =
      (trigger_close-IsWellFormed env 1 e s o.0, trigger_close-IsCalledOnce e s o)

  pub run-IsOnce : (os : List Operation) → IsOnce (run env os)
  unfolding run fresh
  run-IsOnce os =
      perform_all-keeps IsOnce-IsKept env (trigger_close env 1) trigger_close-IsOnce os fresh
        ((λ h. omega arith, refl), (inr refl, λ h. omega arith))

  -- Whatever operations are done to a new wrapper, and whatever the listeners do to it when they are
  -- called, no function is called as a close listener more than once.
  pub calls_of-run : (os : List Operation) (h : ℕ) → calls_of h (run env os).calls ≤ 1
  calls_of-run os h = (run-IsOnce os).1.1 h
