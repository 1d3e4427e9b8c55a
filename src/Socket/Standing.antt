-- ===== src/Socket/Standing.antt =====
-- An entry that no listener but its own takes away is called in an emission.
use perfect_ws.Base.{
  ℕ, ◌≤◌, ◌≡◌, refl, Bool, true, false, ◌++◌, List, [], ◌∷◌, arith, Bool-cases, inl, inr, ◌==◌,
  nat_eq, ◌&&◌, not, any, if_both, beq_refl,
}
use perfect_ws.Socket.{
  CloseEvent, Entry, Socket, Operation, adds, removes, sets_on_close, waits, forces, socket_closes,
  add_close_listener, remove_close_listener, set_on_close, once_close, ready_state, closed,
  Environment, acts, perform, perform_all, call_entry, call_entries, includes, is_listening,
  remove_first,
}
use perfect_ws.Socket.Idle.{
  perform-Leaves, nothing, logged, idle_force_close, idle_socket_close, call_entry-dispatched,
}
use perfect_ws.Socket.Once.{calls_of-grows, calls_of, calls_of-call_entry}

-- The operation does not remove the listener.
abbrev pub spares : ℕ → Operation → Bool
spares h (adds k once) = true
spares h (removes k) = not (k == h)
spares h (sets_on_close handler) = true
spares h (waits k of_socket) = true
spares h (forces code reason) = true
spares h (socket_closes e) = true

-- The entry stands in the list, under its own function.
abbrev pub stands : Entry → List Entry → Bool
stands x xs = any (λ y. y.entry == x.entry && y.listener == x.listener) xs

stands-append :
    (x y : Entry) (xs : List Entry) → stands x xs ≡ true → stands x (xs ++ (y ∷ [])) ≡ true
stands-append x y (z ∷ xs) e = ground (arith, e, stands-append x y xs)
stands-append x y [] e = cc e

stands-remove_first :
    (x : Entry) (k : ℕ) (xs : List Entry)
    → (k == x.listener) ≡ false
    → stands x xs ≡ true
    → stands x (remove_first k xs) ≡ true
unfolding remove_first
stands-remove_first x k (z ∷ xs) f e = ground (arith, f, e, stands-remove_first x k xs)
stands-remove_first x k [] f e = cc e

stands-includes :
    (x y : Entry) (xs : List Entry)
    → (y.entry == x.entry) ≡ true
    → stands x xs ≡ true
    → includes xs y ≡ true
unfolding includes
stands-includes x y (z ∷ xs) f e = ground (arith, f, e, stands-includes x y xs)
stands-includes x y [] f e = cc e

pub listening_stands :
    (h : ℕ) (xs : List Entry)
    → is_listening h xs ≡ true
    → (x : Entry) × (x.listener ≡ h) × (stands x xs ≡ true)
unfolding is_listening
listening_stands h [] e = absurd (ground (arith, e))
listening_stands h (y ∷ xs) e = elim (Bool-cases (y.listener == h)) [
  | inl f ↦
      (y, (nat_eq.same_iff y.listener h).0 f, ground (arith, beq_refl y.entry, beq_refl y.listener))
  | inr f ↦
      let (x, g, i) = listening_stands h xs (ground (arith, e, f)) in (x, g, ground (arith, i))
]

module _ (env : Environment) (x : Entry) where
  add-stands :
      (k : ℕ) (once : Bool) (s : Socket)
      → stands x s.virtual_close_listeners ≡ true
      → stands x (add_close_listener k once s).virtual_close_listeners ≡ true
  unfolding add_close_listener
  add-stands k once s e = ground (
    arith,
    e,
    stands-append x (record { entry = s.next_entry; listener = k; once = once })
        s.virtual_close_listeners e,
  )

  perform-stands :
      (o : Operation) (s : Socket)
      → spares x.listener o ≡ true
      → s.close_event_dispatched ≡ true
      → stands x s.virtual_close_listeners ≡ true
      → stands x (perform env nothing o s).virtual_close_listeners ≡ true
  unfolding perform remove_close_listener once_close set_on_close
  perform-stands (adds k once) s f d e = add-stands k once s e
  perform-stands (removes k) s f d e =
      stands-remove_first x k s.virtual_close_listeners (ground (arith, f)) e
  perform-stands (sets_on_close handler) s f d e = e
  perform-stands (waits k of_socket) s f d e =
      if_both (λ (r : Socket). stands x r.virtual_close_listeners ≡ true)
        (ready_state of_socket s == closed) (record s { resolved = s.resolved ++ (k ∷ []) })
        (add_close_listener k true s) e (add-stands k true s e)
  perform-stands (forces code reason) s f d e =
      ground (arith, e, idle_force_close env nothing (λ e s d. refl) code reason s d)
  perform-stands (socket_closes c) s f d e =
      ground (arith, e, idle_socket_close env nothing (λ e s d. refl) c s d)

  perform_all-stands :
      (os : List Operation) (s : Socket)
      → any (λ o. not (spares x.listener o)) os ≡ false
      → s.close_event_dispatched ≡ true
      → stands x s.virtual_close_listeners ≡ true
      → stands x (perform_all env nothing os s).virtual_close_listeners ≡ true
  unfolding perform_all
  perform_all-stands [] s f d e = e
  perform_all-stands (o ∷ os) s f d e =
      perform_all-stands os (perform env nothing o s) (ground (arith, f))
        (perform-Leaves env o s d).0 (perform-stands o s (ground (arith, f)) d e)

  -- No function but the entry's own takes the entry's function away.
  abbrev IsSpared : Type 0
  IsSpared =
      (k : ℕ)
      → (k == x.listener) ≡ false
      → any (λ o. not (spares x.listener o)) (acts env k).0 ≡ false

  call_entry-stands :
      (i : IsSpared) (e : CloseEvent) (y : Entry) (s : Socket) (done : List ℕ)
      → (y.listener == x.listener) ≡ false
      → s.close_event_dispatched ≡ true
      → stands x s.virtual_close_listeners ≡ true
      → stands x (call_entry env nothing e y s done).0.virtual_close_listeners ≡ true
  unfolding call_entry
  call_entry-stands i e y s done f d g =
      if_both (λ (r : Socket × List ℕ). stands x r.0.virtual_close_listeners ≡ true)
        (includes s.virtual_close_listeners y)
        (perform_all env nothing (acts env y.listener).0 (logged y e s), _) (s, done)
        (perform_all-stands (acts env y.listener).0 (logged y e s) (i y.listener f) d g) g

  skipped_stands :
      (e : CloseEvent) (y : Entry) (s : Socket) (done : List ℕ)
      → includes s.virtual_close_listeners y ≡ false
      → stands x s.virtual_close_listeners ≡ true
      → stands x (call_entry env nothing e y s done).0.virtual_close_listeners ≡ true
  unfolding call_entry
  skipped_stands e y s done k g = rw (k, call_entry) g

  pub call_entries-calls_of :
      (i : IsSpared) (e : CloseEvent) (ys : List Entry) (s : Socket) (done : List ℕ)
      → stands x ys ≡ true
      → s.close_event_dispatched ≡ true
      → stands x s.virtual_close_listeners ≡ true
      → 1 ≤ calls_of x.listener (call_entries env nothing e ys s done).0.calls
  unfolding call_entries
  call_entries-calls_of i e [] s done f d g = absurd (ground (arith, f))
  call_entries-calls_of i e (y ∷ ys) s done f d g =
      let p = call_entry env nothing e y s done in
      let d' = call_entry-dispatched env e y s done d in
      let n = calls_of-call_entry env x.listener e y s done d in
      elim (Bool-cases (y.listener == x.listener)) [
        | inl h ↦ elim (Bool-cases (includes s.virtual_close_listeners y)) [
          | inl k ↦ ground (arith, n, h, k, calls_of-grows env x.listener e ys p.0 p.1 d')
          | inr k ↦
              call_entries-calls_of i e ys p.0 p.1
                (ground (
                  arith,
                  f,
                  h,
                  k,
                  g,
                  λ (c : (y.entry == x.entry) ≡ true).
                      stands-includes x y s.virtual_close_listeners c g,
                ))
                d' (skipped_stands e y s done k g)
        ]
        | inr h ↦
            call_entries-calls_of i e ys p.0 p.1 (ground (arith, f, h)) d'
              (call_entry-stands i e y s done h d g)
      ]
