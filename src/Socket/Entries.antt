-- ===== src/Socket/Entries.antt =====
-- The list of close listeners: a function stands in it at most once.
use perfect_ws.Base.{
  count_if-append, ℕ, zero, suc, ◌≤◌, ◌≡◌, refl, Bool, true, false, List, [], ◌∷◌, arith, ◌==◌,
  nat_eq, if_both, count_if, length, length-append, ◌||◌,
}
use perfect_ws.Socket.{
  CloseEvent, Entry, Socket, Operation, add_close_listener, remove_close_listener, set_on_close,
  drop_called, Environment, call_entries, trigger_close, is_listening, run, fresh, remove_first,
  delete_from_set,
}
use perfect_ws.Socket.Keeps.{IsKept, perform_all-keeps, call_entries-keeps}

abbrev pub listens : ℕ → Entry → Bool
listens h x = x.listener == h

count_if-remove_first :
    (h k : ℕ) (xs : List Entry) → count_if (listens h) (remove_first k xs) ≤ count_if (listens h) xs
unfolding remove_first
count_if-remove_first h k [] = omega arith
count_if-remove_first h k (x ∷ xs) = ground (arith, count_if-remove_first h k xs)

length-remove_first : (k : ℕ) (xs : List Entry) → length (remove_first k xs) ≤ length xs
unfolding remove_first
length-remove_first k [] = omega arith
length-remove_first k (x ∷ xs) = ground (arith, length-remove_first k xs)

count_if-unlistened :
    (h k : ℕ) (xs : List Entry)
    → (k == h) ≡ true
    → is_listening k xs ≡ false
    → count_if (listens h) xs ≡ 0
unfolding is_listening
count_if-unlistened h k [] e f = refl
count_if-unlistened h k (x ∷ xs) e f = ground (arith, e, f, count_if-unlistened h k xs)

-- A function is registered at most once, and while any is, the handler of the wrapped socket is.
abbrev pub IsListed : List Entry → Bool → Type 0
IsListed xs native = ((h : ℕ) → count_if (listens h) xs ≤ 1) × ((length xs == 0 || native) ≡ true)

abbrev pub IsWellFormed : Socket → Type 0
IsWellFormed s = IsListed s.virtual_close_listeners s.native_close_handler

add-IsWellFormed :
    (k : ℕ) (once : Bool) (s : Socket) → IsWellFormed s → IsWellFormed (add_close_listener k once s)
unfolding add_close_listener
add-IsWellFormed k once s (d, n) =
    let xs = s.virtual_close_listeners in
    let x : Entry = record { entry = s.next_entry; listener = k; once = once } in
    (
      λ h. ground (arith, d h, count_if-append (listens h) xs (x ∷ []), count_if-unlistened h k xs),
      ground (arith, n, length-append xs (x ∷ [])),
    )

remove-IsListed :
    (k : ℕ) (xs : List Entry) (native : Bool)
    → IsListed xs native
    → IsListed (remove_first k xs) native
remove-IsListed k xs native (d, n) = (
  λ h. omega (arith, d h, count_if-remove_first h k xs),
  ground (arith, n, length-remove_first k xs),
)

remove-IsWellFormed :
    (k : ℕ) (s : Socket) → IsWellFormed s → IsWellFormed (remove_close_listener k s)
unfolding remove_close_listener
remove-IsWellFormed k s w =
    let p = remove-IsListed k s.virtual_close_listeners s.native_close_handler w in
    (p.0, ground (arith, p.1))

pub IsWellFormed-IsKept : IsKept IsWellFormed
unfolding set_on_close
IsWellFormed-IsKept = record {
  by_add = add-IsWellFormed;
  by_remove = remove-IsWellFormed;
  by_set_on_close = λ handler s w. w;
  by_resolve = λ hs s w. w;
  by_flag = λ s w. w;
}

drop_called-IsWellFormed :
    (hs : List ℕ) (s : Socket) → IsWellFormed s → IsWellFormed (drop_called hs s)
unfolding drop_called
drop_called-IsWellFormed [] s w = w
drop_called-IsWellFormed (h ∷ hs) s w =
    drop_called-IsWellFormed hs
      (record s {
        close_listeners = delete_from_set h s.close_listeners;
        virtual_close_listeners = remove_first h s.virtual_close_listeners;
      })
      (remove-IsListed h s.virtual_close_listeners s.native_close_handler w)

module _ (env : Environment) where
  pub trigger_close-IsWellFormed :
      (depth : ℕ) (e : CloseEvent) (s : Socket)
      → IsWellFormed s
      → IsWellFormed (trigger_close env depth e s)
  unfolding trigger_close
  trigger_close-IsWellFormed zero e s w = w
  trigger_close-IsWellFormed (suc depth) e s w =
      let xs = s.virtual_close_listeners in
      let begun : Socket = record s { close_event_dispatched = true } in
      let p = call_entries env (trigger_close env depth) e xs begun [] in
      if_both IsWellFormed s.close_event_dispatched s (drop_called p.1 p.0) w (
        drop_called-IsWellFormed p.1 p.0 (
          call_entries-keeps IsWellFormed-IsKept env (trigger_close env depth)
            (trigger_close-IsWellFormed depth) (λ calls s w. w) e xs begun [] w))

  -- After any operations on a new wrapper, each function is registered at most once as a close
  -- listener, and while any is, the wrapper listens to the close event of the wrapped socket.
  pub run-IsWellFormed : (os : List Operation) → IsWellFormed (run env os)
  unfolding run fresh
  run-IsWellFormed os =
      perform_all-keeps IsWellFormed-IsKept env (trigger_close env 1) (trigger_close-IsWellFormed 1)
        os fresh (λ h. omega arith, refl)
