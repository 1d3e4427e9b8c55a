-- ===== src/Emitter/Removal.antt =====
-- What `off` takes away.
use perfect_ws.Base.{
  ℕ, ◌≡◌, refl, sym, ap, inl, inr, String, Bool, false, Option, none, some, Bool-cases, List, [],
  ◌∷◌, ◌++◌, ◌==◌, string_eq, nat_eq, or_default, All, beq_refl,
}
use perfect_ws.JsMap.{get}
use perfect_ws.Emitter.{
  Listener, Emitter, on, off, plain, without, with_listeners, add, remove, perform, of_event, array,
}
use perfect_ws.Emitter.Table.{changed, get-with_listeners}

abbrev pub IsAbsent : ℕ → List Listener → Type 0
IsAbsent f ls = All (λ l. (l.ref == f) ≡ false) ls

without_absent : (f : ℕ) (ls : List Listener) → IsAbsent f ls → without f ls ≡ ls
unfolding without
without_absent f [] h = refl
without_absent f (l ∷ ls) (h, hs) = rw h (ap (◌∷◌ l) (without_absent f ls hs))

without-append : (f : ℕ) (ls : List Listener) → IsAbsent f ls → without f (ls ++ plain f ∷ []) ≡ ls
unfolding without
without-append f [] h = rw (beq_refl f) refl
without-append f (l ∷ ls) (h, hs) = rw h (ap (◌∷◌ l) (without-append f ls hs))

-- Registering a function that no listener of the event is, and taking it away again, leaves the
-- listeners of every event as they were.
pub off-on :
    (inherited : String → Bool) (event other : String) (f : ℕ) (e : Emitter)
    → inherited event ≡ false
    → IsAbsent f (array inherited (of_event event) e)
    → array inherited
        (of_event other)
        (perform inherited (off event f) (perform inherited (on event f) e))
      ≡ array inherited (of_event other) e
unfolding array perform add remove changed
off-on inherited event other f e h absent =
    let push : List Listener → List Listener = λ ls. ls ++ plain f ∷ [] in
    let e' = with_listeners inherited event push (some (plain f ∷ [])) e in
    let first = get-with_listeners inherited event other push (some (plain f ∷ [])) e h in
    let own = get-with_listeners inherited event event push (some (plain f ∷ [])) e h in
    let second = get-with_listeners inherited event other (without f) none e' h in
    elim (Bool-cases (event == other)) [
      | inr apart ↦ rw (second, apart, first, apart) refl
      | inl same ↦ rw (sym ((string_eq.same_iff event other).0 same)) (
          rw
            (
              get-with_listeners inherited event event (without f) none e' h,
              beq_refl event,
              own,
              beq_refl event,
            )
            (taken (get e.listeners event) absent))
    ]
  where
    taken :
        (o : Option (List Listener))
        → IsAbsent f (or_default o [])
        → or_default
            (changed (without f) none (changed (λ ls. ls ++ plain f ∷ []) (some (plain f ∷ [])) o))
            []
          ≡ or_default o []
    taken none a = without-append f [] tt
    taken (some ls) a = without-append f ls a
