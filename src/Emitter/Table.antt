-- ===== src/Emitter/Table.antt =====
-- What the operations do to the table of listeners.
use perfect_ws.Base.{
  ◌≡◌, inl, inr, String, Bool, false, Option, none, some, Option-cases, List, if◌then◌else◌, ◌==◌,
  string_eq, nat_eq, arith,
}
use perfect_ws.JsMap.{get}
use perfect_ws.JsMap.Laws.{get-set}
use perfect_ws.Emitter.{Listener, Emitter, with_listeners}

unfoldable pub changed :
    (List Listener → List Listener)
    → Option (List Listener)
    → Option (List Listener)
    → Option (List Listener)
changed change start none = start
changed change start (some ls) = some (change ls)

module _ (inherited : String → Bool) where
  pub get-with_listeners :
      (other event : String) (change : List Listener → List Listener)
      (start : Option (List Listener)) (e : Emitter)
      → inherited other ≡ false
      → get (with_listeners inherited other change start e).listeners event ≡ (
          if other == event
          then changed change start (get e.listeners other)
          else get e.listeners event)
  unfolding with_listeners changed
  get-with_listeners other event change none e h = elim (Option-cases (get e.listeners other)) [
    | inl g ↦ rw (g, with_listeners, h) (ground (arith, g, string_eq.same_iff other event))
    | inr (ls, g) ↦ rw (g, with_listeners) (get-set e.listeners other event (change ls))
  ]
  get-with_listeners other event change (some new) e h =
      elim (Option-cases (get e.listeners other)) [
        | inl g ↦ rw (g, with_listeners, h) (get-set e.listeners other event new)
        | inr (ls, g) ↦ rw (g, with_listeners) (get-set e.listeners other event (change ls))
      ]

  pub with_listeners-threw :
      (other : String) (change : List Listener → List Listener) (start : Option (List Listener))
      (e : Emitter)
      → inherited other ≡ false
      → (with_listeners inherited other change start e).threw ≡ e.threw
  unfolding with_listeners
  with_listeners-threw other change start e h = ground arith

  pub with_listeners-any_listeners :
      (other : String) (change : List Listener → List Listener) (start : Option (List Listener))
      (e : Emitter)
      → (with_listeners inherited other change start e).any_listeners ≡ e.any_listeners
  unfolding with_listeners
  with_listeners-any_listeners other change start e = ground arith
