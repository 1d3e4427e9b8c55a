-- ===== src/Emitter/Tests.antt =====
-- Emissions whose listeners register and remove others on the way.
use perfect_ws.Base.{
  ℕ, ◌≡◌, refl, String, Bool, true, false, ◌||◌, List, [], ◌∷◌, ◌++◌, map, if◌then◌else◌, ◌==◌,
  nat_beq, string_eq, nat_eq, All, Bool-cases, inl, inr,
}
use perfect_ws.JsMap.{get, set, delete}
use perfect_ws.Emitter.{
  Emitter, Action, on, once, off, on_any, prepend_listener, plain, wrapper, without, remove_all,
  with_listeners, add, prepend, remove, perform, of_event, array, replaces, walked, act, act_all,
  call, visit, for_each, walk, dispatch,
}
use perfect_ws.Emitter.Growth.{IsTame}
use perfect_ws.Emitter.Order.{dispatch-called}

inherited : String → Bool
inherited name = name == "constructor" || name == "toString"

-- Listener 1 registers 9 for the event and removes 2; listener 3 registers 8 for any event.
does : ℕ → List Action
does f =
    if nat_beq f 1 then on "e" 9 ∷ off "e" 2 ∷ [] else if nat_beq f 3 then on_any 8 ∷ [] else []

computing : Unit {0}
unfolding get set delete wrapper without remove_all with_listeners add prepend remove perform array
    replaces walked act act_all call visit for_each walk dispatch inherited does
computing = tt

abbrev empty : Emitter
empty = record { listeners = []; any_listeners = []; next_ref = 100; threw = false }

registered : Emitter
unfolding perform add with_listeners wrapper get set inherited
registered = perform inherited (once "e" 3) (
    perform inherited (on "e" 2)
      (perform inherited (on "e" 1) (perform inherited (on_any 7) empty)))

-- The first emission calls 1, 2, 3, then 7 and 8; the second calls 1, 9, 7 and 8.
two_emissions :
    ((dispatch inherited does "e" registered).1 ≡ 1 ∷ 2 ∷ 3 ∷ 7 ∷ 8 ∷ [])
    × ((dispatch inherited does "e" (dispatch inherited does "e" registered).0).1
        ≡ 1 ∷ 9 ∷ 7 ∷ 8 ∷ [])
unfolding computing registered
two_emissions = (refl, refl)

-- A listener that puts another before the event's own is called again.
called_again :
    (dispatch inherited
      (λ f. if nat_beq f 1 then prepend_listener "e" 5 ∷ [] else [])
      "e"
      (perform inherited (on "e" 2) (perform inherited (on "e" 1) empty))).1
    ≡ 1 ∷ 1 ∷ []
unfolding computing
called_again = refl

-- An event under a name that objects inherit throws.
inherited_throws :
    ((dispatch inherited does "toString" registered).0.threw ≡ true)
    × ((perform inherited (on "constructor" 1) empty).threw ≡ true)
unfolding computing registered
inherited_throws = (refl, refl)

does-IsTame : (f : ℕ) → All (IsTame inherited "e") (does f)
unfolding does inherited
does-IsTame f = elim (Bool-cases (nat_beq f 1)) [
  | inl e ↦ rw e (refl, (refl, tt))
  | inr e ↦ elim (Bool-cases (nat_beq f 3)) [ inl g ↦ rw (e, g) (tt, tt) | inr g ↦ rw (e, g) tt ]
]

dispatch-called_example :
    (dispatch inherited does "e" registered).1
    ≡ map (λ l. l.calls) (array inherited (of_event "e") registered)
      ++ map
          (λ l. l.calls)
          (walk inherited does (of_event "e") "e" registered []).emitter.any_listeners
unfolding computing registered
dispatch-called_example =
    dispatch-called inherited does "e" registered
      (plain 1 ∷ plain 2 ∷ record { ref = 100; calls = 3; is_once = true } ∷ []) refl does-IsTame
      refl refl
