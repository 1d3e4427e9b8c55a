-- ===== src/Emitter.antt =====
-- `EventEmitter` of src/utils/EventEmitter.ts. A function is known by a number. The table of
-- listeners is a plain object, so that a name which objects inherit (`inherited`) finds something
-- that is no array, and what is then called on it throws; the arguments of an event are left out.
pub mod Table
pub mod Growth
pub mod Order
pub mod Removal
mod Tests
use perfect_ws.Base.{
  ℕ, suc, zero, ◌+◌, String, Bool, true, false, not, ◌&&◌, ◌||◌, Option, none, some, List, [], ◌∷◌,
  ◌++◌, if◌then◌else◌, ◌==◌, string_eq, nat_eq, keep_if, length, or_default, is_some, get_elem?,
}
use perfect_ws.JsMap.{JsMap, get, set, delete}

-- A registered function, and the listener that it calls in the end: itself, or for a wrapper of
-- `once` the one that was given.
pub record Listener : Type 0 where
  pub ref : ℕ
  pub calls : ℕ
  pub is_once : Bool

pub record Emitter : Type 0 where
  pub listeners : JsMap String (List Listener)
  pub any_listeners : List Listener
  -- the wrapper that `once` makes next
  pub next_ref : ℕ
  -- a TypeError was thrown
  pub threw : Bool

pub data Action : Type 0 where
  on once prepend_listener prepend_once_listener off : String → ℕ → Action
  on_any off_any : ℕ → Action
  remove_all_listeners : Option String → Action

abbrev pub plain : ℕ → Listener
plain f = record { ref = f; calls = f; is_once = false }

pub wrapper : Emitter → ℕ → Listener
wrapper e f = record { ref = e.next_ref; calls = f; is_once = true }

pub without : ℕ → List Listener → List Listener
without ref ls = keep_if (λ l. not (l.ref == ref)) ls

pub remove_all : Option String → Emitter → Emitter
remove_all none e = record e { listeners = []; any_listeners = [] }
remove_all (some event) e =
    if event == ""
    then record e { listeners = []; any_listeners = [] }
    else record e { listeners = delete e.listeners event }

module _ (inherited : String → Bool) where
  -- `this._listeners[event]` changed by a method of arrays, or made by `start` where it is not.
  pub with_listeners :
      String → (List Listener → List Listener) → Option (List Listener) → Emitter → Emitter
  with_listeners event change start e = elim (get e.listeners event) [
    | some ls ↦ record e { listeners = set e.listeners event (change ls) }
    | none ↦
        if inherited event
        then record e { threw = true }
        else elim start [ none ↦ e | some ls ↦ record e { listeners = set e.listeners event ls } ]
  ]

  pub add : String → Listener → Emitter → Emitter
  unfolding with_listeners
  add event l e = with_listeners event (λ ls. ls ++ l ∷ []) (some (l ∷ [])) e

  pub prepend : String → Listener → Emitter → Emitter
  unfolding with_listeners
  prepend event l e = with_listeners event (λ ls. l ∷ ls) (some (l ∷ [])) e

  pub remove : String → ℕ → Emitter → Emitter
  unfolding with_listeners without
  remove event ref e = with_listeners event (without ref) none e

  pub perform : Action → Emitter → Emitter
  unfolding add prepend remove wrapper without
  perform (on event f) e = add event (plain f) e
  perform (once event f) e = add event (wrapper e f) (record e { next_ref = e.next_ref + 1 })
  perform (prepend_listener event f) e = prepend event (plain f) e
  perform (prepend_once_listener event f) e =
      prepend event (wrapper e f) (record e { next_ref = e.next_ref + 1 })
  perform (off event f) e = remove event f e
  perform (on_any f) e = record e { any_listeners = e.any_listeners ++ plain f ∷ [] }
  perform (off_any f) e = record e { any_listeners = without f e.any_listeners }
  perform (remove_all_listeners event) e = remove_all event e

  -- The array that an emission walks: that of an event, or that of the listeners for any event.
  pub data Walked : Type 0 where
    of_event : String → Walked
    of_any : Walked

  pub array : Walked → Emitter → List Listener
  array (of_event event) e = or_default (get e.listeners event) []
  array of_any e = e.any_listeners

  -- Whether an action puts another array in the place of the walked one, which is left as it is.
  pub replaces : Walked → Action → Bool
  replaces (of_event event) (off other f) = other == event
  replaces of_any (off_any f) = true
  replaces w (remove_all_listeners none) = true
  replaces (of_event event) (remove_all_listeners (some other)) = other == event || other == ""
  replaces of_any (remove_all_listeners (some other)) = other == ""
  replaces w _ = false

  -- An emission on its way: `left` is the walked array once it is no more the emitter's.
  pub record Turn : Type 0 where
    pub emitter : Emitter
    pub left : Option (List Listener)
    pub called : List ℕ

  pub walked : Walked → Turn → List Listener
  walked w t = or_default t.left (array w t.emitter)

  -- One thing that a listener does; nothing after something has been thrown.
  pub act : Walked → Action → Turn → Turn
  act w a t = if t.emitter.threw then t else record t {
    emitter = perform a t.emitter;
    left = if replaces w a then some (walked w t) else t.left;
  }

  pub act_all : Walked → List Action → Turn → Turn
  act_all w [] t = t
  act_all w (a ∷ as') t = act_all w as' (act w a t)

  module _ (does : ℕ → List Action) where
    pub call : Walked → ℕ → Turn → Turn
    call w f t =
        if t.emitter.threw then t else act_all w (does f) (record t { called = t.called ++ f ∷ [] })

    -- The call of what stands at an index; a wrapper removes itself first.
    pub visit : Walked → String → Option Listener → Turn → Turn
    visit w event none t = t
    visit w event (some l) t = call w l.calls (if l.is_once then act w (off event l.ref) t else t)

    -- `forEach`: the length is read once, the array at every index.
    pub for_each : Walked → String → (remaining index : ℕ) → Turn → Turn
    for_each w event zero k t = t
    for_each w event (suc n) k t =
        for_each w event n (k + 1) (visit w event (get_elem? (walked w t) k) t)

    pub walk : Walked → String → Emitter → List ℕ → Turn
    walk w event e called =
        for_each w event (length (array w e)) 0
          (record { emitter = e; left = none; called = called })

    -- `dispatch`: the emitter after it, and the listeners called, in order.
    pub dispatch : String → Emitter → Emitter × List ℕ
    dispatch event e =
        let own = elim (get e.listeners event) as (λ _. Turn) [
          | some ls ↦ walk (of_event event) event e []
          | none ↦ record {
            emitter = if inherited event then record e { threw = true } else e;
            left = none;
            called = [];
          }
        ] in
        if own.emitter.threw
        then (own.emitter, own.called)
        else let all = walk of_any event own.emitter own.called in (all.emitter, all.called)
