-- ===== src/Emitter/Order.antt =====
-- Which listeners an emission calls, and in what order.
use perfect_ws.Base.{
  ℕ, suc, zero, ◌+◌, ◌<◌, ◌≡◌, refl, sym, ap, ◌∙◌, inl, inr, String, Bool, false, Option, none,
  some, Bool-cases, List, [], ◌∷◌, ◌++◌, map, string_eq, nat_eq, length, or_default, get_elem?,
  IsPrefix, IsPrefix-refl, get_elem?-IsPrefix, All, arith,
}
use mathlib.Core.List.{append_assoc, append-nil}
use perfect_ws.JsMap.{get}
use perfect_ws.Emitter.{
  Listener, Emitter, Action, off, perform, Walked, of_event, of_any, array, replaces, Turn, walked,
  act, act_all, call, visit, for_each, walk, dispatch,
}
use perfect_ws.Emitter.Growth.{
  IsTame, Grows, perform-threw, perform-Grows, perform-Grows_any, IsPrefix-trans,
}

-- The listeners from an index on.
from : ℕ → List Listener → List Listener
from zero ls = ls
from (suc k) [] = []
from (suc k) (l ∷ ls) = from k ls

from-end : (ls : List Listener) (k : ℕ) → k ≡ length ls → from k ls ≡ []
unfolding from
from-end [] zero e = refl
from-end (l ∷ ls) zero e = absurd (omega (arith, e))
from-end [] (suc k) e = refl
from-end (l ∷ ls) (suc k) e = from-end ls k (omega (arith, e))

from-next :
    (ls : List Listener) (k : ℕ)
    → k < length ls
    → (l : Listener) × (get_elem? ls k ≡ some l) × (from k ls ≡ l ∷ from (k + 1) ls)
unfolding from
from-next [] k h = absurd (omega (arith, h))
from-next (l ∷ ls) zero h = (l, refl, refl)
from-next (l ∷ ls) (suc k) h =
    let (m, there, splits) = from-next ls k (omega (arith, h)) in
    (m, there, splits ∙ ap (λ n. m ∷ from n (l ∷ ls)) {x = suc (k + 1)} (omega arith))

module _ (inherited : String → Bool) where
  -- An emission that walks an array which what its listeners do leaves growing.
  module _ (w : Walked inherited) (event : String)
      (grows : (a : Action) (e : Emitter)
        → IsTame inherited event a
        → replaces inherited w a ≡ false
        → e.threw ≡ false
        → Grows inherited w e (perform inherited a e)) where
    -- The walked array begins with the given listeners, and nothing was thrown.
    record Keeps (start : List Listener) (t : Turn inherited) : Type 0 where
      calm : t.emitter.threw ≡ false
      begins : IsPrefix start (walked inherited w t)

    act-Keeps :
        (start : List Listener) (a : Action) (t : Turn inherited)
        → IsTame inherited event a
        → Keeps start t
        → Keeps start (act inherited w a t)
    unfolding act walked
    act-Keeps start a t h k = elim (Bool-cases (replaces inherited w a)) [
      | inl r ↦
          simp (k.calm, r)
            (record {
              calm = perform-threw inherited event a t.emitter h ∙ k.calm;
              begins = k.begins;
            })
      | inr r ↦
          let g = grows a t.emitter h r k.calm in
          simp (k.calm, r) (record { calm = g.calm; begins = grown t.left k.begins g.begins })
    ]
      where
        grown :
            (o : Option (List Listener))
            → IsPrefix start (or_default o (array inherited w t.emitter))
            → IsPrefix
                (array inherited w t.emitter)
                (array inherited w (perform inherited a t.emitter))
            → IsPrefix start (or_default o (array inherited w (perform inherited a t.emitter)))
        grown none b g = IsPrefix-trans inherited start _ _ b g
        grown (some ls) b g = b

    act-called :
        (w : Walked inherited) (a : Action) (t : Turn inherited)
        → (act inherited w a t).called ≡ t.called
    unfolding act
    act-called w a t = ground arith

    act_all-Keeps :
        (start : List Listener) (as' : List Action) (t : Turn inherited)
        → All (IsTame inherited event) as'
        → Keeps start t
        → Keeps start (act_all inherited w as' t) × ((act_all inherited w as' t).called ≡ t.called)
    unfolding act_all
    act_all-Keeps start [] t h k = (k, refl)
    act_all-Keeps start (a ∷ as') t (h, hs) k =
        let (keeps, same) =
          act_all-Keeps start as' (act inherited w a t) hs (act-Keeps start a t h k) in
        (keeps, same ∙ act-called w a t)

    module _ (does : ℕ → List Action) where
      visit-Keeps :
          (start : List Listener) (l : Listener) (t : Turn inherited)
          → inherited event ≡ false
          → ((f : ℕ) → All (IsTame inherited event) (does f))
          → Keeps start t
          → Keeps start (visit inherited does w event (some l) t)
            × ((visit inherited does w event (some l) t).called ≡ t.called ++ l.calls ∷ [])
      unfolding visit call walked
      visit-Keeps start l t own tame k = elim (Bool-cases l.is_once) [
        | inl o ↦
            let ready = act inherited w (off event l.ref) t in
            let k' = act-Keeps start (off event l.ref) t own k in
            let done =
              act_all-Keeps start (does l.calls)
                (record ready { called = ready.called ++ l.calls ∷ [] }) (tame l.calls)
                (record { calm = k'.calm; begins = k'.begins }) in
            simp (o, k'.calm)
              (done.0, done.1 ∙ ap (λ c. c ++ l.calls ∷ []) (act-called w (off event l.ref) t))
        | inr o ↦
            simp (o, k.calm)
              (act_all-Keeps start (does l.calls) (record t { called = t.called ++ l.calls ∷ [] })
                (tame l.calls) (record { calm = k.calm; begins = k.begins }))
      ]

      for_each-Keeps :
          (start : List Listener) (n k : ℕ) (t : Turn inherited)
          → inherited event ≡ false
          → ((f : ℕ) → All (IsTame inherited event) (does f))
          → n + k ≡ length start
          → Keeps start t
          → Keeps start (for_each inherited does w event n k t)
            × ((for_each inherited does w event n k t).called
                ≡ t.called ++ map (λ l. l.calls) (from k start))
      unfolding for_each
      for_each-Keeps start zero k t own tame e h = (
        h,
        sym (append-nil t.called)
            ∙ ap (λ ls. t.called ++ map (λ l. l.calls) ls)
                (sym (from-end start k (omega (arith, e)))),
      )
      for_each-Keeps start (suc n) k t own tame e h =
          let (l, there, splits) = from-next start k (omega (arith, e)) in
          let found =
            get_elem?-IsPrefix start (walked inherited w t) k h.begins (omega (arith, e)) ∙ there in
          let (keeps, once_more) = visit-Keeps start l t own tame h in
          let rest =
            for_each-Keeps start n (k + 1) (visit inherited does w event (some l) t) own tame
              (omega (arith, e)) keeps in
          simp found (
            rest.0,
            rest.1
                ∙ ap (λ c. c ++ map (λ m. m.calls) (from (k + 1) start)) once_more
                ∙ append_assoc t.called (l.calls ∷ []) (map (λ m. m.calls) (from (k + 1) start))
                ∙ ap (λ ls. t.called ++ map (λ m. m.calls) ls) (sym splits),
          )

      walk-called :
          (e : Emitter) (called : List ℕ)
          → inherited event ≡ false
          → ((f : ℕ) → All (IsTame inherited event) (does f))
          → e.threw ≡ false
          → ((walk inherited does w event e called).emitter.threw ≡ false)
            × ((walk inherited does w event e called).called
                ≡ called ++ map (λ l. l.calls) (array inherited w e))
      unfolding walk from walked
      walk-called e called own tame calm =
          let start = array inherited w e in
          let (keeps, calls) =
            for_each-Keeps start (length start) 0
              (record { emitter = e; left = none; called = called }) own tame (omega arith)
              (record { calm = calm; begins = IsPrefix-refl start }) in
          (keeps.calm, calls)

  -- Where the listeners of an event put none before it and name nothing that objects inherit, an
  -- emission calls the listeners that the event has when it starts, each once and in their order,
  -- whatever they add and remove on the way; then in the same way those that listen to any event
  -- after these calls.
  pub dispatch-called :
      (does : ℕ → List Action) (event : String) (e : Emitter) (ls : List Listener)
      → inherited event ≡ false
      → ((f : ℕ) → All (IsTame inherited event) (does f))
      → e.threw ≡ false
      → get e.listeners event ≡ some ls
      → (dispatch inherited does event e).1
        ≡ map (λ l. l.calls) ls
          ++ map
              (λ l. l.calls)
              (walk inherited does (of_event event) event e []).emitter.any_listeners
  unfolding dispatch array
  dispatch-called does event e ls own tame calm h =
      let (calm', first) =
        walk-called (of_event event) event (perform-Grows inherited event) does e [] own tame
          calm in
      let t = walk inherited does (of_event event) event e [] in
      let (_, second) =
        walk-called of_any event (perform-Grows_any inherited event) does t.emitter t.called own
          tame calm' in
      simp (h, calm')
        (second ∙ ap (λ c. c ++ map (λ l. l.calls) t.emitter.any_listeners) (first ∙ rw h refl))
