-- ===== src/Emitter/Growth.antt =====
-- What stands in the array that an emission walks stays in its place.
use perfect_ws.Base.{
  ◌+◌, ◌≡◌, refl, sym, subst, ◌∙◌, inl, inr, String, Bool, false, Option, none, some, Bool-cases,
  List, [], ◌∷◌, ◌++◌, ◌==◌, string_eq, nat_eq, or_default, IsPrefix, IsPrefix-refl,
  IsPrefix-append, arith,
}
use perfect_ws.JsMap.{get}
use perfect_ws.JsMap.Laws.{get-delete}
use perfect_ws.Emitter.{
  Listener, Emitter, Action, on, once, prepend_listener, prepend_once_listener, off, on_any,
  off_any, remove_all_listeners, plain, wrapper, without, remove_all, with_listeners, add, prepend,
  remove, perform, Walked, of_event, of_any, array, replaces,
}
use perfect_ws.Emitter.Table.{
  changed, get-with_listeners, with_listeners-threw, with_listeners-any_listeners,
}

-- The action puts no listener before those of the event, and names nothing that objects inherit.
abbrev pub IsTame : (String → Bool) → String → Action → Type 0
IsTame inherited event (on other f) = inherited other ≡ false
IsTame inherited event (once other f) = inherited other ≡ false
IsTame inherited event (prepend_listener other f) =
    (inherited other ≡ false) × ((other == event) ≡ false)
IsTame inherited event (prepend_once_listener other f) =
    (inherited other ≡ false) × ((other == event) ≡ false)
IsTame inherited event (off other f) = inherited other ≡ false
IsTame inherited event _ = Unit

module _ (inherited : String → Bool) where
  -- What an emission may rely on while it walks an array: what stands there stays in its place.
  pub record Grows (w : Walked inherited) (e e' : Emitter) : Type 0 where
    pub calm : e'.threw ≡ false
    pub begins : IsPrefix (array inherited w e) (array inherited w e')

  pub add-Grows :
      (event other : String) (l : Listener) (e : Emitter)
      → inherited other ≡ false
      → e.threw ≡ false
      → Grows (of_event event) e (add inherited other l e)
  unfolding array add changed
  add-Grows event other l e h calm = record {
    calm = with_listeners-threw inherited other (λ ls. ls ++ l ∷ []) (some (l ∷ [])) e h ∙ calm;
    begins =
        let after =
          get-with_listeners inherited other event (λ ls. ls ++ l ∷ []) (some (l ∷ [])) e h in
        elim (Bool-cases (other == event)) [
          | inr apart ↦ rw (after, apart) (IsPrefix-refl (or_default (get e.listeners event) []))
          | inl same ↦
              subst
                (λ x. IsPrefix (or_default (get e.listeners x) []) (
                  or_default
                    (get
                      (with_listeners inherited other (λ ls. ls ++ l ∷ []) (some (l ∷ []))
                        e).listeners
                      event)
                    []))
                ((string_eq.same_iff other event).0 same)
                (rw (after, same) (grown (get e.listeners other)))
        ];
  }
    where
      grown :
          (o : Option (List Listener))
          → IsPrefix
              (or_default o [])
              (or_default (changed (λ ls. ls ++ l ∷ []) (some (l ∷ [])) o) [])
      grown none = tt
      grown (some ls) = IsPrefix-append ls ls (l ∷ []) (IsPrefix-refl ls)

  pub same-Grows :
      (w : Walked inherited) (e e' : Emitter)
      → e'.threw ≡ false
      → array inherited w e' ≡ array inherited w e
      → Grows w e e'
  same-Grows w e e' calm h = record {
    calm = calm;
    begins = subst (IsPrefix (array inherited w e)) (sym h) (IsPrefix-refl (array inherited w e));
  }

  pub apart-Grows :
      (event other : String) (change : List Listener → List Listener)
      (start : Option (List Listener)) (e : Emitter)
      → inherited other ≡ false
      → (other == event) ≡ false
      → e.threw ≡ false
      → Grows (of_event event) e (with_listeners inherited other change start e)
  apart-Grows event other change start e h apart calm =
      same-Grows (of_event event) e (with_listeners inherited other change start e)
        (with_listeners-threw inherited other change start e h ∙ calm)
        (unfold array in rw (get-with_listeners inherited other event change start e h, apart) refl)

  pub perform-Grows :
      (event : String) (a : Action) (e : Emitter)
      → IsTame inherited event a
      → replaces inherited (of_event event) a ≡ false
      → e.threw ≡ false
      → Grows (of_event event) e (perform inherited a e)
  unfolding perform replaces array
  perform-Grows event (on other f) e h r c = add-Grows event other (plain f) e h c
  perform-Grows event (once other f) e h r c =
      let g = add-Grows event other (wrapper e f) (record e { next_ref = e.next_ref + 1 }) h c in
      record { calm = g.calm; begins = g.begins }
  perform-Grows event (prepend_listener other f) e (h, apart) r c =
      apart-Grows event other (λ ls. plain f ∷ ls) (some (plain f ∷ [])) e h apart c
  perform-Grows event (prepend_once_listener other f) e (h, apart) r c =
      let e' = record e { next_ref = e.next_ref + 1 } in
      let g =
        apart-Grows event other (λ ls. wrapper e f ∷ ls) (some (wrapper e f ∷ [])) e' h apart c in
      record { calm = g.calm; begins = g.begins }
  perform-Grows event (off other f) e h r c = apart-Grows event other (without f) none e h r c
  perform-Grows event (on_any f) e h r c = same-Grows (of_event event) e _ c refl
  perform-Grows event (off_any f) e h r c = same-Grows (of_event event) e _ c refl
  perform-Grows event (remove_all_listeners none) e h r c = absurd (ground arith)
  perform-Grows event (remove_all_listeners (some other)) e h r c =
      let d = get-delete e.listeners other event in
      same-Grows (of_event event) e (remove_all (some other) e)
        (unfold remove_all in ground (arith, c)) (unfold remove_all in ground (arith, r, d))

  pub IsPrefix-trans : (xs ys zs : List Listener) → IsPrefix xs ys → IsPrefix ys zs → IsPrefix xs zs
  IsPrefix-trans [] ys zs h k = tt
  IsPrefix-trans (x ∷ xs) [] zs h k = cc h
  IsPrefix-trans (x ∷ xs) (y ∷ ys) [] h k = cc k
  IsPrefix-trans (x ∷ xs) (y ∷ ys) (z ∷ zs) (e, h) (f, k) = (e ∙ f, IsPrefix-trans xs ys zs h k)

  pub perform-threw :
      (event : String) (a : Action) (e : Emitter)
      → IsTame inherited event a
      → (perform inherited a e).threw ≡ e.threw
  unfolding perform add prepend remove remove_all with_listeners
  perform-threw event (on other f) e h = ground arith
  perform-threw event (once other f) e h = ground arith
  perform-threw event (prepend_listener other f) e h = ground arith
  perform-threw event (prepend_once_listener other f) e h = ground arith
  perform-threw event (off other f) e h = ground arith
  perform-threw event (on_any f) e h = refl
  perform-threw event (off_any f) e h = refl
  perform-threw event (remove_all_listeners none) e h = refl
  perform-threw event (remove_all_listeners (some other)) e h = ground arith

  pub unchanged :
      (event : String) (a : Action) (e : Emitter)
      → IsTame inherited event a
      → e.threw ≡ false
      → (perform inherited a e).any_listeners ≡ e.any_listeners
      → Grows of_any e (perform inherited a e)
  unchanged event a e h c same =
      same-Grows of_any e (perform inherited a e) (perform-threw event a e h ∙ c)
        (unfold array in same)

  pub perform-Grows_any :
      (event : String) (a : Action) (e : Emitter)
      → IsTame inherited event a
      → replaces inherited of_any a ≡ false
      → e.threw ≡ false
      → Grows of_any e (perform inherited a e)
  unfolding perform replaces array add prepend remove
  perform-Grows_any event (on_any f) e h r c = record {
    calm = c;
    begins =
        IsPrefix-append e.any_listeners e.any_listeners (plain f ∷ [])
          (IsPrefix-refl e.any_listeners);
  }
  perform-Grows_any event (on other f) e h r c = unchanged event (on other f) e h c (
      with_listeners-any_listeners inherited other (λ ls. ls ++ plain f ∷ []) (some (plain f ∷ []))
        e)
  perform-Grows_any event (once other f) e h r c = unchanged event (once other f) e h c (
      with_listeners-any_listeners inherited other (λ ls. ls ++ wrapper e f ∷ [])
        (some (wrapper e f ∷ [])) (record e { next_ref = e.next_ref + 1 }))
  perform-Grows_any event (prepend_listener other f) e h r c =
      unchanged event (prepend_listener other f) e h c
        (with_listeners-any_listeners inherited other (λ ls. plain f ∷ ls) (some (plain f ∷ [])) e)
  perform-Grows_any event (prepend_once_listener other f) e h r c =
      unchanged event (prepend_once_listener other f) e h c (
        with_listeners-any_listeners inherited other (λ ls. wrapper e f ∷ ls)
          (some (wrapper e f ∷ [])) (record e { next_ref = e.next_ref + 1 }))
  perform-Grows_any event (off other f) e h r c =
      unchanged event (off other f) e h c
        (with_listeners-any_listeners inherited other (without f) none e)
  perform-Grows_any event (off_any f) e h r c = cc r
  perform-Grows_any event (remove_all_listeners none) e h r c = cc r
  perform-Grows_any event (remove_all_listeners (some other)) e h r c =
      unchanged event (remove_all_listeners (some other)) e h c
        (unfold remove_all in ground (arith, r))
