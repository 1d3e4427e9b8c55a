-- ===== src/PureRpc/Registry/Handles.antt =====
-- The two tables of the registry are one relation, read from both sides.
use perfect_ws.Base.{
  ℕ, ◌+◌, ◌≤◌, ◌≡◌, ◌≢◌, refl, inl, inr, String, false, none, some, Option-cases, Bool-cases, List,
  [], ◌∷◌, leb, ◌==◌, string_eq, nat_eq, arith,
}
use perfect_ws.JsMap.{get, set, size}
use perfect_ws.JsMap.Laws.{get-set, get-delete, size-set-le, size-delete-le}
use perfect_ws.PureRpc.Registry.{
  Registry, register, release, release_all, Op, registers, releases, releases_all, run,
}

pub record IsPaired (max_handles : ℕ) (g : Registry) : Type 0 where
  pub there : (id : String) (obj : ℕ) → get g.by_id id ≡ some obj → get g.id_by_object obj ≡ some id
  pub back : (id : String) (obj : ℕ) → get g.id_by_object obj ≡ some id → get g.by_id id ≡ some obj
  pub named : get g.by_id "" ≡ none
  pub bounded : size g.by_id ≤ max_handles

release-IsPaired : (n : ℕ) (id : String) (g : Registry) → IsPaired n g → IsPaired n (release id g)
unfolding release
release-IsPaired n id g v = elim (Option-cases (get g.by_id id)) [
  | inl e ↦ rw (e, release) v
  | inr (obj, e) ↦
      rw (e, release)
        (record {
          there = λ i o h. ground (
            arith,
            h,
            e,
            get-delete g.by_id id i,
            get-delete g.id_by_object obj o,
            v.there i o,
            v.there id obj,
            nat_eq.same_iff obj o,
            string_eq.same_iff id i,
            v.back i o,
            v.back id obj,
          );
          back = λ i o h. ground (
            arith,
            h,
            e,
            get-delete g.by_id id i,
            get-delete g.id_by_object obj o,
            v.back i o,
            v.there id obj,
            nat_eq.same_iff obj o,
            string_eq.same_iff id i,
          );
          named = ground (arith, v.named, get-delete g.by_id id "");
          bounded = omega (arith, v.bounded, size-delete-le g.by_id id);
        })
]

enter-IsPaired :
    (n : ℕ) (new_id : String) (obj : ℕ) (g : Registry)
    → get g.by_id new_id ≡ none
    → new_id ≢ ""
    → get g.id_by_object obj ≡ none
    → leb n (size g.by_id) ≡ false
    → IsPaired n g
    → IsPaired n
        (record { by_id = set g.by_id new_id obj; id_by_object = set g.id_by_object obj new_id })
enter-IsPaired n new_id obj g fresh name absent room v = record {
  there = λ i o h. ground (
    arith,
    h,
    fresh,
    absent,
    get-set g.by_id new_id i obj,
    get-set g.id_by_object obj o new_id,
    v.there i o,
    nat_eq.same_iff obj o,
    string_eq.same_iff new_id i,
  );
  back = λ i o h. ground (
    arith,
    h,
    fresh,
    absent,
    get-set g.by_id new_id i obj,
    get-set g.id_by_object obj o new_id,
    v.back i o,
    nat_eq.same_iff obj o,
    string_eq.same_iff new_id i,
  );
  named =
      ground (arith, v.named, name, get-set g.by_id new_id "" obj, string_eq.same_iff new_id "");
  bounded = ground (arith, v.bounded, room, size-set-le g.by_id new_id obj);
}

register-IsPaired :
    (n : ℕ) (new_id : String) (obj : ℕ) (g : Registry)
    → get g.by_id new_id ≡ none
    → new_id ≢ ""
    → IsPaired n g
    → IsPaired n (register n new_id obj g).1
unfolding register
register-IsPaired n new_id obj g fresh name v = elim (Option-cases (get g.id_by_object obj)) [
  | inl e ↦ elim (Bool-cases (leb n (size g.by_id))) [
    | inl full ↦ rw (e, register, full) v
    | inr room ↦ rw (e, register, room) (enter-IsPaired n new_id obj g fresh name e room v)
  ]
  | inr (id, e) ↦ elim (Bool-cases (id == "")) [
    | inl q ↦ absurd (ground (arith, q, e, v.back id obj, v.named, string_eq.same_iff id ""))
    | inr q ↦ rw (e, register, q) v
  ]
]

empty-IsPaired : (n : ℕ) → IsPaired n (record { by_id = []; id_by_object = [] })
unfolding get
empty-IsPaired n = record {
  there = λ i o h. cc h;
  back = λ i o h. cc h;
  named = refl;
  bounded = omega arith;
}

cleared-IsPaired : (n : ℕ) (g : Registry) → IsPaired n (release_all g)
unfolding release_all
cleared-IsPaired n g = empty-IsPaired n

cleared-get : (g : Registry) (id : String) → get (release_all g).by_id id ≡ none
unfolding release_all get
cleared-get g id = refl

-- The ids that are still to come are not in use.
abbrev AreUnused : (ℕ → String) → ℕ → Registry → Type 0
AreUnused ids k g = (m : ℕ) → k ≤ m → get g.by_id (ids m) ≡ none

register-unused :
    (n : ℕ) (ids : ℕ → String) (k obj : ℕ) (g : Registry)
    → ((a b : ℕ) → ids a ≡ ids b → a ≡ b)
    → AreUnused ids k g
    → AreUnused ids (k + 1) (register n (ids k) obj g).1
unfolding register
register-unused n ids k obj g distinct u m h = ground (
  arith,
  u m (omega (arith, h)),
  h,
  get-set g.by_id (ids k) (ids m) obj,
  string_eq.same_iff (ids k) (ids m),
  distinct k m,
)

release-unused :
    (ids : ℕ → String) (k : ℕ) (id : String) (g : Registry)
    → AreUnused ids k g
    → AreUnused ids k (release id g)
unfolding release
release-unused ids k id g u m h = ground (arith, u m h, get-delete g.by_id id (ids m))

run-IsPaired_of :
    (n : ℕ) (ids : ℕ → String) (k : ℕ) (ops : List Op) (g : Registry)
    → ((a b : ℕ) → ids a ≡ ids b → a ≡ b)
    → ((a : ℕ) → ids a ≢ "")
    → AreUnused ids k g
    → IsPaired n g
    → IsPaired n (run n ids k ops g)
unfolding run
run-IsPaired_of n ids k [] g distinct named u v = v
run-IsPaired_of n ids k (registers obj ∷ ops) g distinct named u v =
    run-IsPaired_of n ids (k + 1) ops (register n (ids k) obj g).1 distinct named
      (register-unused n ids k obj g distinct u)
      (register-IsPaired n (ids k) obj g (u k (omega arith)) (named k) v)
run-IsPaired_of n ids k (releases id ∷ ops) g distinct named u v =
    run-IsPaired_of n ids k ops (release id g) distinct named (release-unused ids k id g u)
      (release-IsPaired n id g v)
run-IsPaired_of n ids k (releases_all ∷ ops) g distinct named u v =
    run-IsPaired_of n ids k ops (release_all g) distinct named (λ m h. cleared-get g (ids m))
      (cleared-IsPaired n g)

-- If `randomUUID` gives texts that are not empty and never twice the same, then whatever is
-- registered and released, an object has an id exactly if the id has that object, and there are
-- at most `maxHandles` of them.
pub registry-IsPaired :
    (n : ℕ) (ids : ℕ → String) (ops : List Op)
    → ((a b : ℕ) → ids a ≡ ids b → a ≡ b)
    → ((a : ℕ) → ids a ≢ "")
    → IsPaired n (run n ids 0 ops (record { by_id = []; id_by_object = [] }))
registry-IsPaired n ids ops distinct named =
    run-IsPaired_of n ids 0 ops (record { by_id = []; id_by_object = [] }) distinct named
      (λ m h. unfold get in refl) (empty-IsPaired n)
