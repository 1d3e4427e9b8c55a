-- ===== src/PureRpc/Registry/Tests.antt =====
-- A registered object of a class, and paths into it.
use perfect_ws.Base.{
  ℕ, zero, suc, ◌≡◌, ◌≢◌, refl, ap, sym, ◌∙◌, String, Bool, false, ◌&&◌, ◌||◌, none, some, List, [],
  ◌∷◌, arith, nat_beq, if◌then◌else◌, string_eq, nat_eq,
}
use perfect_ws.JsMap.{get, set, delete}
use perfect_ws.PropertyPath.{Key, name, is_forbidden_property_key, contains_text, text_beq}
use perfect_ws.PureRpc.Registry.{
  Registry, register, release, release_all, Op, registers, releases, run, object, primitive,
  Objects, is_builtin, owner_from, owner_of, follow, resolve,
}
use perfect_ws.PureRpc.Registry.Handles.{IsPaired, registry-IsPaired}
use perfect_ws.PureRpc.Registry.Resolution.{Reads, resolve-Reads}

-- Object 1 owns the property 5, which is the object 2; its class's prototype 3 has the method 6;
-- 8 and 9 are the prototypes of objects and functions, and 8 has the method 7.
letter : ℕ → Key
letter n = name (n ∷ [])

is_letter : Key → ℕ → Bool
is_letter (name (c ∷ [])) n = nat_beq c n
is_letter _ n = false

objects : Objects
unfolding is_letter
objects = record {
  has_own = λ o k.
      nat_beq o 1 && is_letter k 5 || nat_beq o 3 && is_letter k 6 || nat_beq o 8 && is_letter k 7;
  prototype_of = λ o.
      if nat_beq o 1
      then some 3
      else if nat_beq o 3
      then some 8
      else if nat_beq o 2
      then some 8
      else none;
  read = λ o k. if nat_beq o 1 && is_letter k 5 then object 2 else primitive;
  object_prototype = 8;
  function_prototype = 9;
}

registry : Registry
unfolding register get set
registry = (register 10 "x" 1 (record { by_id = []; id_by_object = [] })).1

computing : Unit {0}
unfolding get set delete register release release_all run is_builtin owner_from owner_of follow
    resolve objects registry letter is_letter is_forbidden_property_key contains_text text_beq
computing = tt

paths_read :
    (resolve objects 5 "x" (letter 5 ∷ []) registry ≡ some (object 1, object 2))
    × (resolve objects 5 "x" (letter 6 ∷ []) registry ≡ some (object 1, primitive))
    × (resolve objects 5 "x" (letter 7 ∷ []) registry ≡ none)
    × (resolve objects 5 "y" (letter 5 ∷ []) registry ≡ none)
unfolding computing
paths_read = (refl, refl, refl, refl)

resolve-Reads_example :
    (root : ℕ) × (get registry.by_id "x" ≡ some root)
    × Reads objects (object root) (object root) (letter 5 ∷ []) (object 1) (object 2)
unfolding computing
resolve-Reads_example =
    resolve-Reads objects 5 "x" (letter 5 ∷ []) registry (object 1) (object 2) refl

ids : ℕ → String
ids zero = "x"
ids (suc n) = String.◌∷◌ "x" (ids n)

abbrev count : String → ℕ
count String.[] = 0
count (String.◌∷◌ c s) = suc (count s)

count-ids : (n : ℕ) → count (ids n) ≡ suc n
unfolding ids
count-ids zero = refl
count-ids (suc n) = ap suc (count-ids n)

ids_distinct : (a b : ℕ) → ids a ≡ ids b → a ≡ b
ids_distinct a b h = omega (arith, sym (count-ids a) ∙ ap count h ∙ count-ids b)

ids_named : (a : ℕ) → ids a ≢ ""
ids_named a h =
    let zeroes : suc a ≡ 0 = sym (count-ids a) ∙ ap count h in absurd (omega (arith, zeroes))

abbrev ops : List Op
ops = registers 4 ∷ registers 5 ∷ registers 4 ∷ releases "x" ∷ registers 6 ∷ []

registry-IsPaired_example : IsPaired 2 (run 2 ids 0 ops (record { by_id = []; id_by_object = [] }))
registry-IsPaired_example = registry-IsPaired 2 ids ops ids_distinct ids_named
