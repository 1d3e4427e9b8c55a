-- ===== src/PureRpc/Registry.antt =====
-- `PureRPCRegistry` of src/PerfectWSAdvanced/transform/utils/PureRPCRegistry.ts. An object is known
-- by a number. What objects hold is a parameter: their prototypes, whether a property is their
-- own, and what reading one gives.
pub mod Handles
pub mod Resolution
mod Tests
use perfect_ws.Base.{
  ℕ, suc, zero, ◌+◌, String, Bool, true, false, not, ◌&&◌, ◌||◌, Option, none, some, List, [], ◌∷◌,
  leb, if◌then◌else◌, ◌==◌, string_eq, nat_eq, any,
}
use perfect_ws.JsMap.{JsMap, get, set, delete, size}
use perfect_ws.PropertyPath.{Key, is_forbidden_property_key}

pub record Registry : Type 0 where
  pub by_id : JsMap String ℕ
  pub id_by_object : JsMap ℕ String

-- `register` with the id that `randomUUID` gives: the id, or an error where the table is full, and
-- the registry.
pub register : (max_handles : ℕ) → (new_id : String) → ℕ → Registry → Option String × Registry
register max_handles new_id obj g =
    let enter = if leb max_handles (size g.by_id) then (none, g) else (
      some new_id,
      record { by_id = set g.by_id new_id obj; id_by_object = set g.id_by_object obj new_id },
    ) in
    elim (get g.id_by_object obj) [
      | none ↦ enter
      | some id ↦ if id == "" then enter else (some id, g)
    ]

pub release : String → Registry → Registry
release id g = elim (get g.by_id id) [
  | none ↦ g
  | some obj ↦ record { by_id = delete g.by_id id; id_by_object = delete g.id_by_object obj }
]

pub release_all : Registry → Registry
release_all g = record { by_id = []; id_by_object = [] }

pub data Op : Type 0 where
  registers : ℕ → Op
  releases : String → Op
  releases_all : Op

-- The registry after these operations; `ids` gives the ids of `randomUUID`, from the `k`th on.
pub run : (max_handles : ℕ) → (ids : ℕ → String) → ℕ → List Op → Registry → Registry
run n ids k [] g = g
run n ids k (registers obj ∷ ops) g = run n ids (k + 1) ops (register n (ids k) obj g).1
run n ids k (releases id ∷ ops) g = run n ids k ops (release id g)
run n ids k (releases_all ∷ ops) g = run n ids k ops (release_all g)

pub data Value : Type 0 where
  object : ℕ → Value
  primitive : Value

pub record Objects : Type 0 where
  pub has_own : ℕ → Key → Bool
  pub prototype_of : ℕ → Option ℕ
  pub read : ℕ → Key → Value
  -- `Object.prototype` and `Function.prototype`
  pub object_prototype : ℕ
  pub function_prototype : ℕ

module _ (o : Objects) where
  pub is_builtin : ℕ → Bool
  is_builtin p = p == o.object_prototype || p == o.function_prototype

  -- The loop of `ownerOf`, from a prototype on; `none` also where the fuel is out.
  pub owner_from : (fuel : ℕ) → (visited : List ℕ) → Key → Option ℕ → Option ℕ
  owner_from zero visited key proto = none
  owner_from (suc fuel) visited key none = none
  owner_from (suc fuel) visited key (some p) =
      let further = owner_from fuel (p ∷ visited) key (o.prototype_of p) in
      if is_builtin p || any (λ v. v == p) visited
      then none
      else if o.has_own p key
      then some p
      else further

  pub owner_of : (fuel : ℕ) → ℕ → Key → Option ℕ
  owner_of fuel target key =
      if o.has_own target key then some target else owner_from fuel [] key (o.prototype_of target)

  -- The loop of `resolve`: the receiver and the value after it.
  pub follow : (fuel : ℕ) → List Key → (receiver value : Value) → Option (Value × Value)
  follow fuel [] receiver value = some (receiver, value)
  follow fuel (key ∷ path) receiver primitive = none
  follow fuel (key ∷ path) receiver (object target) =
      let next = follow fuel path (object target) (o.read target key) in
      if is_forbidden_property_key key
      then none
      else elim (owner_of fuel target key) [ none ↦ none | some owner ↦ next ]

  pub resolve : (fuel : ℕ) → String → List Key → Registry → Option (Value × Value)
  unfolding follow
  resolve fuel id [] g = none
  resolve fuel id (key ∷ path) g = elim (get g.by_id id) [
    | none ↦ none
    | some root ↦ follow fuel (key ∷ path) (object root) (object root)
  ]

  -- The value of a resolution, if it is an object.
  pub container : Option (Value × Value) → Option ℕ
  container none = none
  container (some (receiver, object target)) = some target
  container (some (receiver, primitive)) = none

  pub resolve_container : (fuel : ℕ) → String → List Key → Registry → Option ℕ
  unfolding container
  resolve_container fuel id [] g = get g.by_id id
  resolve_container fuel id (key ∷ path) g = container (resolve fuel id (key ∷ path) g)
