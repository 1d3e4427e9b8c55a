-- ===== src/Handlers.antt =====
-- The callbacks of a route: how `_onRequest` of src/PerfectWS.ts runs them, and the validator of
-- src/middleware/zodValidation.ts with src/middleware/dataMiddleware.ts. A callback is a function
-- of the request's data; what else it does is in what it replies.
pub mod Chain
pub mod Merge
mod Tests
use perfect_ws.Base.{
  ℕ, String, Bool, true, false, not, ◌&&◌, ◌||◌, Option, none, some, List, [], ◌∷◌, ◌++◌, map,
  if◌then◌else◌, ◌==◌, string_eq,
}
use Prim.Native.String.{◌++◌ as concat}
use perfect_ws.JsMap.{JsMap, get, set}
use perfect_ws.Protocol.{WsError}

pub data Reply (D : Type 0) : Type 0 where
  -- a value, and whether the response has ended or is finishing by then
  returns : (over : Bool) → Option D → Reply D
  -- `replaceRequestData`
  replaces : D → Reply D
  throws : WsError → Reply D

pub data Outcome (D : Type 0) : Type 0 where
  -- the loop ran to its end: the data, and the last value
  passed : D → Option D → Outcome D
  stopped : Option D → Outcome D
  failed : WsError → Outcome D

module _ {D : Type 0} where
  pub run_callbacks : List (D → Reply D) → D → Option D → Outcome D
  run_callbacks [] request response = passed request response
  run_callbacks (c ∷ cs) request response = elim (c request) [
    | returns over value ↦ if over then stopped value else run_callbacks cs request value
    | replaces request' ↦ run_callbacks cs request' none
    | throws e ↦ failed e
  ]

  pub route_callbacks :
      (internal : Bool) → (added router own : List (D → Reply D)) → List (D → Reply D)
  route_callbacks internal added router own = if internal then own else added ++ (router ++ own)

-- A value of the request: a plain object, or another.
pub data Value (V : Type 0) : Type 0 where
  plain_record : JsMap String V → Value V
  other : V → Value V

pub record Issue : Type 0 where
  -- its parts as texts
  pub path : List String
  pub message : String

pub data Parsed (V : Type 0) : Type 0 where
  -- the value, and whether it is the very object that was parsed
  success : Value V → (same_object : Bool) → Parsed V
  failure : List Issue → Parsed V

pub record ValidationOptions : Type 0 where
  pub strip_unknown : Bool
  pub abort_early : Bool
  pub custom_error_message : Option String
  pub error_code : String

pub join : String → List String → String
join separator [] = ""
join separator (s ∷ []) = s
join separator (s ∷ t ∷ ss) = concat s (concat separator (join separator (t ∷ ss)))

pub describe : Issue → String
unfolding join
describe issue =
    let path = join "." issue.path in
    if path == "" then issue.message else concat path (concat ": " issue.message)

pub describe_all : (abort_early : Bool) → List Issue → String
unfolding describe
describe_all abort_early [] = ""
describe_all abort_early (i ∷ is) =
    if abort_early then describe i else join ", " (map describe (i ∷ is))

pub error_message : ValidationOptions → List Issue → String
unfolding describe_all
error_message o issues = elim o.custom_error_message [
  | none ↦ describe_all o.abort_early issues
  | some m ↦ if m == "" then describe_all o.abort_early issues else m
]

pub is_special : String → Bool
is_special key = key == "__proto__" || key == "constructor" || key == "prototype"

module _ {V : Type 0} where
  -- `input[key] = parsed[key]` for each of the keys.
  pub assign : JsMap String V → List String → JsMap String V → JsMap String V
  unfolding is_special
  assign parsed [] input = input
  assign parsed (k ∷ ks) input = assign parsed ks (
      if is_special k then input else elim (get parsed k) [ none ↦ input | some v ↦ set input k v ])

  pub merge_parsed_data :
      (same_object : Bool) → Value V → Value V → (strip_unknown : Bool) → Value V
  unfolding assign
  merge_parsed_data same (plain_record input) (plain_record parsed) strip =
      let parsed' = if strip && same then [] else parsed in
      plain_record (assign parsed' (map (λ p. p.0) parsed') (if strip then [] else input))
  merge_parsed_data same (plain_record input) (other v) strip = other v
  merge_parsed_data same (other v) parsed strip = parsed

  pub validate_with_zod : (Value V → Parsed V) → ValidationOptions → Value V → Reply (Value V)
  unfolding error_message merge_parsed_data
  validate_with_zod safe_parse o input = elim (safe_parse input) [
    | success parsed same ↦ replaces (merge_parsed_data same input parsed o.strip_unknown)
    | failure issues ↦ throws (record { message = error_message o issues; code = o.error_code })
  ]
