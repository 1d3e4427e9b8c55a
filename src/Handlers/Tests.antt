-- ===== src/Handlers/Tests.antt =====
-- A route with a validator between two callbacks; the values are numbers.
use perfect_ws.Base.{ℕ, ◌≡◌, refl, String, true, false, none, some, [], ◌∷◌, string_eq}
use perfect_ws.JsMap.{JsMap, get, set}
use perfect_ws.Handlers.{
  Reply, returns, Outcome, failed, run_callbacks, Value, plain_record, other, Issue, Parsed,
  success, failure, ValidationOptions, join, describe, describe_all, error_message, is_special,
  assign, merge_parsed_data, validate_with_zod,
}
use perfect_ws.Handlers.Merge.{after, get-merge_parsed_data}

computing : Unit {0}
unfolding get set run_callbacks join describe describe_all error_message is_special assign
    merge_parsed_data validate_with_zod
computing = tt

abbrev options : ValidationOptions
options = record {
  strip_unknown = true;
  abort_early = true;
  custom_error_message = none;
  error_code = "validationError";
}

abbrev input : JsMap String ℕ
input = ("name", 1) ∷ ("debug", 2) ∷ []

abbrev parsed : JsMap String ℕ
parsed = ("name", 3) ∷ ("__proto__", 4) ∷ []

abbrev issue : Issue
issue = record { path = "user" ∷ "name" ∷ []; message = "Required" }

-- It accepts objects only.
abbrev parser : Value ℕ → Parsed ℕ
parser (plain_record m) = success (plain_record parsed) false
parser (other v) = failure (issue ∷ [])

abbrev pass : Value ℕ → Reply (Value ℕ)
pass request = returns false (some request)

stripped :
    merge_parsed_data false (plain_record input) (plain_record parsed) true
    ≡ plain_record (("name", 3) ∷ [])
unfolding computing
stripped = refl

-- A parser that gives the very object back, and unknown keys are stripped: all keys are lost.
all_lost : merge_parsed_data true (plain_record input) (plain_record input) true ≡ plain_record []
unfolding computing
all_lost = refl

get-merge_parsed_data_example :
    (m : JsMap String ℕ) × (merge_parsed_data false (plain_record input) (plain_record parsed) true
      ≡ plain_record m)
    × (get m "name" ≡ after parsed [] "name")
get-merge_parsed_data_example = get-merge_parsed_data input parsed true "name"

passes : run_callbacks (pass ∷ []) (other 5) none ≡ Outcome.passed (other 5) (some (other 5))
unfolding computing
passes = refl

refused :
    run_callbacks (pass ∷ validate_with_zod parser options ∷ pass ∷ []) (other 5) none
    ≡ failed (record { message = "user.name: Required"; code = "validationError" })
unfolding computing
refused = refl
