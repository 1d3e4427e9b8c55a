-- ===== src/PendingAborts/Tests.antt =====
-- Aborts of two clients, in a small table.
use perfect_ws.Base.{ℕ, ◌≡◌, ◌≢◌, refl, String, Bool, true, false, List, [], ◌∷◌, arith, string_eq}
use Prim.Native.String.{◌++◌}
use perfect_ws.JsMap.{get, set, delete, has}
use perfect_ws.PendingAborts.{
  Config, is_full, add_abort, take_abort, is_aged, clear_aborts, Event, aborts, begins, clears,
  step, run,
}
use perfect_ws.PendingAborts.Kept.{Leaves, take_abort-add_abort}

key : String → String → String
key client request = client ++ ("/" ++ request)

computing : Unit {0}
unfolding key get set delete has is_full add_abort take_abort is_aged clear_aborts step run Leaves
computing = tt

abbrev config : Config
config = record {
  max_pending_aborts = 2;
  max_total_pending_aborts = 3;
  pending_aborts_min_age = 10;
}

abbrev none_known : String → String → Bool
none_known client request = false

abbrev later : List (ℕ × Event key config)
later = (6, begins "b" "r") ∷ (7, aborts "b" "s") ∷ (12, clears none_known) ∷ []

-- The abort is lost once a round of clean-up comes too late.
cleared :
    (take_abort key config "a" "r"
      (run key config (add_abort key config 5 "a" "r" []) ((16, clears none_known) ∷ []))).0
    ≡ false
unfolding computing
cleared = refl

different_texts : key "b" "r" ≢ key "a" "r"
unfolding computing
different_texts h = ground (arith, (string_eq.same_iff (key "b" "r") (key "a" "r")).1 h)

take_abort-add_abort_example :
    (take_abort key config "a" "r" (run key config (add_abort key config 5 "a" "r" []) later)).0
    ≡ true
unfolding computing
take_abort-add_abort_example =
    take_abort-add_abort key config "a" "r" 5 [] later refl
      (different_texts, (omega arith, (omega arith, tt)))
