-- ===== src/Request/Safety.antt =====
-- What the caller of a request sees: one settlement, which is the final call of its callback; and
-- a request that was delivered is not sent again.
use perfect_ws.Base.{
  ◌≡◌, Bool, false, Option, none, some, List, [], ◌∷◌, if◌then◌else◌, any, nat_eq, string_eq,
}
use perfect_ws.Protocol.{WsError}
use perfect_ws.Request.{Settled, resolved, rejected, Call, Request}

module _ {D : Type 0} where
  -- The settlement that a final call of the callback announces.
  abbrev pub outcome : Option D → Option WsError → Settled D
  outcome value none = resolved value
  outcome value (some e) = rejected e

  abbrev pub is_down : Call D → Bool
  is_down c = c.down

  abbrev pub announced : List (Call D) → List (Settled D)
  announced [] = []
  announced (c ∷ cs) = if c.down then outcome c.value c.error ∷ [] else []

  abbrev pub earlier_down : List (Call D) → Bool
  earlier_down [] = false
  earlier_down (c ∷ cs) = any is_down cs

  pub record IsTold (r : Request D) : Type 0 where
    -- settled once, by the last call, and only if that call is final
    pub settled : r.settlements ≡ announced r.calls
    -- no call follows a final one
    pub ordered : earlier_down r.calls ≡ false
    pub final : any is_down r.calls ≡ r.finished
    -- the callback does not abort within a final call
    pub apart : r.aborts_in_final ≡ none
