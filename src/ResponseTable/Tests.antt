-- ===== src/ResponseTable/Tests.antt =====
-- Two clients that use the same request id, and one that leaves.
use perfect_ws.Base.{
  ℕ, ◌*◌, ◌≡◌, refl, ap, subst, ◌↔◌, Bool, true, false, ◌&&◌, none, some, List, [], ◌∷◌, arith, Eq,
  nat_beq, nat_eq,
}
use perfect_ws.JsMap.{get, set, delete}
use perfect_ws.ResponseTable.{
  Ids, Op, enters, leaves, own_key, or_keyed, get_active_response, set_active_response,
  delete_active_response, table,
}
use perfect_ws.ResponseTable.Lookup.{IsInjective, IsPlain}
use perfect_ws.ResponseTable.Refinement.{response_of, IsLegal, get_active_response-table}

-- A text is a word or the text of a pair.
data Word : Type 0 where
  plain : ℕ → Word
  pair : Word → Word → Word

word_beq : Word → Word → Bool
word_beq (plain a) (plain b) = nat_beq a b
word_beq (pair a b) (pair c d) = word_beq a c && word_beq b d
word_beq (plain a) (pair c d) = false
word_beq (pair a b) (plain c) = false

word_of_beq : (a b : Word) → word_beq a b ≡ true → a ≡ b
unfolding word_beq
word_of_beq (plain a) (plain b) h = ap plain (ground arith)
word_of_beq (pair a b) (pair c d) h = ground (arith, word_of_beq a c, word_of_beq b d)
word_of_beq (plain a) (pair c d) h = absurd (ground arith)
word_of_beq (pair a b) (plain c) h = absurd (ground arith)

word_beq_refl : (a : Word) → word_beq a a ≡ true
unfolding word_beq
word_beq_refl (plain a) = ground arith
word_beq_refl (pair a b) = ground (arith, word_beq_refl a, word_beq_refl b)

word_beq_iff : (a b : Word) → (word_beq a b ≡ true) ↔ (a ≡ b)
word_beq_iff a b = (word_of_beq a b, λ q. subst (λ w. word_beq a w ≡ true) q (word_beq_refl a))

instance abbrev word_eq : Eq Word
word_eq = record { same = word_beq; same_iff = word_beq_iff }

-- Responses 1 and 2 are of the clients 10 and 20, and both have the request id 5.
ids : Ids Word
ids = record { client_id = λ r. plain (r * 10); request_id = λ r. plain 5 }

computing : Unit {0}
unfolding get set delete own_key or_keyed get_active_response set_active_response
    delete_active_response table response_of IsLegal ids word_beq
computing = tt

abbrev ops : List Op
ops = leaves 1 ∷ enters 2 ∷ enters 1 ∷ []

second_found :
    (get_active_response pair ids (table pair ids ops) (plain 20) (plain 5) ≡ some 2)
    × (get_active_response pair ids (table pair ids ops) (plain 10) (plain 5) ≡ none)
unfolding computing
second_found = (refl, refl)

-- Response 1 of the client 10 has a request id that is the text of a pair: it is found for that pair.
abbrev foreign_ids : Ids Word
foreign_ids = record { client_id = λ r. plain 10; request_id = λ r. pair (plain 20) (plain 5) }

foreign_found :
    get_active_response pair foreign_ids
      (table pair foreign_ids (enters 1 ∷ []))
      (plain 20)
      (plain 5)
    ≡ some 1
unfolding computing
foreign_found = refl

pair-IsInjective : IsInjective pair
pair-IsInjective a b c d h = (ground arith, ground arith)

plain-IsPlain : (n : ℕ) → IsPlain pair (plain n)
plain-IsPlain n c j h = ground arith

ops-IsLegal : IsLegal ids pair ops
unfolding computing
ops-IsLegal = (plain-IsPlain 5, refl, (plain-IsPlain 5, refl, (plain-IsPlain 5, refl, tt)))

get_active_response-table_example :
    get_active_response pair ids (table pair ids ops) (plain 20) (plain 5)
    ≡ response_of ids ops (plain 20) (plain 5)
get_active_response-table_example =
    get_active_response-table pair ids ops (plain 20) (plain 5) pair-IsInjective ops-IsLegal
      (plain-IsPlain 5)
