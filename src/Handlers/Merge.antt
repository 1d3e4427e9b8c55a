-- ===== src/Handlers/Merge.antt =====
-- What the validator puts into the request's data.
use perfect_ws.Base.{
  ◌≡◌, refl, inl, inr, String, Bool, false, Option, none, some, Option-cases, Bool-cases, List, [],
  ◌∷◌, map, if◌then◌else◌, ◌==◌, string_eq, arith, any, is_some,
}
use perfect_ws.JsMap.{JsMap, get, set}
use perfect_ws.JsMap.Laws.{get-set}
use perfect_ws.Handlers.{plain_record, is_special, assign, merge_parsed_data}

module _ {V : Type 0} where
  -- The value under a key after the parsed data are put in.
  abbrev pub after : (parsed input : JsMap String V) → String → Option V
  after parsed input k =
      if is_special k
      then get input k
      else elim (get parsed k) [ none ↦ get input k | some v ↦ some v ]

  put : JsMap String V → String → JsMap String V → JsMap String V
  put parsed k input =
      if is_special k then input else elim (get parsed k) [ none ↦ input | some v ↦ set input k v ]

  get-put :
      (parsed input : JsMap String V) (k j : String)
      → get (put parsed k input) j ≡ (if k == j then after parsed input j else get input j)
  unfolding put
  get-put parsed input k j = elim (Option-cases (get parsed k)) [
    | inl e ↦ rw (e, put) (ground (arith, e, string_eq.same_iff k j))
    | inr (v, e) ↦ rw (e, put) (ground (arith, e, string_eq.same_iff k j, get-set input k j v))
  ]

  -- Where the keys are those of the parsed data, each key that is not special is overwritten.
  get-assign :
      (parsed : JsMap String V) (ks : List String) (input : JsMap String V) (j : String)
      → get (assign parsed ks input) j
        ≡ (if any (λ k. k == j) ks then after parsed input j else get input j)
  unfolding assign put
  get-assign parsed [] input j = refl
  get-assign parsed (k ∷ ks) input j =
      ground (arith, get-put parsed input k j, get-assign parsed ks (put parsed k input) j)

  any-keys :
      (parsed : JsMap String V) (j : String)
      → any (λ k. k == j) (map (λ p. p.0) parsed) ≡ is_some (get parsed j)
  unfolding get
  any-keys [] j = refl
  any-keys ((k, v) ∷ m) j = ground (arith, any-keys m j)

  -- Where the validated data are an object of their own, the request's data have afterwards, under
  -- each key that is not special, the validated value; under a key without one they keep their own
  -- value, or none if unknown keys are stripped; and no special key is written.
  pub get-merge_parsed_data :
      (input parsed : JsMap String V) (strip : Bool) (j : String)
      → (m : JsMap String V) × (merge_parsed_data false
            (plain_record input)
            (plain_record parsed)
            strip
          ≡ plain_record m)
        × (get m j ≡ after parsed (if strip then [] else input) j)
  unfolding merge_parsed_data
  get-merge_parsed_data input parsed strip j = elim (Bool-cases strip) [
    | inl e ↦ (
      assign parsed (map (λ p. p.0) parsed) [],
      rw (e, merge_parsed_data),
      ground (arith, e, any-keys parsed j, get-assign parsed (map (λ p. p.0) parsed) [] j),
    )
    | inr e ↦ (
      assign parsed (map (λ p. p.0) parsed) input,
      rw (e, merge_parsed_data),
      ground (arith, e, any-keys parsed j, get-assign parsed (map (λ p. p.0) parsed) input j),
    )
  ]
