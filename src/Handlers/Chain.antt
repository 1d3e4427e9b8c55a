-- ===== src/Handlers/Chain.antt =====
-- What a validator does to the run of a route's callbacks.
use perfect_ws.Base.{◌≡◌, ◌∙◌, refl, Bool, ◌⊎◌, Option, none, List, [], ◌∷◌, ◌++◌, inl, inr, arith}
use perfect_ws.Protocol.{WsError}
use perfect_ws.Handlers.{
  Reply, returns, replaces, throws, passed, failed, run_callbacks, Value, Parsed, success, failure,
  ValidationOptions, error_message, merge_parsed_data, validate_with_zod,
}

module _ {D : Type 0} where
  Reply-cases :
      (e : Reply D)
      → (((over : Bool) × (value : Option D) × (e ≡ returns over value))
          ⊎ ((d : D) × (e ≡ replaces d)))
        ⊎ ((f : WsError) × (e ≡ throws f))
  Reply-cases (returns over value) = inl (inl (over, value, refl))
  Reply-cases (replaces d) = inl (inr (d, refl))
  Reply-cases (throws f) = inr (f, refl)

  -- Callbacks that all pass leave the run to those after them.
  pub run_callbacks-append :
      (cs rest : List (D → Reply D)) (d d' : D) (r r' : Option D)
      → run_callbacks cs d r ≡ passed d' r'
      → run_callbacks (cs ++ rest) d r ≡ run_callbacks rest d' r'
  unfolding run_callbacks
  run_callbacks-append [] rest d d' r r' h = cc h
  run_callbacks-append (c ∷ cs) rest d d' r r' h = elim (Reply-cases (c d)) [
    | inl (inl (over, value, e)) ↦
        rw (e, run_callbacks) (ground (arith, h, e, run_callbacks-append cs rest d d' value r'))
    | inl (inr (request', e)) ↦
        rw (e, run_callbacks)
          (ground (arith, h, e, run_callbacks-append cs rest request' d' none r'))
    | inr (f, e) ↦ ground (arith, h, e)
  ]

module _ {V : Type 0} where
  -- Of a route's callbacks, let those before a validator pass and leave some data. If the validator's
  -- parser accepts these, the callbacks after it run on the data that the merge gives, with no value;
  -- if the parser refuses them, none of the callbacks after it runs and the request fails with the
  -- validator's code and the text made of the parser's issues.
  pub run_callbacks-validate_with_zod :
      (cs rest : List (Value V → Reply (Value V))) (safe_parse : Value V → Parsed V)
      (o : ValidationOptions) (d d' : Value V) (r r' : Option (Value V))
      → run_callbacks cs d r ≡ passed d' r'
      → run_callbacks (cs ++ (validate_with_zod safe_parse o ∷ rest)) d r ≡ elim (safe_parse d') [
        | success parsed same ↦
            run_callbacks rest (merge_parsed_data same d' parsed o.strip_unknown) none
        | failure issues ↦ failed (record { message = error_message o issues; code = o.error_code })
      ]
  unfolding run_callbacks validate_with_zod
  run_callbacks-validate_with_zod cs rest safe_parse o d d' r r' h =
      run_callbacks-append cs (validate_with_zod safe_parse o ∷ rest) d d' r r' h ∙ ground arith
