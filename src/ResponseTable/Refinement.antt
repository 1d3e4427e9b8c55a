-- ===== src/ResponseTable/Refinement.antt =====
-- The table is a map on pairs of a client and a request id.
use perfect_ws.Base.{
  ℕ, ◌≡◌, refl, sym, ◌∙◌, ap, subst, ◌≢◌, inl, inr, true, ◌&&◌, Option, none, some, Option-cases,
  Bool-cases, arith, List, [], ◌∷◌, if◌then◌else◌, Eq, ◌==◌, nat_eq,
}
use perfect_ws.JsMap.{JsMap, get, delete}
use perfect_ws.JsMap.Laws.{get-set, get-delete, get-delete_self}
use perfect_ws.ResponseTable.{
  Ids, Op, enters, leaves, own_key, or_keyed, get_active_response, set_active_response,
  delete_active_response, table,
}
use perfect_ws.ResponseTable.Lookup.{
  IsInjective, IsPlain, IsKeyed, not_eq, beside, key_eq, set-direct, set-beside,
}
use perfect_ws.ResponseTable.Keyed.{direct-IsKeyed, delete-IsKeyed, set_own-IsKeyed}

module _ {K : Type 0} ⦃e : Eq K⦄ (ids : Ids K) where
  -- The response of a pair: the latest that entered and has not left.
  unfoldable pub response_of : List Op → K → K → Option ℕ
  response_of [] c i = none
  response_of (enters r ∷ ops) c i =
      if ids.client_id r == c && ids.request_id r == i then some r else response_of ops c i
  response_of (leaves r ∷ ops) c i =
      if ids.client_id r == c && ids.request_id r == i then none else response_of ops c i

  -- A response enters when its pair has none, and leaves while it is its pair's.
  unfoldable pub IsLegal : (K → K → K) → List Op → Type 0
  IsLegal key [] = Unit
  IsLegal key (enters r ∷ ops) =
      IsPlain key (ids.request_id r)
      × (response_of ops (ids.client_id r) (ids.request_id r) ≡ none)
      × IsLegal key ops
  IsLegal key (leaves r ∷ ops) =
      IsPlain key (ids.request_id r)
      × (response_of ops (ids.client_id r) (ids.request_id r) ≡ some r)
      × IsLegal key ops

module _ {K : Type 0} ⦃e : Eq K⦄ (key : K → K → K) (ids : Ids K) where
  beside-IsKeyed :
      (t : JsMap K ℕ) (r d : ℕ)
      → IsInjective key
      → IsPlain key (ids.request_id r)
      → ids.request_id d ≡ ids.request_id r
      → IsKeyed key ids t
      → IsKeyed key ids (beside key ids t r d)
  unfolding own_key
  beside-IsKeyed t r d inj plain same_id keyed =
      let i0 = ids.request_id r in
      let gone = get-delete_self t i0 in
      let there =
        set_own-IsKeyed key ids (delete t i0) d inj (subst (IsPlain key) (sym same_id) plain)
          (delete-IsKeyed key ids t i0 keyed) (rw same_id gone) in
      set_own-IsKeyed key ids _ r inj plain there (
        get-set (delete t i0) (own_key key ids d) i0 d
        ∙ rw (not_eq key ids (own_key key ids d) i0 (plain (ids.client_id d) (ids.request_id d)))
            gone)

  same_id :
      (t : JsMap K ℕ) (r d : ℕ)
      → IsPlain key (ids.request_id r)
      → IsKeyed key ids t
      → get t (ids.request_id r) ≡ some d
      → ids.request_id d ≡ ids.request_id r
  same_id t r d plain keyed h = elim (keyed.direct (ids.request_id r) d h) [
    | inl q ↦ sym q
    | inr q ↦ absurd (plain (ids.client_id d) (ids.request_id d) (sym q))
  ]

  not_taken :
      (t : JsMap K ℕ) (r d : ℕ)
      → get_active_response key ids t (ids.client_id r) (ids.request_id r) ≡ none
      → get t (ids.request_id r) ≡ some d
      → (ids.client_id d == ids.client_id r) ≢ true
  unfolding get_active_response or_keyed
  not_taken t r d free h q = ground (arith, free, h, q)

  set_active_response-IsKeyed :
      (t : JsMap K ℕ) (r : ℕ)
      → IsInjective key
      → IsPlain key (ids.request_id r)
      → IsKeyed key ids t
      → get_active_response key ids t (ids.client_id r) (ids.request_id r) ≡ none
      → IsKeyed key ids (set_active_response key ids t r)
  unfolding set_active_response get_active_response or_keyed own_key
  set_active_response-IsKeyed t r inj plain keyed free =
      elim (Option-cases (get t (ids.request_id r))) [
        | inl h ↦
            rw (h, set_active_response)
              (direct-IsKeyed key ids t r plain keyed h (ground (arith, free, h)))
        | inr (d, h) ↦ elim (Bool-cases (ids.client_id d == ids.client_id r)) [
          | inl q ↦ absurd (not_taken t r d free h q)
          | inr q ↦
              rw (h, q, set_active_response)
                (beside-IsKeyed t r d inj plain (same_id t r d plain keyed h) keyed)
        ]
      ]

  set_active_response_lem :
      (t : JsMap K ℕ) (r : ℕ) (c i : K)
      → IsInjective key
      → IsPlain key (ids.request_id r)
      → IsPlain key i
      → IsKeyed key ids t
      → get_active_response key ids t (ids.client_id r) (ids.request_id r) ≡ none
      → get_active_response key ids (set_active_response key ids t r) c i ≡ (
          if ids.client_id r == c && ids.request_id r == i
          then some r
          else get_active_response key ids t c i)
  unfolding set_active_response
  set_active_response_lem t r c i inj plain plain_i keyed free =
      elim (Option-cases (get t (ids.request_id r))) [
        | inl h ↦ rw (h, set_active_response) (set-direct key ids t r c i plain h)
        | inr (d, h) ↦ elim (Bool-cases (ids.client_id d == ids.client_id r)) [
          | inl q ↦ absurd (not_taken t r d free h q)
          | inr q ↦
              rw (h, q, set_active_response)
                (set-beside key ids t r d c i inj plain plain_i (same_id t r d plain keyed h) h q)
        ]
      ]

  delete_active_response-IsKeyed :
      (t : JsMap K ℕ) (r : ℕ)
      → IsKeyed key ids t
      → IsKeyed key ids (delete_active_response key ids t r)
  unfolding delete_active_response
  delete_active_response-IsKeyed t r keyed = elim (Option-cases (get t (ids.request_id r))) [
    | inl h ↦ rw (h, delete_active_response) (delete-IsKeyed key ids t (own_key key ids r) keyed)
    | inr (d, h) ↦
        rw (h, delete_active_response)
          (ground (
            arith,
            delete-IsKeyed key ids t (own_key key ids r) keyed,
            delete-IsKeyed key ids t (ids.request_id r) keyed,
          ))
  ]

  delete-direct :
      (t : JsMap K ℕ) (r : ℕ) (c i : K)
      → IsPlain key (ids.request_id r)
      → IsKeyed key ids t
      → get t (ids.request_id r) ≡ some r
      → get_active_response key ids (delete t (ids.request_id r)) c i ≡ (
          if ids.client_id r == c && ids.request_id r == i
          then none
          else get_active_response key ids t c i)
  unfolding get_active_response or_keyed
  delete-direct t r c i plain keyed h =
      let i0 = ids.request_id r in
      ground (
        arith,
        h,
        get-delete t i0 i,
        get-delete t i0 (key c i),
        plain c i,
        keyed.single r h,
        e.same_iff i0 i,
        e.same_iff i0 (key c i),
        e.same_iff (ids.client_id r) c,
      )

  delete-own :
      (t : JsMap K ℕ) (r : ℕ) (c i : K)
      → IsInjective key
      → IsPlain key i
      → get_active_response key ids t (ids.client_id r) (ids.request_id r) ≡ some r
      → get t (ids.request_id r) ≢ some r
      → get_active_response key ids (delete t (own_key key ids r)) c i ≡ (
          if ids.client_id r == c && ids.request_id r == i
          then none
          else get_active_response key ids t c i)
  unfolding get_active_response or_keyed own_key
  delete-own t r c i inj plain here other = ground (
    arith,
    here,
    other,
    get-delete t (key (ids.client_id r) (ids.request_id r)) i,
    get-delete t (key (ids.client_id r) (ids.request_id r)) (key c i),
    plain (ids.client_id r) (ids.request_id r),
    key_eq key ids (ids.client_id r) (ids.request_id r) c i inj,
    e.same_iff (key (ids.client_id r) (ids.request_id r)) i,
    e.same_iff (ids.request_id r) i,
    e.same_iff (ids.client_id r) c,
  )

  delete_active_response_lem :
      (t : JsMap K ℕ) (r : ℕ) (c i : K)
      → IsInjective key
      → IsPlain key (ids.request_id r)
      → IsPlain key i
      → IsKeyed key ids t
      → get_active_response key ids t (ids.client_id r) (ids.request_id r) ≡ some r
      → get_active_response key ids (delete_active_response key ids t r) c i ≡ (
          if ids.client_id r == c && ids.request_id r == i
          then none
          else get_active_response key ids t c i)
  unfolding delete_active_response
  delete_active_response_lem t r c i inj plain plain_i keyed here =
      elim (Option-cases (get t (ids.request_id r))) [
        | inl h ↦
            rw (h, delete_active_response)
              (delete-own t r c i inj plain_i here (λ q. absurd (ground (arith, h, q))))
        | inr (d, h) ↦ elim (Bool-cases (d == r)) [
          | inl q ↦
              rw (h, q, delete_active_response)
                (delete-direct t r c i plain keyed (h ∙ ap some ((nat_eq.same_iff d r).0 q)))
          | inr q ↦
              rw (h, q, delete_active_response)
                (delete-own t r c i inj plain_i here
                  (λ p. absurd (ground (arith, h, p, q, nat_eq.same_iff d r))))
        ]
      ]

  -- The table after these operations is keyed, and finds what the map on pairs has.
  record Implements (ops : List Op) : Type 0 where
    keyed : IsKeyed key ids (table key ids ops)
    finds :
        (c i : K)
        → IsPlain key i
        → get_active_response key ids (table key ids ops) c i ≡ response_of ids ops c i

  empty-Implements : Implements []
  unfolding table response_of get_active_response or_keyed get
  empty-Implements = record {
    keyed = record { direct = λ k r q. absurd (ground arith); single = λ r q. refl };
    finds = λ c i plain. refl;
  }

  table-Implements : (ops : List Op) → IsInjective key → IsLegal ids key ops → Implements ops
  unfolding table response_of IsLegal
  table-Implements [] inj legal = empty-Implements
  table-Implements (enters r ∷ ops) inj (plain, free, legal) =
      let rest = table-Implements ops inj legal in
      let none_there = rest.finds (ids.client_id r) (ids.request_id r) plain ∙ free in
      record {
        keyed = set_active_response-IsKeyed (table key ids ops) r inj plain rest.keyed none_there;
        finds = λ c i plain_i.
            set_active_response_lem (table key ids ops) r c i inj plain plain_i rest.keyed
              none_there
            ∙ rw (rest.finds c i plain_i) refl;
      }
  table-Implements (leaves r ∷ ops) inj (plain, here, legal) =
      let rest = table-Implements ops inj legal in
      let there = rest.finds (ids.client_id r) (ids.request_id r) plain ∙ here in
      record {
        keyed = delete_active_response-IsKeyed (table key ids ops) r rest.keyed;
        finds = λ c i plain_i.
            delete_active_response_lem (table key ids ops) r c i inj plain plain_i rest.keyed there
            ∙ rw (rest.finds c i plain_i) refl;
      }

  -- If the text of a pair determines the pair, if no request id is such a text, and if responses
  -- enter the table only while their pair has none and leave it only while they are their pair's,
  -- then the table finds for every client and request id the response that entered it for this
  -- pair last and has not left, also where several clients use the same request id.
  pub get_active_response-table :
      (ops : List Op) (c i : K)
      → IsInjective key
      → IsLegal ids key ops
      → IsPlain key i
      → get_active_response key ids (table key ids ops) c i ≡ response_of ids ops c i
  get_active_response-table ops c i inj legal plain =
      (table-Implements ops inj legal).finds c i plain
