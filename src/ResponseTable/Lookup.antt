-- ===== src/ResponseTable/Lookup.antt =====
-- The table is a map on pairs of a client and a request id.
use perfect_ws.Base.{
  ℕ, ◌≡◌, refl, sym, ◌∙◌, ◌≢◌, ◌⊎◌, inl, inr, false, ◌&&◌, none, some, Bool-cases, arith,
  if◌then◌else◌, Eq, ◌==◌, nat_eq,
}
use perfect_ws.JsMap.{JsMap, get, set, delete}
use perfect_ws.JsMap.Laws.{get-set, get-delete}
use perfect_ws.ResponseTable.{Ids, own_key, or_keyed, get_active_response}

-- `JSON.stringify` on a pair of texts is injective.
abbrev pub IsInjective : {K : Type 0} → (K → K → K) → Type 0
IsInjective {K = K} key = (a b c d : K) → key a b ≡ key c d → (a ≡ c) × (b ≡ d)

-- A request id that is not itself the text of a pair.
abbrev pub IsPlain : {K : Type 0} → (K → K → K) → K → Type 0
IsPlain {K = K} key i = (c j : K) → key c j ≢ i

module _ {K : Type 0} ⦃e : Eq K⦄ (key : K → K → K) (ids : Ids K) where
  -- A response stands under its request id or under the text of its pair, and not under both.
  pub record IsKeyed (t : JsMap K ℕ) : Type 0 where
    pub direct :
        (k : K) (r : ℕ)
        → get t k ≡ some r
        → (k ≡ ids.request_id r) ⊎ (k ≡ key (ids.client_id r) (ids.request_id r))
    pub single :
        (r : ℕ)
        → get t (ids.request_id r) ≡ some r
        → get t (key (ids.client_id r) (ids.request_id r)) ≡ none

  pub not_eq : (a b : K) → (a ≢ b) → (a == b) ≡ false
  not_eq a b h = elim (Bool-cases (a == b)) [
    | inl t ↦ absurd (h ((e.same_iff a b).0 t))
    | inr f ↦ f
  ]

  -- Entered under its request id alone.
  pub set-direct :
      (t : JsMap K ℕ) (r : ℕ) (c i : K)
      → IsPlain key (ids.request_id r)
      → get t (ids.request_id r) ≡ none
      → get_active_response key ids (set t (ids.request_id r) r) c i ≡ (
          if ids.client_id r == c && ids.request_id r == i
          then some r
          else get_active_response key ids t c i)
  unfolding get_active_response or_keyed
  set-direct t r c i plain h =
      let i0 = ids.request_id r in
      ground (
        arith,
        h,
        get-set t i0 i r,
        get-set t i0 (key c i) r,
        plain c i,
        e.same_iff i0 i,
        e.same_iff i0 (key c i),
      )

  pub key_eq : (a b c d : K) → IsInjective key → (key a b == key c d) ≡ (a == c && b == d)
  key_eq a b c d inj =
      ground (arith, inj a b c d, e.same_iff a c, e.same_iff b d, e.same_iff (key a b) (key c d))

  -- The table after a response of another client has made room.
  abbrev pub beside : JsMap K ℕ → ℕ → ℕ → JsMap K ℕ
  beside t r d = set (set (delete t (ids.request_id r)) (own_key key ids d) d) (own_key key ids r) r

  get-beside_single :
      (t : JsMap K ℕ) (r d : ℕ) (i : K)
      → IsPlain key i
      → get (beside t r d) i ≡ (if ids.request_id r == i then none else get t i)
  unfolding own_key
  get-beside_single t r d i plain =
      get-set (set (delete t (ids.request_id r)) (own_key key ids d) d) (own_key key ids r) i r
      ∙ rw
          (
            not_eq (own_key key ids r) i (plain (ids.client_id r) (ids.request_id r)),
            get-set (delete t (ids.request_id r)) (own_key key ids d) i d,
            not_eq (own_key key ids d) i (plain (ids.client_id d) (ids.request_id d)),
          )
          (get-delete t (ids.request_id r) i)

  get-beside_pair :
      (t : JsMap K ℕ) (r d : ℕ) (c i : K)
      → IsInjective key
      → IsPlain key (ids.request_id r)
      → ids.request_id d ≡ ids.request_id r
      → get (beside t r d) (key c i) ≡ (
          if ids.client_id r == c && ids.request_id r == i
          then some r
          else if ids.client_id d == c && ids.request_id r == i
          then some d
          else get t (key c i))
  unfolding own_key
  get-beside_pair t r d c i inj plain same_id =
      get-set (set (delete t (ids.request_id r)) (own_key key ids d) d) (own_key key ids r)
        (key c i) r
      ∙ rw
          (
            get-set (delete t (ids.request_id r)) (own_key key ids d) (key c i) d,
            get-delete t (ids.request_id r) (key c i),
            not_eq (ids.request_id r) (key c i) (λ q. plain c i (sym q)),
            key_eq (ids.client_id r) (ids.request_id r) c i inj,
            key_eq (ids.client_id d) (ids.request_id d) c i inj,
            same_id,
          )
          refl

  -- Entered beside a response of another client.
  pub set-beside :
      (t : JsMap K ℕ) (r d : ℕ) (c i : K)
      → IsInjective key
      → IsPlain key (ids.request_id r)
      → IsPlain key i
      → ids.request_id d ≡ ids.request_id r
      → get t (ids.request_id r) ≡ some d
      → (ids.client_id d == ids.client_id r) ≡ false
      → get_active_response key ids (beside t r d) c i ≡ (
          if ids.client_id r == c && ids.request_id r == i
          then some r
          else get_active_response key ids t c i)
  unfolding get_active_response or_keyed
  set-beside t r d c i inj plain_r plain_i same_id h other = ground (
    arith,
    h,
    other,
    get-beside_single t r d i plain_i,
    get-beside_pair t r d c i inj plain_r same_id,
    e.same_iff (ids.request_id r) i,
    e.same_iff (ids.client_id r) c,
    e.same_iff (ids.client_id d) c,
    e.same_iff (ids.client_id d) (ids.client_id r),
  )
