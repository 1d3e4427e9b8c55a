-- ===== src/ResponseTable/Keyed.antt =====
-- Where the entries of the table stand.
use perfect_ws.Base.{ℕ, ◌≡◌, none, arith, Eq, nat_eq}
use perfect_ws.JsMap.{JsMap, get, set, delete}
use perfect_ws.JsMap.Laws.{get-set, get-delete}
use perfect_ws.ResponseTable.{Ids, own_key}
use perfect_ws.ResponseTable.Lookup.{IsInjective, IsPlain, IsKeyed}

module _ {K : Type 0} ⦃e : Eq K⦄ (key : K → K → K) (ids : Ids K) where
  pub direct-IsKeyed :
      (t : JsMap K ℕ) (r : ℕ)
      → IsPlain key (ids.request_id r)
      → IsKeyed key ids t
      → get t (ids.request_id r) ≡ none
      → get t (own_key key ids r) ≡ none
      → IsKeyed key ids (set t (ids.request_id r) r)
  unfolding own_key
  direct-IsKeyed t r plain keyed h g =
      let i0 = ids.request_id r in
      record {
        direct = λ k s q. ground (arith, q, get-set t i0 k r, e.same_iff i0 k, keyed.direct k s);
        single = λ s q. ground (
          arith,
          q,
          g,
          get-set t i0 (ids.request_id s) r,
          get-set t i0 (key (ids.client_id s) (ids.request_id s)) r,
          e.same_iff i0 (key (ids.client_id s) (ids.request_id s)),
          plain (ids.client_id s) (ids.request_id s),
          keyed.single s,
        );
      }

  pub delete-IsKeyed : (t : JsMap K ℕ) (j : K) → IsKeyed key ids t → IsKeyed key ids (delete t j)
  delete-IsKeyed t j keyed = record {
    direct = λ k s q. ground (arith, q, get-delete t j k, keyed.direct k s);
    single = λ s q. ground (
      arith,
      q,
      get-delete t j (ids.request_id s),
      get-delete t j (key (ids.client_id s) (ids.request_id s)),
      keyed.single s,
    );
  }

  pub set_own-IsKeyed :
      (t : JsMap K ℕ) (r : ℕ)
      → IsInjective key
      → IsPlain key (ids.request_id r)
      → IsKeyed key ids t
      → get t (ids.request_id r) ≡ none
      → IsKeyed key ids (set t (own_key key ids r) r)
  unfolding own_key
  set_own-IsKeyed t r inj plain keyed h =
      let o = key (ids.client_id r) (ids.request_id r) in
      record {
        direct = λ k s q. ground (arith, q, get-set t o k r, e.same_iff o k, keyed.direct k s);
        single = λ s q. ground (
          arith,
          q,
          h,
          get-set t o (ids.request_id s) r,
          get-set t o (key (ids.client_id s) (ids.request_id s)) r,
          e.same_iff o (ids.request_id s),
          e.same_iff o (key (ids.client_id s) (ids.request_id s)),
          inj (ids.client_id r) (ids.request_id r) (ids.client_id s) (ids.request_id s),
          plain (ids.client_id r) (ids.request_id r),
          keyed.single s,
        );
      }
