-- ===== src/ResponseTable.antt =====
-- The table of active responses of src/PerfectWS.ts: `_getActiveResponse`, `_setActiveResponse`
-- and `_deleteActiveResponse`. Texts are a type with an equality test, and `key` is the text that
-- `JSON.stringify` gives for a pair. A response is known by its reference; its client and its
-- request id, which never change, are functions of that.
pub mod Lookup
pub mod Keyed
pub mod Refinement
mod Tests
use perfect_ws.Base.{ℕ, Bool, Option, none, some, List, [], ◌∷◌, if◌then◌else◌, Eq, ◌==◌, nat_eq}
use perfect_ws.JsMap.{JsMap, get, set, delete}

pub record Ids (K : Type 0) : Type 0 where
  pub client_id : ℕ → K
  pub request_id : ℕ → K

pub data Op : Type 0 where
  enters leaves : ℕ → Op

module _ {K : Type 0} ⦃e : Eq K⦄ (key : K → K → K) (ids : Ids K) where
  pub own_key : ℕ → K
  own_key r = key (ids.client_id r) (ids.request_id r)

  -- `direct?.clientId === clientId ? direct : keyed`
  pub or_keyed : K → (direct keyed : Option ℕ) → Option ℕ
  or_keyed c none keyed = keyed
  or_keyed c (some d) keyed = if ids.client_id d == c then some d else keyed

  pub get_active_response : JsMap K ℕ → K → K → Option ℕ
  get_active_response t c i = or_keyed c (get t i) (get t (key c i))

  pub set_active_response : JsMap K ℕ → ℕ → JsMap K ℕ
  set_active_response t r = elim (get t (ids.request_id r)) [
    | none ↦ set t (ids.request_id r) r
    | some d ↦
        if ids.client_id d == ids.client_id r
        then set t (ids.request_id r) r
        else set (set (delete t (ids.request_id r)) (own_key d) d) (own_key r) r
  ]

  pub delete_active_response : JsMap K ℕ → ℕ → JsMap K ℕ
  delete_active_response t r = elim (get t (ids.request_id r)) [
    | none ↦ delete t (own_key r)
    | some d ↦ if d == r then delete t (ids.request_id r) else delete t (own_key r)
  ]

  -- What `_onRequest` and `releaseResponse` do to the table, the latest first.
  pub table : List Op → JsMap K ℕ
  table [] = []
  table (enters r ∷ ops) = set_active_response (table ops) r
  table (leaves r ∷ ops) = delete_active_response (table ops) r
