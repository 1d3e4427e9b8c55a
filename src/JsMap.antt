-- ===== src/JsMap.antt =====
-- The language's `Map`: entries in the order of insertion, at most one for a key.
pub mod Laws
use perfect_ws.Base.{
  ℕ, Bool, Option, none, some, List, [], ◌∷◌, if◌then◌else◌, is_some, length, map, Eq, ◌==◌,
}

abbrev pub JsMap {ℓ κ} : Type ℓ → Type κ → Type (ℓ ⊔ κ)
JsMap K V = List (K × V)

module _ {ℓ κ} {K : Type ℓ} {V : Type κ} ⦃e : Eq K⦄ where
  unfoldable pub get : JsMap K V → K → Option V
  get [] k = none
  get ((j, v) ∷ m) k = if j == k then some v else get m k

  -- A present key keeps its place, a new one goes to the end.
  unfoldable pub set : JsMap K V → K → V → JsMap K V
  set [] k v = (k, v) ∷ []
  set ((j, w) ∷ m) k v = if j == k then (j, v) ∷ m else (j, w) ∷ set m k v

  unfoldable pub delete : JsMap K V → K → JsMap K V
  delete [] k = []
  delete ((j, v) ∷ m) k = if j == k then delete m k else (j, v) ∷ delete m k

  unfoldable pub has : JsMap K V → K → Bool
  unfolding get
  has m k = is_some (get m k)

abbrev pub size {ℓ κ} : {K : Type ℓ} {V : Type κ} → JsMap K V → ℕ
size m = length m

abbrev pub values {ℓ κ} : {K : Type ℓ} {V : Type κ} → JsMap K V → List V
values m = map (λ p. p.1) m
