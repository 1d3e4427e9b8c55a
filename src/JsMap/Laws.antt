-- ===== src/JsMap/Laws.antt =====
-- The laws of the language's `Map` on which the components rest.
use perfect_ws.Base.{
  ◌+◌, ◌≤◌, ◌≡◌, refl, true, false, none, some, [], ◌∷◌, arith, if◌then◌else◌, Eq, ◌==◌, beq_refl,
}
use perfect_ws.JsMap.{JsMap, get, set, delete, has, size}

module _ {ℓ κ} {K : Type ℓ} {V : Type κ} ⦃e : Eq K⦄ where
  pub get-set :
      (m : JsMap K V) (k j : K) (v : V) → get (set m k v) j ≡ (if k == j then some v else get m j)
  unfolding get set
  get-set [] k j v = refl
  get-set ((i, w) ∷ m) k j v =
      ground (arith, e.same_iff k j, e.same_iff i k, e.same_iff i j, get-set m k j v)

  pub get-delete :
      (m : JsMap K V) (k j : K) → get (delete m k) j ≡ (if k == j then none else get m j)
  unfolding get delete
  get-delete [] k j = ground arith
  get-delete ((i, w) ∷ m) k j =
      ground (arith, e.same_iff k j, e.same_iff i k, e.same_iff i j, get-delete m k j)

  pub get-set_self : (m : JsMap K V) (k : K) (v : V) → get (set m k v) k ≡ some v
  get-set_self m k v = simp (get-set, beq_refl)

  pub get-delete_self : (m : JsMap K V) (k : K) → get (delete m k) k ≡ none
  get-delete_self m k = simp (get-delete, beq_refl)

  pub size-set_new :
      (m : JsMap K V) (k : K) (v : V) → get m k ≡ none → size (set m k v) ≡ size m + 1
  unfolding get set
  size-set_new [] k v h = omega arith
  size-set_new ((j, w) ∷ m) k v h = ground (arith, size-set_new m k v)

  pub size-set-le : (m : JsMap K V) (k : K) (v : V) → size (set m k v) ≤ size m + 1
  unfolding set
  size-set-le [] k v = omega arith
  size-set-le ((j, w) ∷ m) k v = ground (arith, size-set-le m k v)

  pub size-set_old :
      (m : JsMap K V) (k : K) (v w : V) → get m k ≡ some w → size (set m k v) ≡ size m
  unfolding get set
  size-set_old [] k v w h = cc
  size-set_old ((j, u) ∷ m) k v w h = ground (arith, size-set_old m k v w)

  pub size-delete-le : (m : JsMap K V) (k : K) → size (delete m k) ≤ size m
  unfolding delete
  size-delete-le [] k = omega arith
  size-delete-le ((j, w) ∷ m) k = ground (arith, size-delete-le m k)

  pub delete_absent : (m : JsMap K V) (k : K) → get m k ≡ none → delete m k ≡ m
  unfolding get delete
  delete_absent [] k h = refl
  delete_absent ((j, w) ∷ m) k h = ground (arith, delete_absent m k)

  pub get_of_not_has : (m : JsMap K V) (k : K) → has m k ≡ false → get m k ≡ none
  unfolding has
  get_of_not_has m k h = ground arith

  pub has_of_get : (m : JsMap K V) (k : K) (v : V) → get m k ≡ some v → has m k ≡ true
  unfolding has
  has_of_get m k v h = ground arith

  pub has_absent : (m : JsMap K V) (k : K) → get m k ≡ none → has m k ≡ false
  unfolding has
  has_absent m k h = ground arith
