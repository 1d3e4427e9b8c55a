-- ===== src/PureRpc/Registry/Resolution.antt =====
-- What a path from the peer reads.
use perfect_ws.Base.{
  ℕ, suc, zero, ◌+◌, ◌≡◌, ◌⊎◌, refl, subst, inl, inr, String, true, false, ◌||◌, Option, none, some,
  Option-cases, Bool-cases, List, [], ◌∷◌, ◌==◌, string_eq, nat_eq, arith, any,
}
use perfect_ws.JsMap.{get}
use perfect_ws.PropertyPath.{Key, is_forbidden_property_key}
use perfect_ws.PureRpc.Registry.{
  Registry, Value, object, primitive, Objects, is_builtin, owner_from, owner_of, follow, resolve,
}

module _ (o : Objects) where
  -- The owner is a prototype that is reached from here without passing `Object.prototype` or
  -- `Function.prototype`, and is neither of them.
  pub data Above : Option ℕ → ℕ → Type 0 where
    this : {p : ℕ} → is_builtin o p ≡ false → Above (some p) p
    further :
        {p owner : ℕ}
        → is_builtin o p ≡ false
        → Above (o.prototype_of p) owner
        → Above (some p) owner

  -- The object, or an owner above it, has the property as its own.
  pub record Provides (target : ℕ) (key : Key) : Type 0 where
    pub owner : ℕ
    pub owns : o.has_own owner key ≡ true
    pub place : (owner ≡ target) ⊎ Above (o.prototype_of target) owner

  -- From a receiver and a value, along a path, to another receiver and value.
  pub data Reads : Value → Value → List Key → Value → Value → Type 0 where
    stays : {r v : Value} → Reads r v [] r v
    through :
        {r r' v' : Value} {path : List Key} (target : ℕ) (key : Key)
        → is_forbidden_property_key key ≡ false
        → Provides target key
        → Reads (object target) (o.read target key) path r' v'
        → Reads r (object target) (key ∷ path) r' v'

  owner_from-Above :
      (fuel : ℕ) (visited : List ℕ) (key : Key) (proto : Option ℕ) (owner : ℕ)
      → owner_from o fuel visited key proto ≡ some owner
      → (o.has_own owner key ≡ true) × Above proto owner
  unfolding owner_from
  owner_from-Above zero visited key proto owner h = cc h
  owner_from-Above (suc fuel) visited key none owner h = cc h
  owner_from-Above (suc fuel) visited key (some p) owner h =
      elim (Bool-cases (is_builtin o p || any (λ v. v == p) visited)) [
        | inl b ↦ absurd (ground (arith, h, b))
        | inr b ↦ elim (Bool-cases (o.has_own p key)) [
          | inl own ↦
              let same : p ≡ owner = ground (arith, h, b, own) in
              (
                subst (λ x. o.has_own x key ≡ true) same own,
                subst (Above (some p)) same (this (ground (arith, b))),
              )
          | inr own ↦
              let (owns, above) =
                owner_from-Above fuel (p ∷ visited) key (o.prototype_of p) owner
                  (ground (arith, h, b, own)) in
              (owns, further (ground (arith, b)) above)
        ]
      ]

  owner_of-Provides :
      (fuel target : ℕ) (key : Key) (owner : ℕ)
      → owner_of o fuel target key ≡ some owner
      → Provides target key
  unfolding owner_of
  owner_of-Provides fuel target key owner h = elim (Bool-cases (o.has_own target key)) [
    | inl own ↦ record { owner = target; owns = own; place = inl refl }
    | inr own ↦
        let (owns, above) =
          owner_from-Above fuel [] key (o.prototype_of target) owner (ground (arith, h, own)) in
        record { owner = owner; owns = owns; place = inr above }
  ]

  follow-Reads :
      (fuel : ℕ) (path : List Key) (r v r' v' : Value)
      → follow o fuel path r v ≡ some (r', v')
      → Reads r v path r' v'
  unfolding follow
  follow-Reads fuel [] r v r' v' h =
      subst (λ x. Reads r v [] x v') (ground (arith, h))
        (subst (λ x. Reads r v [] r x) (ground (arith, h)) stays)
  follow-Reads fuel (key ∷ path) r primitive r' v' h = cc h
  follow-Reads fuel (key ∷ path) r (object target) r' v' h =
      elim (Bool-cases (is_forbidden_property_key key)) [
        | inl f ↦ absurd (ground (arith, h, f))
        | inr f ↦ elim (Option-cases (owner_of o fuel target key)) [
          | inl e ↦ absurd (ground (arith, h, f, e))
          | inr (owner, e) ↦ through target key f (owner_of-Provides fuel target key owner e) (
              follow-Reads fuel path (object target) (o.read target key) r' v'
                (ground (arith, h, f, e)))
        ]
      ]

  -- What a resolution gives is read from a registered object along the whole path, never under a
  -- forbidden key, and each time as a property that the object owns or has from a prototype below
  -- `Object.prototype` and `Function.prototype`.
  pub resolve-Reads :
      (fuel : ℕ) (id : String) (path : List Key) (g : Registry) (receiver value : Value)
      → resolve o fuel id path g ≡ some (receiver, value)
      → (root : ℕ) × (get g.by_id id ≡ some root)
        × Reads (object root) (object root) path receiver value
  unfolding resolve
  resolve-Reads fuel id [] g r v h = cc h
  resolve-Reads fuel id (key ∷ path) g r v h = elim (Option-cases (get g.by_id id)) [
    | inl e ↦ absurd (ground (arith, h, e))
    | inr (root, e) ↦ (
      root,
      e,
      follow-Reads fuel (key ∷ path) (object root) (object root) r v (ground (arith, h, e)),
    )
  ]

  -- The chain of prototypes ends after at most so many.
  unfoldable pub EndsIn : ℕ → Option ℕ → Type 0
  EndsIn n none = Unit
  EndsIn zero (some p) = ⊥
  EndsIn (suc n) (some p) = EndsIn n (o.prototype_of p)

  owner_from-fuel :
      (n k : ℕ) (visited : List ℕ) (key : Key) (proto : Option ℕ)
      → EndsIn n proto
      → owner_from o (suc (n + k)) visited key proto ≡ owner_from o (suc n) visited key proto
  unfolding owner_from EndsIn
  owner_from-fuel n k visited key none h = refl
  owner_from-fuel zero k visited key (some p) h = absurd h
  owner_from-fuel (suc n) k visited key (some p) h =
      let more : suc n + k ≡ suc (n + k) = omega arith in
      rw (more, owner_from-fuel n k (p ∷ visited) key (o.prototype_of p) h) refl

  owner_of-fuel :
      (n k target : ℕ) (key : Key)
      → EndsIn n (o.prototype_of target)
      → owner_of o (suc (n + k)) target key ≡ owner_of o (suc n) target key
  unfolding owner_of
  owner_of-fuel n k target key h = rw (owner_from-fuel n k [] key (o.prototype_of target) h) refl

  follow-fuel :
      (n k : ℕ) (path : List Key) (r v : Value)
      → ((p : ℕ) → EndsIn n (o.prototype_of p))
      → follow o (suc (n + k)) path r v ≡ follow o (suc n) path r v
  unfolding follow
  follow-fuel n k [] r v h = refl
  follow-fuel n k (key ∷ path) r primitive h = refl
  follow-fuel n k (key ∷ path) r (object target) h = ground (
    arith,
    follow-fuel n k path (object target) (o.read target key) h,
    owner_of-fuel n k target key (h target),
  )

  -- Where every chain of prototypes ends after at most `n`, a fuel of `n + 1` is enough: with more,
  -- every path gives the same.
  pub resolve-fuel :
      (n k : ℕ) (id : String) (path : List Key) (g : Registry)
      → ((p : ℕ) → EndsIn n (o.prototype_of p))
      → resolve o (suc (n + k)) id path g ≡ resolve o (suc n) id path g
  unfolding resolve
  resolve-fuel n k id [] g h = refl
  resolve-fuel n k id (key ∷ path) g h = elim (Option-cases (get g.by_id id)) [
    | inl e ↦ rw (e, resolve) refl
    | inr (root, e) ↦ rw (e, resolve) (follow-fuel n k (key ∷ path) (object root) (object root) h)
  ]
