-- ===== src/PropertyPath/Access.antt =====
-- What a path reads.
use perfect_ws.Base.{
  ◌≡◌, refl, subst, inl, inr, Bool, true, false, ◌&&◌, Option, none, some, List, [], ◌∷◌, map,
  arith, if◌then◌else◌, Bool-cases, Option-cases, nat_eq, string_eq,
}
use perfect_ws.PropertyPath.{
  Text, Key, encode_path_key, split_path, decode_path_key, join, is_forbidden_property_key,
  get_step, get_segments, get_property,
}
use perfect_ws.PropertyPath.RoundTrip.{split_path-join, AreKnown, decode_path_key-encode_path_key}

module _ {V : Type 0} (is_object_like : V → Bool) (has_own : V → Key → Bool)
    (read : V → Key → Option V) where
  -- What an object has as a property of its own.
  abbrev pub own : V → Key → Option V
  own v k = if is_object_like v && has_own v k then read v k else none

  -- Reading own property after own property.
  unfoldable pub follow : V → List Key → Option V
  unfolding own
  follow v [] = some v
  follow v (k ∷ ks) = elim (if is_forbidden_property_key k then none else own v k) [
    | none ↦ none
    | some w ↦ follow w ks
  ]

  -- The value is reached from objects, through properties that they have themselves, under keys that
  -- are all allowed.
  pub data Leads : V → V → Type 0 where
    here : {v : V} → Leads v v
    via :
        {v w u : V} (k : Key)
        → is_forbidden_property_key k ≡ false
        → is_object_like v ≡ true
        → has_own v k ≡ true
        → read v k ≡ some w
        → Leads w u
        → Leads v u

module _ {V : Type 0} (is_object_like : V → Bool) (has_own : V → Key → Bool)
    (read : V → Key → Option V) (known : Text → Option Text) where
  get_segments-follow :
      (v : V) (ks : List Key)
      → AreKnown known ks
      → get_segments is_object_like has_own read known v (map encode_path_key ks)
        ≡ follow is_object_like has_own read v ks
  unfolding get_segments get_step follow
  get_segments-follow v [] h = refl
  get_segments-follow v (k ∷ ks) (h, hs) =
      rw (decode_path_key-encode_path_key known k h, get_segments, get_step, follow)
        (elim (Option-cases
          (if is_forbidden_property_key k then none else own is_object_like has_own read v k)) [
            | inl e ↦ ground (arith, e)
            | inr (w, e) ↦ ground (arith, e, get_segments-follow w ks hs)
          ])

  -- The path that is written for a nonempty list of keys, whose symbols the receiver knows, reads
  -- the own properties under those keys one after another, and reads nothing if one of them is
  -- forbidden or missing.
  pub get_property-follow :
      (v : V) (k : Key) (ks : List Key)
      → AreKnown known (k ∷ ks)
      → get_property is_object_like has_own read known v (join (map encode_path_key (k ∷ ks)))
        ≡ follow is_object_like has_own read v (k ∷ ks)
  unfolding get_property
  get_property-follow v k ks h = rw (split_path-join k ks) (get_segments-follow v (k ∷ ks) h)

  get_step-Leads :
      (v w u : V) (s : Text)
      → get_step is_object_like has_own read known v s ≡ some w
      → Leads is_object_like has_own read w u
      → Leads is_object_like has_own read v u
  unfolding get_step
  get_step-Leads v w u s h l = elim (Option-cases (decode_path_key known s)) [
    | inl e ↦ absurd (ground arith)
    | inr (k, e) ↦ elim (Bool-cases (is_forbidden_property_key k)) [
      | inl f ↦ absurd (ground arith)
      | inr f ↦ via k f (ground arith) (ground arith) (ground arith) l
    ]
  ]

  get_segments-Leads :
      (v u : V) (ss : List Text)
      → get_segments is_object_like has_own read known v ss ≡ some u
      → Leads is_object_like has_own read v u
  unfolding get_segments
  get_segments-Leads v u [] h =
      subst (λ x. Leads is_object_like has_own read v x) (ground arith) here
  get_segments-Leads v u (s ∷ ss) h =
      elim (Option-cases (get_step is_object_like has_own read known v s)) [
        | inl e ↦ absurd (ground arith)
        | inr (w, e) ↦ get_step-Leads v w u s e (get_segments-Leads w u ss (ground arith))
      ]

  -- Whatever a path reads, whoever wrote it, is reached only from objects, through properties that they
  -- have themselves though reading also finds inherited ones, and never under the keys `__proto__`,
  -- `prototype` and `constructor`.
  pub get_property-Leads :
      (v u : V) (path : Text)
      → get_property is_object_like has_own read known v path ≡ some u
      → Leads is_object_like has_own read v u
  unfolding get_property
  get_property-Leads v u path h = get_segments-Leads v u (split_path path) h
