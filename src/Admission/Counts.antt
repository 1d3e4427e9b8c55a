-- ===== src/Admission/Counts.antt =====
-- How the counts of responses change.
use perfect_ws.Base.{
  ◌≤◌, ◌≡◌, refl, String, Bool, true, false, none, List, [], ◌∷◌, ◌++◌, string_eq, nat_eq, count_if,
  keep_if, arith, Option-cases, inl, inr,
}
use perfect_ws.Admission.{Active, is_response, find_own, find_response}

module _ {ℓ} {A : Type ℓ} where
  pub count_if-keep_if : (p q : A → Bool) (xs : List A) → count_if p (keep_if q xs) ≤ count_if p xs
  count_if-keep_if p q [] = omega arith
  count_if-keep_if p q (x ∷ xs) = ground (arith, count_if-keep_if p q xs)

  pub keep_if-append :
      (p : A → Bool) (xs : List A) (x : A) → p x ≡ false → keep_if p (xs ++ (x ∷ [])) ≡ keep_if p xs
  keep_if-append p [] x e = ground (arith, e)
  keep_if-append p (y ∷ xs) x e = ground (arith, keep_if-append p xs x e)

  -- What only takes away elements that the filter drops leaves the filtered list.
  pub keep_if-keep_if :
      (p q : A → Bool)
      → ((x : A) → p x ≡ true → q x ≡ true)
      → (xs : List A) → keep_if p (keep_if q xs) ≡ keep_if p xs
  keep_if-keep_if p q i [] = refl
  keep_if-keep_if p q i (x ∷ xs) =
      ground (arith, λ (e : p x ≡ true). i x e, keep_if-keep_if p q i xs)

pub find_own-none :
    (client request : String) (active : List Active)
    → find_own client request active ≡ none
    → count_if (is_response client request) active ≡ 0
unfolding find_own
find_own-none client request [] e = refl
find_own-none client request (a ∷ active) e = ground (arith, e, find_own-none client request active)

pub find_response-none :
    (key : String → String → String) (client request : String) (active : List Active)
    → find_response key client request active ≡ none
    → count_if (is_response client request) active ≡ 0
unfolding find_response
find_response-none key client request active e =
    elim (Option-cases (find_own client request active)) [
      | inl f ↦ find_own-none client request active f
      | inr (a, f) ↦ absurd (ground (arith, e, f))
    ]
