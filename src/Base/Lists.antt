-- ===== src/Base/Lists.antt =====
-- Lists measured by native numbers, under the library's names, and predicates on their elements.
use Prim.Native.Nat.{ℕ, zero, suc, ◌+◌, ◌<◌, ◌≤◌}
use mathlib.Core.Path.{◌≡◌, refl, sym, ap}
use mathlib.Core.Option.{Option, none, some}
use mathlib.Core.Bool.{Bool, false, ◌||◌}
use mathlib.Core.List.{List, [], ◌∷◌, ◌++◌, map}
use native.Mathlib.Omega.{arith}
use perfect_ws.Base.Tests.{if◌then◌else◌}

module _ {ℓ} {A : Type ℓ} where
  abbrev pub length : List A → ℕ
  length [] = 0
  length (x ∷ xs) = suc (length xs)

  pub length-append : (xs ys : List A) → length (xs ++ ys) ≡ length xs + length ys
  length-append [] ys = omega arith
  length-append (x ∷ xs) ys = omega (arith, length-append xs ys)

  -- `xs.filter(p)`.
  abbrev pub keep_if : (A → Bool) → List A → List A
  keep_if p [] = []
  keep_if p (x ∷ xs) = if p x then x ∷ keep_if p xs else keep_if p xs

  -- `xs.filter(p).length`.
  abbrev pub count_if : (A → Bool) → List A → ℕ
  count_if p [] = 0
  count_if p (x ∷ xs) = (if p x then 1 else 0) + count_if p xs

  -- `xs.some(p)`.
  abbrev pub any : (A → Bool) → List A → Bool
  any p [] = false
  any p (x ∷ xs) = p x || any p xs

  abbrev pub All {κ} : (A → Type κ) → List A → Type κ
  All P [] = Unit
  All P (x ∷ xs) = P x × All P xs

  abbrev pub get_elem? : List A → ℕ → Option A
  get_elem? [] i = none
  get_elem? (x ∷ xs) zero = some x
  get_elem? (x ∷ xs) (suc i) = get_elem? xs i

  -- The first list is an initial part of the second.
  abbrev pub IsPrefix : List A → List A → Type ℓ
  IsPrefix [] ys = Unit
  IsPrefix (x ∷ xs) [] = none ≡ some x
  IsPrefix (x ∷ xs) (y ∷ ys) = (x ≡ y) × IsPrefix xs ys

  none_ne_some : (x : A) → ¬ (none ≡ some x)
  none_ne_some x h = cc h

  pub IsPrefix-refl : (xs : List A) → IsPrefix xs xs
  IsPrefix-refl [] = tt
  IsPrefix-refl (x ∷ xs) = (refl, IsPrefix-refl xs)

  pub IsPrefix-append : (xs ys zs : List A) → IsPrefix xs ys → IsPrefix xs (ys ++ zs)
  IsPrefix-append [] ys zs h = tt
  IsPrefix-append (x ∷ xs) [] zs h = absurd (none_ne_some x h)
  IsPrefix-append (x ∷ xs) (y ∷ ys) zs (e, h) = (e, IsPrefix-append xs ys zs h)

  pub get_elem?-IsPrefix :
      (xs ys : List A) (i : ℕ) → IsPrefix xs ys → i < length xs → get_elem? ys i ≡ get_elem? xs i
  get_elem?-IsPrefix [] ys i h l = absurd (omega arith)
  get_elem?-IsPrefix (x ∷ xs) [] i h l = absurd (none_ne_some x h)
  get_elem?-IsPrefix (x ∷ xs) (y ∷ ys) zero (e, h) l = ap some (sym e)
  get_elem?-IsPrefix (x ∷ xs) (y ∷ ys) (suc i) (e, h) l =
      get_elem?-IsPrefix xs ys i h (omega (arith, l))

  pub length-keep_if : (p : A → Bool) (xs : List A) → length (keep_if p xs) ≤ length xs
  length-keep_if p [] = omega arith
  length-keep_if p (x ∷ xs) = ground (arith, length-keep_if p xs)

  pub All-map {κ μ} :
      {P : A → Type κ} {Q : A → Type μ} (xs : List A) → ((x : A) → P x → Q x) → All P xs → All Q xs
  All-map [] f a = tt
  All-map (x ∷ xs) f (h, a) = (f x h, All-map xs f a)

  pub count_if-append :
      (p : A → Bool) (xs ys : List A) → count_if p (xs ++ ys) ≡ count_if p xs + count_if p ys
  count_if-append p [] ys = omega arith
  count_if-append p (x ∷ xs) ys = omega (arith, count_if-append p xs ys)

-- What is counted after each element was paired with the same value.
pub count_if-map {ℓ κ} :
    {A : Type ℓ} {B : Type κ} (p : A → Bool) (b : B) (xs : List A)
    → count_if (λ (x : A × B). p x.0) (map (λ x. (x, b)) xs) ≡ count_if p xs
count_if-map p b [] = refl
count_if-map p b (x ∷ xs) = ap (λ n. (if p x then 1 else 0) + n) (count_if-map p b xs)
