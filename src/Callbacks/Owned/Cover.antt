-- ===== src/Callbacks/Owned/Cover.antt =====
-- What the lease of an entry covers: the leases of committed and of pending serializations.
use perfect_ws.Base.{
  ℕ, ◌+◌, ◌≤◌, ◌≡◌, refl, ◌≢◌, Option, none, some, [], ◌∷◌, arith, or_default, nat_eq, string_eq,
}
use perfect_ws.JsMap.{JsMap, get, delete}
use perfect_ws.JsMap.Laws.{get-set, get-delete}
use perfect_ws.Callbacks.Owned.{Entry, max, max_of, take_lease}
use perfect_ws.Callbacks.Owned.Events.{commit_lease, withdraw_lease}

-- The highest lease that the entry keeps for serializations within this transaction, or none.
unfoldable pub cover : Entry → Option ℕ → ℕ
cover e none = e.committed_lease
cover e (some t) = max e.committed_lease (or_default (get e.pending_leases t) 0)

unfoldable pub IsBounded : Entry → Type 0
unfolding cover
IsBounded e = (w : Option ℕ) → cover e w ≤ e.lease

max-le_left : (a b : ℕ) → a ≤ max a b
max-le_left a b = ground arith

pub cover-take_lease :
    (v : Option ℕ) (e : Entry) (w : Option ℕ) → IsBounded e → cover e w ≤ cover (take_lease v e) w
unfolding cover take_lease IsBounded
cover-take_lease none e none h = let b = h none in ground (arith, b)
cover-take_lease none e (some t) h = let b = h none in let c = h (some t) in ground (arith, b, c)
cover-take_lease (some t) e none h = ground arith
cover-take_lease (some t) e (some s) h =
    let c = h (some s) in rw (get-set e.pending_leases t s (e.lease + 1)) (ground (arith, c))

pub take_lease-cover : (v : Option ℕ) (e : Entry) → e.lease + 1 ≤ cover (take_lease v e) v
unfolding cover take_lease
take_lease-cover none e = ground arith
take_lease-cover (some t) e =
    ground (arith, get-set e.pending_leases t t (e.lease + 1), nat_eq.same_iff t t)

pub take_lease-IsBounded : (v : Option ℕ) (e : Entry) → IsBounded e → IsBounded (take_lease v e)
unfolding cover take_lease IsBounded
take_lease-IsBounded none e h none = ground arith
take_lease-IsBounded none e h (some s) = let c = h (some s) in ground (arith, c)
take_lease-IsBounded (some t) e h none = let c = h none in ground (arith, c)
take_lease-IsBounded (some t) e h (some s) =
    let c = h (some s) in rw (get-set e.pending_leases t s (e.lease + 1)) (ground (arith, c))

pub cover-commit_lease : (t : ℕ) (e : Entry) (w : Option ℕ) → cover e w ≤ cover (commit_lease t e) w
unfolding cover commit_lease
cover-commit_lease t e none = ground arith
cover-commit_lease t e (some s) =
    rw (get-delete e.pending_leases t s) (ground (arith, nat_eq.same_iff t s))

pub commit_lease-IsBounded : (t : ℕ) (e : Entry) → IsBounded e → IsBounded (commit_lease t e)
unfolding cover commit_lease IsBounded
commit_lease-IsBounded t e h none = let b = h (some t) in ground (arith, b)
commit_lease-IsBounded t e h (some s) =
    let b = h (some t) in
    let c = h (some s) in
    rw (get-delete e.pending_leases t s) (ground (arith, b, c, nat_eq.same_iff t s))

pub cover-withdraw_lease :
    (t : ℕ) (e : Entry) (w : Option ℕ) → w ≢ some t → cover (withdraw_lease t e) w ≡ cover e w
unfolding cover withdraw_lease
cover-withdraw_lease t e none h = refl
cover-withdraw_lease t e (some s) h =
    rw (get-delete e.pending_leases t s) (ground (arith, h, nat_eq.same_iff t s))

max_of-base : (n : ℕ) (m : JsMap ℕ ℕ) → n ≤ max_of n m
unfolding max_of
max_of-base n [] = omega arith
max_of-base n ((t, l) ∷ m) = ground (arith, max_of-base n m)

get-max_of : (n : ℕ) (m : JsMap ℕ ℕ) (t : ℕ) → or_default (get m t) 0 ≤ max_of n m
unfolding max_of get
get-max_of n [] t = omega arith
get-max_of n ((s, l) ∷ m) t = ground (arith, get-max_of n m t)

pub withdraw_lease-IsBounded : (t : ℕ) (e : Entry) → IsBounded (withdraw_lease t e)
unfolding cover withdraw_lease IsBounded
withdraw_lease-IsBounded t e none = max_of-base e.committed_lease (delete e.pending_leases t)
withdraw_lease-IsBounded t e (some s) = ground (
  arith,
  max_of-base e.committed_lease (delete e.pending_leases t),
  get-max_of e.committed_lease (delete e.pending_leases t) s,
)

pub same_leases-cover :
    (e e' : Entry) (w : Option ℕ)
    → e'.committed_lease ≡ e.committed_lease
    → e'.pending_leases ≡ e.pending_leases
    → cover e' w ≡ cover e w
same_leases-cover e e' none p q = unfold cover in p
same_leases-cover e e' (some t) p q = unfold cover in cc (p, q)

pub same_leases-IsBounded :
    (e e' : Entry)
    → e'.committed_lease ≡ e.committed_lease
    → e'.pending_leases ≡ e.pending_leases
    → e'.lease ≡ e.lease
    → IsBounded e
    → IsBounded e'
unfolding IsBounded
same_leases-IsBounded e e' p q l b w = omega (arith, same_leases-cover e e' w p q, l, b w)
