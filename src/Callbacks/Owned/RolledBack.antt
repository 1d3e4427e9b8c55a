-- ===== src/Callbacks/Owned/RolledBack.antt =====
-- Rollbacks keep the invariant of a function.
use perfect_ws.Base.{
  ℕ, ◌≤◌, ◌≡◌, refl, sym, ap, subst, ◌≢◌, inl, inr, true, false, not, Option, none, some, List, [],
  ◌∷◌, arith, Bool-cases, Option-cases, if_both, keep_if, All, All-map, ◌==◌, nat_eq, string_eq,
}
use perfect_ws.Callbacks.Owned.{Entry, Registration, Marker, Owned, release_owned, is_in_list}
use perfect_ws.Callbacks.Owned.Events.{
  is_of, withdraw_lease, is_overdue, rollback_lease, rollback_entry, rollback_one, rollback_each,
  is_in, rollback,
}
use perfect_ws.Callbacks.Owned.Cover.{
  IsBounded, cover-withdraw_lease, withdraw_lease-IsBounded, same_leases-cover,
}
use perfect_ws.Callbacks.Owned.Steps.{
  is_gone, lists, is_held, IsKept, IsSound, is_held-keeps_each, replace-IsSound,
  release_owned-IsSound, entry_both, kind_both,
}

not_gone :
    (rolled : List ℕ) (w : Option ℕ) (t : ℕ)
    → is_in_list t rolled ≡ true
    → is_gone rolled w ≡ false
    → w ≢ some t
unfolding is_gone
not_gone rolled none t h g = λ p. cc p
not_gone rolled (some s) t h g = λ p. cc (p, h, g)

withdraw_lease-lists :
    (t : ℕ) (e : Entry) (w : Option ℕ) → lists e w ≡ true → lists (withdraw_lease t e) w ≡ true
unfolding lists withdraw_lease
withdraw_lease-lists t e none h = h
withdraw_lease-lists t e (some s) h = h

pub withdraw_lease-IsKept :
    (t next : ℕ) (rolled : List ℕ) (ms : List Marker) (e : Entry)
    → is_in_list t rolled ≡ true
    → IsKept next rolled ms e
    → IsKept next rolled ms (withdraw_lease t e)
withdraw_lease-IsKept t next rolled ms e h k = record {
  bounded = withdraw_lease-IsBounded t e;
  held =
      is_held-keeps_each rolled e (withdraw_lease t e) ms (unfold withdraw_lease in refl)
        (λ w g. omega (arith, cover-withdraw_lease t e w (not_gone rolled w t h g)))
        (λ w g. withdraw_lease-lists t e w) k.held;
  older = unfold withdraw_lease in k.older;
}

unfoldable pub unlisted : List ℕ → Entry → Entry
unlisted ts e = record e { pending_transactions = ts }

is_in_list-keep :
    (s t : ℕ) (ts : List ℕ)
    → s ≢ t
    → is_in_list s (keep_if (λ j. not (j == t)) ts) ≡ is_in_list s ts
unfolding is_in_list
is_in_list-keep s t [] h = refl
is_in_list-keep s t (j ∷ ts) h =
    ground (arith, is_in_list-keep s t ts h, nat_eq.same_iff j t, nat_eq.same_iff j s, h)

unlisted-lists :
    (t : ℕ) (e : Entry) (w : Option ℕ)
    → w ≢ some t
    → lists e w ≡ true
    → lists (unlisted (keep_if (λ j. not (j == t)) e.pending_transactions) e) w ≡ true
unfolding lists unlisted
unlisted-lists t e none h l = l
unlisted-lists t e (some s) h l =
    rw (is_in_list-keep s t e.pending_transactions (λ p. h (ap some p))) l

pub unlisted-IsKept :
    (t next : ℕ) (rolled : List ℕ) (ms : List Marker) (e : Entry)
    → is_in_list t rolled ≡ true
    → IsKept next rolled ms e
    → IsKept next rolled ms (unlisted (keep_if (λ j. not (j == t)) e.pending_transactions) e)
unfolding unlisted IsBounded
unlisted-IsKept t next rolled ms e h k = record {
  bounded = λ w.
      subst (λ n. n ≤ e.lease)
        (sym (
          same_leases-cover e (unlisted (keep_if (λ j. not (j == t)) e.pending_transactions) e) w
            refl refl))
        (k.bounded w);
  held =
      is_held-keeps_each rolled e _ ms refl
        (λ w g. omega (arith, same_leases-cover e (unlisted _ e) w refl refl))
        (λ w g. unlisted-lists t e w (not_gone rolled w t h g)) k.held;
  older = k.older;
}

transactions_both :
    (P : Owned → Type 0) (ts : List ℕ) (a : Owned) (f : List ℕ → Owned)
    → P a
    → P (f ts)
    → P (elim ts [ [] ↦ a | t ∷ ts ↦ f (t ∷ ts) ])
transactions_both P [] a f p q = p
transactions_both P (t ∷ ts) a f p q = q

rollback_lease-IsSound :
    (t : ℕ) (e : Entry) (o : Owned)
    → o.entry ≡ some e
    → IsSound o
    → is_in_list t o.rolled_back ≡ true
    → IsSound (rollback_lease t e o)
unfolding rollback_lease
rollback_lease-IsSound t e o p s h =
    if_both IsSound (is_overdue (withdraw_lease t e)) _ _
      (release_owned-IsSound (withdraw_lease t e) o s)
      (replace-IsSound o _ s
        (withdraw_lease-IsKept t o.next_id o.rolled_back o.markers e h (s.kept e p)))

rollback_entry-IsSound :
    (t : ℕ) (e : Entry) (o : Owned)
    → o.entry ≡ some e
    → IsSound o
    → is_in_list t o.rolled_back ≡ true
    → IsSound (rollback_entry t e o)
unfolding rollback_entry unlisted
rollback_entry-IsSound t e o p s h = if_both IsSound e.committed _ _ s (
    transactions_both IsSound (keep_if (λ j. not (j == t)) e.pending_transactions) _
      (λ ts. record o { entry = some (unlisted ts e) }) (release_owned-IsSound e o s)
      (replace-IsSound o _ s
        (unlisted-IsKept t o.next_id o.rolled_back o.markers e h (s.kept e p))))

pub rollback_one-IsSound :
    (r : Registration) (o : Owned)
    → IsSound o
    → is_in_list r.transaction o.rolled_back ≡ true
    → IsSound (rollback_one r o)
unfolding rollback_one
rollback_one-IsSound r o s h = entry_both IsSound o.entry o _ s (λ e p.
    if_both IsSound (is_of r.id e) _ _
      (kind_both IsSound r.kind _ _ (rollback_lease-IsSound r.transaction e o p s h)
        (rollback_entry-IsSound r.transaction e o p s h))
      s)

pub rollback_one-rolled_back :
    (r : Registration) (o : Owned) → (rollback_one r o).rolled_back ≡ o.rolled_back
unfolding rollback_one rollback_lease rollback_entry release_owned
rollback_one-rolled_back r o = ground arith

rollback_each-IsSound :
    (t : ℕ) (rs : List Registration) (o : Owned)
    → All (λ r. r.transaction ≡ t) rs
    → IsSound o
    → is_in_list t o.rolled_back ≡ true
    → IsSound (rollback_each rs o) × (is_in_list t (rollback_each rs o).rolled_back ≡ true)
unfolding rollback_each
rollback_each-IsSound t [] o a s h = (s, h)
rollback_each-IsSound t (r ∷ rs) o (p, a) s h =
    let (s', h') = rollback_each-IsSound t rs o a s h in
    (
      rollback_one-IsSound r (rollback_each rs o) s' (rw p h'),
      rw (rollback_one-rolled_back r (rollback_each rs o)) h',
    )

is_in→same : (t : ℕ) (r : Registration) → is_in t r ≡ true → r.transaction ≡ t
unfolding is_in
is_in→same t r h = ground (arith, h, nat_eq.same_iff r.transaction t)

pub keep_if-is_in :
    (t : ℕ) (rs : List Registration) → All (λ r. r.transaction ≡ t) (keep_if (is_in t) rs)
keep_if-is_in t [] = tt
keep_if-is_in t (r ∷ rs) = elim (Bool-cases (is_in t r)) [
  | inl e ↦ rw e (is_in→same t r e, keep_if-is_in t rs)
  | inr e ↦ rw e (keep_if-is_in t rs)
]

is_held-rolled_back :
    (t : ℕ) (rolled : List ℕ) (e : Entry) (m : Marker)
    → is_held rolled e m ≡ true
    → is_held (t ∷ rolled) e m ≡ true
unfolding is_held is_gone is_in_list
is_held-rolled_back t rolled e m h = elim (Option-cases m.within) [
  | inl p ↦ ground (arith, p, h)
  | inr (s, p) ↦ ground (arith, p, h)
]

pub rolled_back-IsKept :
    (t next : ℕ) (rolled : List ℕ) (ms : List Marker) (e : Entry)
    → IsKept next rolled ms e
    → IsKept next (t ∷ rolled) ms e
rolled_back-IsKept t next rolled ms e k = record {
  bounded = k.bounded;
  held = All-map ms (is_held-rolled_back t rolled e) k.held;
  older = k.older;
}

pub rollback-IsSound : (t : ℕ) (o : Owned) → IsSound o → IsSound (rollback t o)
unfolding rollback is_in_list
rollback-IsSound t o s =
    if_both IsSound (is_in_list t o.settled) _ _ s
      (rollback_each-IsSound t (keep_if (is_in t) o.registrations) _
        (keep_if-is_in t o.registrations)
        (record {
          markers_older = s.markers_older;
          kept = λ e p. rolled_back-IsKept t o.next_id o.rolled_back o.markers e (s.kept e p);
        })
        (ground (arith, nat_eq.same_iff t t))).0
