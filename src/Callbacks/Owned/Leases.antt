-- ===== src/Callbacks/Owned/Leases.antt =====
-- The first part of a serialization, the id and the lease, keeps the invariant of a function.
use perfect_ws.Base.{
  All-map, ℕ, suc, ◌<◌, ◌≡◌, refl, ◌≢◌, inl, inr, true, Option, none, some, List, arith,
  Option-cases, or_default, All, nat_eq, string_eq,
}
use perfect_ws.JsMap.{get}
use perfect_ws.Callbacks.Owned.{Entry, Marker, Owned, no_entry, identify, register, take_lease}
use perfect_ws.Callbacks.Owned.Events.{is_of}
use perfect_ws.Callbacks.Owned.Cover.{
  cover, IsBounded, cover-take_lease, take_lease-IsBounded, same_leases-IsBounded,
}
use perfect_ws.Callbacks.Owned.Steps.{lists, is_held, IsKept, IsSound, is_held-keeps_each}

new_id-is_held :
    (next : ℕ) (rolled : List ℕ) (e : Entry) (m : Marker)
    → e.func_id ≡ some next
    → m.marked_id < next
    → is_held rolled e m ≡ true
unfolding is_held is_of
new_id-is_held next rolled e m p q = rw p (ground (arith, q, nat_eq.same_iff next m.marked_id))

-- An entry whose id no marker has holds every marker.
new_id-held :
    (next : ℕ) (rolled : List ℕ) (e : Entry) (ms : List Marker)
    → e.func_id ≡ some next
    → All (λ m. m.marked_id < next) ms
    → All (λ m. is_held rolled e m ≡ true) ms
new_id-held next rolled e ms p a =
    All-map {P = λ m. m.marked_id < next} ms (λ m q. new_id-is_held next rolled e m p q) a

pub no_entry-IsBounded : IsBounded no_entry
unfolding IsBounded cover no_entry get
no_entry-IsBounded none = omega arith
no_entry-IsBounded (some t) = ground arith

-- What the first part of a serialization gives.
pub record IsRegistered (r : Entry × Owned) : Type 0 where
  pub kept : IsKept r.1.next_id r.1.rolled_back r.1.markers r.0
  pub markers_older : All (λ m. m.marked_id < r.1.next_id) r.1.markers
  pub known : (i : ℕ) × (r.0.func_id ≡ some i)

older_suc :
    (n : ℕ) (ms : List Marker) → All (λ m. m.marked_id < n) ms → All (λ m. m.marked_id < suc n) ms
older_suc n ms a = All-map ms (λ m p. omega (arith, p)) a

new_id-IsRegistered :
    (o : Owned) (e : Entry)
    → IsSound o
    → IsBounded e
    → IsRegistered (record e { func_id = some o.next_id }, record o { next_id = suc o.next_id })
new_id-IsRegistered o e s b = record {
  kept = record {
    bounded = same_leases-IsBounded e _ refl refl refl b;
    held = new_id-held o.next_id o.rolled_back _ o.markers refl s.markers_older;
    older = λ i p. let q : o.next_id ≡ i = cc p in omega (arith, q);
  };
  markers_older = older_suc o.next_id o.markers s.markers_older;
  known = (o.next_id, refl);
}

known-IsRegistered :
    (o : Owned) (e : Entry) (i : ℕ)
    → IsSound o
    → IsKept o.next_id o.rolled_back o.markers e
    → e.func_id ≡ some i
    → IsRegistered (e, o)
known-IsRegistered o e i s k q = record {
  kept = k;
  markers_older = s.markers_older;
  known = (i, q);
}

identify-IsRegistered :
    (o : Owned) (e : Entry)
    → IsSound o
    → IsBounded e
    → ((i : ℕ) → e.func_id ≡ some i → IsKept o.next_id o.rolled_back o.markers e)
    → IsRegistered (identify e o)
unfolding identify
identify-IsRegistered o e s b k = elim (Option-cases e.func_id) [
  | inl q ↦ simp q (new_id-IsRegistered o e s b)
  | inr (i, q) ↦ simp q (known-IsRegistered o e i s (k i q) q)
]

pub no_entry-func_id : (i : ℕ) → no_entry.func_id ≢ some i
unfolding no_entry
no_entry-func_id i p = cc p

entry-IsRegistered :
    (x : Option Entry) (o : Owned)
    → o.entry ≡ x
    → IsSound o
    → IsRegistered (identify (or_default x no_entry) o)
entry-IsRegistered none o p s =
    identify-IsRegistered o no_entry s no_entry-IsBounded (λ i q. absurd (no_entry-func_id i q))
entry-IsRegistered (some e) o p s =
    let k = s.kept e p in identify-IsRegistered o e s k.bounded (λ i q. k)

pub register-IsRegistered : (o : Owned) → IsSound o → IsRegistered (register o)
unfolding register
register-IsRegistered o s = entry-IsRegistered o.entry o refl s

take_lease-func_id : (v : Option ℕ) (e : Entry) → (take_lease v e).func_id ≡ e.func_id
unfolding take_lease
take_lease-func_id none e = refl
take_lease-func_id (some t) e = refl

take_lease-lists :
    (v : Option ℕ) (e : Entry) (w : Option ℕ) → lists e w ≡ true → lists (take_lease v e) w ≡ true
unfolding take_lease lists
take_lease-lists none e none h = h
take_lease-lists none e (some s) h = h
take_lease-lists (some t) e none h = h
take_lease-lists (some t) e (some s) h = h

pub take_lease-IsKept :
    (v : Option ℕ) (next : ℕ) (rolled : List ℕ) (ms : List Marker) (e : Entry)
    → IsKept next rolled ms e
    → IsKept next rolled ms (take_lease v e)
take_lease-IsKept v next rolled ms e k = record {
  bounded = take_lease-IsBounded v e k.bounded;
  held =
      is_held-keeps_each rolled e (take_lease v e) ms (take_lease-func_id v e)
        (λ w g. cover-take_lease v e w k.bounded) (λ w g l. take_lease-lists v e w l) k.held;
  older = rw (take_lease-func_id v e) k.older;
}
