-- ===== src/Callbacks/Owned/Serialized.antt =====
-- Every event, a serialization first of all, keeps the invariant of a function.
use perfect_ws.Base.{
  ℕ, ◌+◌, ◌≡◌, refl, subst, true, ◌||◌, Option, none, some, List, [], ◌∷◌, ◌++◌, arith, or_default,
  if_both, ◌==◌, nat_eq, string_eq,
}
use perfect_ws.Callbacks.Owned.{
  Entry, of_lease, of_entry, Registration, Marker, Owned, register, is_in_list, needs, refuses,
  take_lease, pend, serialize,
}
use perfect_ws.Callbacks.Owned.Cover.{take_lease-cover, same_leases-cover, same_leases-IsBounded}
use perfect_ws.Callbacks.Owned.Steps.{lists, is_held, IsKept, IsSound, is_held-keeps_each}
use perfect_ws.Callbacks.Owned.Leases.{IsRegistered, register-IsRegistered, take_lease-IsKept}

is_in_list-append :
    (s t : ℕ) (ts : List ℕ) → is_in_list s (ts ++ (t ∷ [])) ≡ is_in_list s ts || (t == s)
unfolding is_in_list
is_in_list-append s t [] = ground arith
is_in_list-append s t (r ∷ ts) = ground (arith, is_in_list-append s t ts)

-- What `pend` leaves of the entry.
pub record IsPended (e e' : Entry) : Type 0 where
  pub same_func_id : e'.func_id ≡ e.func_id
  pub same_committed_lease : e'.committed_lease ≡ e.committed_lease
  pub same_pending_leases : e'.pending_leases ≡ e.pending_leases
  pub same_lease : e'.lease ≡ e.lease

pend-IsPended : (v : Option ℕ) (e : Entry) → IsPended e (pend v e)
unfolding pend
pend-IsPended none e = record {
  same_func_id = refl;
  same_committed_lease = refl;
  same_pending_leases = refl;
  same_lease = refl;
}
pend-IsPended (some t) e =
    if_both (IsPended e) (needs of_entry t e) _ _
      (record {
        same_func_id = refl;
        same_committed_lease = refl;
        same_pending_leases = refl;
        same_lease = refl;
      })
      (record {
        same_func_id = refl;
        same_committed_lease = refl;
        same_pending_leases = refl;
        same_lease = refl;
      })

pend-lists :
    (v : Option ℕ) (e : Entry) (w : Option ℕ) → lists e w ≡ true → lists (pend v e) w ≡ true
unfolding pend lists needs
pend-lists none e none h = refl
pend-lists none e (some s) h = refl
pend-lists (some t) e none h = ground arith
pend-lists (some t) e (some s) h = ground (arith, h, is_in_list-append s t e.pending_transactions)

pend-lists_self : (v : Option ℕ) (e : Entry) → lists (pend v e) v ≡ true
unfolding pend lists needs
pend-lists_self none e = refl
pend-lists_self (some t) e =
    ground (arith, is_in_list-append t t e.pending_transactions, nat_eq.same_iff t t)

pend-IsKept :
    (v : Option ℕ) (next : ℕ) (rolled : List ℕ) (ms : List Marker) (e : Entry)
    → IsKept next rolled ms e
    → IsKept next rolled ms (pend v e)
pend-IsKept v next rolled ms e k =
    let p = pend-IsPended v e in
    record {
      bounded =
          same_leases-IsBounded e (pend v e) p.same_committed_lease p.same_pending_leases
            p.same_lease k.bounded;
      held =
          is_held-keeps_each rolled e (pend v e) ms p.same_func_id
            (λ w g. omega (
              arith,
              same_leases-cover e (pend v e) w p.same_committed_lease p.same_pending_leases,
            ))
            (λ w g l. pend-lists v e w l) k.held;
      older = rw p.same_func_id k.older;
    }

take_lease-lease : (v : Option ℕ) (e : Entry) → (take_lease v e).lease ≡ e.lease + 1
unfolding take_lease
take_lease-lease none e = refl
take_lease-lease (some t) e = refl

-- The marker of a serialization is held by the entry that the serialization leaves.
marker-is_held :
    (v : Option ℕ) (rolled : List ℕ) (e : Entry) (id : ℕ)
    → is_held rolled
        (pend v (take_lease v e))
        (record { marked_id = id; marked_lease = (take_lease v e).lease; within = v })
      ≡ true
unfolding is_held
marker-is_held v rolled e id =
    let p = pend-IsPended v (take_lease v e) in
    let same =
      same_leases-cover (take_lease v e) (pend v (take_lease v e)) v p.same_committed_lease
        p.same_pending_leases in
    ground
      (arith, same, take_lease-cover v e, take_lease-lease v e, pend-lists_self v (take_lease v e))

place-IsSound :
    (r : Entry × Owned) (e : Entry)
    → IsRegistered r
    → IsKept r.1.next_id r.1.rolled_back r.1.markers e
    → IsSound (record r.1 { entry = some e })
place-IsSound r e g k = record {
  markers_older = g.markers_older;
  kept = λ e' p. subst (IsKept r.1.next_id r.1.rolled_back r.1.markers) (cc p) k;
}

mark-IsSound :
    (v : Option ℕ) (r : Entry × Owned) (rs : List Registration)
    → IsRegistered r
    → IsKept r.1.next_id r.1.rolled_back r.1.markers (pend v (take_lease v r.0))
    → IsSound (record r.1 {
      entry = some (pend v (take_lease v r.0));
      registrations = rs;
      markers =
          record {
            marked_id = or_default r.0.func_id 0;
            marked_lease = (take_lease v r.0).lease;
            within = v;
          }
          ∷ r.1.markers;
    })
mark-IsSound v r rs g k =
    let (i, p) = g.known in
    let id = or_default r.0.func_id 0 in
    let m : Marker = record {
      marked_id = id;
      marked_lease = (take_lease v r.0).lease;
      within = v;
    } in
    record {
      markers_older = (simp p (g.kept.older i p), g.markers_older);
      kept = λ e q. subst (IsKept r.1.next_id r.1.rolled_back (m ∷ r.1.markers)) (cc q) (record {
        bounded = k.bounded;
        held = (marker-is_held v r.1.rolled_back r.0 id, k.held);
        older = k.older;
      });
    }

pub serialize-IsSound : (v : Option ℕ) (o : Owned) → IsSound o → IsSound (serialize v o)
unfolding serialize
serialize-IsSound v o s =
    let r = register o in
    let g = register-IsRegistered o s in
    let leased = take_lease-IsKept v r.1.next_id r.1.rolled_back r.1.markers r.0 g.kept in
    let pended = pend-IsKept v r.1.next_id r.1.rolled_back r.1.markers (take_lease v r.0) leased in
    if_both IsSound (refuses of_lease v r.0 o) _ _ (place-IsSound r _ g leased) (
      if_both IsSound (refuses of_entry v (take_lease v r.0) o) _ _ (place-IsSound r _ g pended)
        (mark-IsSound v r _ g pended))

-- An entry that changes neither its id nor its leases nor what it stands for is kept.
pub same-IsKept :
    (next : ℕ) (rolled : List ℕ) (ms : List Marker) (e e' : Entry)
    → IsPended e e'
    → ((w : Option ℕ) → lists e' w ≡ lists e w)
    → IsKept next rolled ms e
    → IsKept next rolled ms e'
same-IsKept next rolled ms e e' p l k = record {
  bounded =
      same_leases-IsBounded e e' p.same_committed_lease p.same_pending_leases p.same_lease
        k.bounded;
  held =
      is_held-keeps_each rolled e e' ms p.same_func_id
        (λ w g.
          omega (arith, same_leases-cover e e' w p.same_committed_lease p.same_pending_leases))
        (λ w g h. rw (l w) h) k.held;
  older = rw p.same_func_id k.older;
}

pub same_lists :
    (e e' : Entry) (w : Option ℕ)
    → e'.committed ≡ e.committed
    → e'.pending_transactions ≡ e.pending_transactions
    → lists e' w ≡ lists e w
unfolding lists
same_lists e e' none p q = p
same_lists e e' (some t) p q = cc (p, q)
