-- ===== src/Callbacks/Owned/Keeps.antt =====
-- Commits keep the invariant of a function.
use perfect_ws.Base.{
  ℕ, ◌≤◌, ◌≡◌, refl, sym, subst, true, Option, none, some, List, [], ◌∷◌, arith, if_both, keep_if,
  nat_eq, string_eq,
}
use perfect_ws.Callbacks.Owned.{Entry, Registration, Marker, Owned, is_in_list}
use perfect_ws.Callbacks.Owned.Events.{is_of, commit_lease, commit_one, commit_each, is_in, commit}
use perfect_ws.Callbacks.Owned.Cover.{
  IsBounded, cover-commit_lease, commit_lease-IsBounded, same_leases-cover,
}
use perfect_ws.Callbacks.Owned.Steps.{
  lists, IsKept, IsSound, is_held-keeps_each, replace-IsSound, entry_both, kind_both,
}

commit_lease-IsKept :
    (t next : ℕ) (rolled : List ℕ) (ms : List Marker) (e : Entry)
    → IsKept next rolled ms e
    → IsKept next rolled ms (commit_lease t e)
commit_lease-IsKept t next rolled ms e k = record {
  bounded = commit_lease-IsBounded t e k.bounded;
  held =
      is_held-keeps_each rolled e (commit_lease t e) ms (unfold commit_lease in refl)
        (λ w g. cover-commit_lease t e w) (λ w g l. unfold commit_lease lists in ground arith)
        k.held;
  older = unfold commit_lease in k.older;
}

unfoldable committed_entry : Entry → Entry
committed_entry e = record e { committed = true; pending_transactions = [] }

committed_entry-lists : (e : Entry) (w : Option ℕ) → lists (committed_entry e) w ≡ true
unfolding lists committed_entry
committed_entry-lists e none = refl
committed_entry-lists e (some t) = refl

committed_entry-IsKept :
    (next : ℕ) (rolled : List ℕ) (ms : List Marker) (e : Entry)
    → IsKept next rolled ms e
    → IsKept next rolled ms (committed_entry e)
committed_entry-IsKept next rolled ms e k = record {
  bounded =
      unfold IsBounded committed_entry in
      λ w.
        subst (λ n. n ≤ e.lease) (sym (same_leases-cover e (committed_entry e) w refl refl))
          (k.bounded w);
  held =
      is_held-keeps_each rolled e (committed_entry e) ms (unfold committed_entry in refl)
        (λ w g.
          unfold committed_entry in
          omega (arith, same_leases-cover e (committed_entry e) w refl refl))
        (λ w g l. committed_entry-lists e w) k.held;
  older = unfold committed_entry in k.older;
}

commit_one-IsSound : (r : Registration) (o : Owned) → IsSound o → IsSound (commit_one r o)
unfolding commit_one committed_entry
commit_one-IsSound r o s = entry_both IsSound o.entry o _ s (λ e p.
    if_both IsSound (is_of r.id e) _ _
      (kind_both IsSound r.kind _ _
        (replace-IsSound o _ s
          (commit_lease-IsKept r.transaction o.next_id o.rolled_back o.markers e (s.kept e p)))
        (replace-IsSound o _ s
          (committed_entry-IsKept o.next_id o.rolled_back o.markers e (s.kept e p))))
      s)

commit_each-IsSound : (rs : List Registration) (o : Owned) → IsSound o → IsSound (commit_each rs o)
unfolding commit_each
commit_each-IsSound [] o s = s
commit_each-IsSound (r ∷ rs) o s =
    commit_each-IsSound rs (commit_one r o) (commit_one-IsSound r o s)

pub commit-IsSound : (t : ℕ) (o : Owned) → IsSound o → IsSound (commit t o)
unfolding commit
commit-IsSound t o s = if_both IsSound (is_in_list t o.settled) _ _ s (
    commit_each-IsSound (keep_if (is_in t) o.registrations) _
      (record { markers_older = s.markers_older; kept = s.kept }))
