-- ===== src/Callbacks/Owned/Safety.antt =====
-- A function goes only when the peer has seen the lease of every marker that still stands.
use perfect_ws.Base.{
  ℕ, ◌≡◌, refl, true, Option, none, some, List, [], ◌∷◌, ltb, is_some, or_default, if_both, All,
  nat_eq, string_eq,
}
use perfect_ws.Callbacks.Owned.{Entry, Marker, Owned, no_entry, fresh, set_release_handler}
use perfect_ws.Callbacks.Owned.Events.{
  is_of, release_seen, on_release, release_function, Event, sets_handler, serializes, commits,
  rolls_back, peer_releases, releases, step, run,
}
use perfect_ws.Callbacks.Owned.Steps.{
  is_held, IsKept, IsSound, replace-IsSound, release_owned-IsSound, entry_both,
}
use perfect_ws.Callbacks.Owned.Keeps.{commit-IsSound}
use perfect_ws.Callbacks.Owned.RolledBack.{rollback-IsSound}
use perfect_ws.Callbacks.Owned.Leases.{no_entry-IsBounded, no_entry-func_id}
use perfect_ws.Callbacks.Owned.Serialized.{serialize-IsSound, same-IsKept, same_lists}

no_entry-held :
    (rolled : List ℕ) (ms : List Marker) → All (λ m. is_held rolled no_entry m ≡ true) ms
no_entry-held rolled [] = tt
no_entry-held rolled (m ∷ ms) = (unfold no_entry is_held is_of in refl, no_entry-held rolled ms)

no_entry-IsKept : (next : ℕ) (rolled : List ℕ) (ms : List Marker) → IsKept next rolled ms no_entry
no_entry-IsKept next rolled ms = record {
  bounded = no_entry-IsBounded;
  held = no_entry-held rolled ms;
  older = λ i p. absurd (no_entry-func_id i p);
}

handled-IsKept :
    (next : ℕ) (rolled : List ℕ) (ms : List Marker) (e : Entry)
    → IsKept next rolled ms e
    → IsKept next rolled ms (record e { has_release_handler = true })
handled-IsKept next rolled ms e k =
    same-IsKept next rolled ms e _
      (record {
        same_func_id = refl;
        same_committed_lease = refl;
        same_pending_leases = refl;
        same_lease = refl;
      })
      (λ w. same_lists e _ w refl refl) k

handled-IsSound :
    (x : Option Entry) (o : Owned)
    → o.entry ≡ x
    → IsSound o
    → IsSound
        (record o { entry = some (record (or_default x no_entry) { has_release_handler = true }) })
handled-IsSound none o p s = replace-IsSound o _ s (
    handled-IsKept o.next_id o.rolled_back o.markers no_entry
      (no_entry-IsKept o.next_id o.rolled_back o.markers))
handled-IsSound (some e) o p s =
    replace-IsSound o _ s (handled-IsKept o.next_id o.rolled_back o.markers e (s.kept e p))

set_release_handler-IsSound : (o : Owned) → IsSound o → IsSound (set_release_handler o)
unfolding set_release_handler
set_release_handler-IsSound o s = handled-IsSound o.entry o refl s

release_seen-IsSound :
    (n : ℕ) (e : Entry) (o : Owned) → o.entry ≡ some e → IsSound o → IsSound (release_seen n e o)
unfolding release_seen
release_seen-IsSound n e o p s =
    if_both IsSound (ltb n e.lease) _ _
      (replace-IsSound o _ s (
        same-IsKept o.next_id o.rolled_back o.markers e _
          (record {
            same_func_id = refl;
            same_committed_lease = refl;
            same_pending_leases = refl;
            same_lease = refl;
          })
          (λ w. same_lists e _ w refl refl) (s.kept e p)))
      (if_both IsSound (ltb e.lease n) _ _ s (release_owned-IsSound e o s))

on_release-IsSound : (id : ℕ) (l : Option ℕ) (o : Owned) → IsSound o → IsSound (on_release id l o)
unfolding on_release
on_release-IsSound id l o s = entry_both IsSound o.entry o _ s (λ e p.
    if_both IsSound (is_of id e) _ _ (release_seen-IsSound (or_default l e.lease) e o p s) s)

release_function-IsSound : (o : Owned) → IsSound o → IsSound (release_function o)
unfolding release_function
release_function-IsSound o s =
    entry_both IsSound o.entry o _ s
      (λ e p. if_both IsSound (is_some e.func_id) _ _ (release_owned-IsSound e o s) s)

step-IsSound : (ev : Event) (o : Owned) → IsSound o → IsSound (step ev o)
unfolding step
step-IsSound sets_handler o s = set_release_handler-IsSound o s
step-IsSound (serializes v) o s = serialize-IsSound v o s
step-IsSound (commits t) o s = commit-IsSound t o s
step-IsSound (rolls_back t) o s = rollback-IsSound t o s
step-IsSound (peer_releases id l) o s = on_release-IsSound id l o s
step-IsSound releases o s = release_function-IsSound o s

pub run-IsSound : (es : List Event) → IsSound (run es)
unfolding run
run-IsSound [] = unfold fresh in record { markers_older = tt; kept = λ e p. absurd (cc p) }
run-IsSound (ev ∷ es) = step-IsSound ev (run es) (run-IsSound es)
