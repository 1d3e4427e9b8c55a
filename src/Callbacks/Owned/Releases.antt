-- ===== src/Callbacks/Owned/Releases.antt =====
-- What takes a function out of the tables.
use perfect_ws.Base.{
  All-map, ℕ, ◌≤◌, ◌≡◌, refl, sym, subst, ◌∙◌, ◌⊎◌, inl, inr, Bool, true, false, not, Option, none,
  some, List, [], ◌∷◌, arith, ltb, Bool-cases, Option-cases, if_both, keep_if, All, nat_eq,
  string_eq,
}
use perfect_ws.Callbacks.Owned.{
  Entry, Registration, Marker, Owned, no_entry, release_owned, set_release_handler, identify,
  register, is_in_list, take_lease, pend, serialize,
}
use perfect_ws.Callbacks.Owned.Events.{
  is_of, commit_lease, commit_one, commit_each, rollback_each, is_in, commit, rollback,
  release_seen, on_release, Event, sets_handler, serializes, commits, rolls_back, peer_releases,
  releases, step, run,
}
use perfect_ws.Callbacks.Owned.Steps.{IsSound, entry_both}
use perfect_ws.Callbacks.Owned.RolledBack.{keep_if-is_in, rolled_back-IsKept}
use perfect_ws.Callbacks.Owned.Safety.{run-IsSound}
use perfect_ws.Callbacks.Owned.Seen.{saw_in, peer_saw, id_of, IsSeen, run-IsSeen}
use perfect_ws.Callbacks.Owned.Accounted.{
  accounted, Stays, overdue-accounted, bounded-le, func_id-of, rollback_each-IsRolling,
}

commit_one-id : (r : Registration) (o : Owned) → id_of (commit_one r o).entry ≡ id_of o.entry
unfolding commit_one commit_lease id_of
commit_one-id r o = ground arith

commit_each-id :
    (rs : List Registration) (o : Owned) → id_of (commit_each rs o).entry ≡ id_of o.entry
unfolding commit_each
commit_each-id [] o = refl
commit_each-id (r ∷ rs) o = commit_each-id rs (commit_one r o) ∙ commit_one-id r o

commit-id : (t : ℕ) (o : Owned) → id_of (commit t o).entry ≡ id_of o.entry
unfolding commit
commit-id t o =
    if_both (λ (x : Owned). id_of x.entry ≡ id_of o.entry) (is_in_list t o.settled) _ _ refl
      (commit_each-id (keep_if (is_in t) o.registrations) _)

serialize-id :
    (v : Option ℕ) (i : ℕ) (o : Owned)
    → id_of o.entry ≡ some i
    → id_of (serialize v o).entry ≡ some i
unfolding serialize register identify no_entry take_lease pend id_of
serialize-id v i o h = elim (Option-cases v) [
  | inl p ↦ rw p (ground (arith, h))
  | inr (t, p) ↦ rw p (ground (arith, h))
]

set_release_handler-id :
    (i : ℕ) (o : Owned) → id_of o.entry ≡ some i → id_of (set_release_handler o).entry ≡ some i
unfolding set_release_handler no_entry id_of
set_release_handler-id i o h = ground (arith, h)

lease-le :
    (es : List Event) (i l : ℕ) (e : Entry)
    → ltb l e.lease ≡ false
    → e.lease ≤ peer_saw i (peer_releases i (some l) ∷ es)
unfolding peer_saw saw_in
lease-le es i l e c = ground (arith, c, nat_eq.same_iff i i)

release_seen-Stays :
    (es : List Event) (i l : ℕ) (e : Entry) (o : Owned)
    → IsSound o
    → o.entry ≡ some e
    → e.func_id ≡ some i
    → Stays i
        (peer_saw i (peer_releases i (some l) ∷ es))
        o.rolled_back
        o.markers
        (release_seen l e o)
unfolding release_seen
release_seen-Stays es i l e o s p q =
    let k = s.kept e p in
    elim (Bool-cases (ltb l e.lease)) [
      | inl c ↦ rw c (inl (unfold id_of in q))
      | inr c ↦ inr (
          All-map o.markers
            (λ m x.
              overdue-accounted i _ o.rolled_back e m q
                (bounded-le e _ m.within k.bounded (lease-le es i l e c)) x)
            k.held)
    ]

is_of→same : (id i : ℕ) (e : Entry) → is_of id e ≡ true → e.func_id ≡ some i → i ≡ id
unfolding is_of
is_of→same id i e h p = ground (arith, h, p, nat_eq.same_iff i id)

on_release-Stays :
    (es : List Event) (id i l : ℕ) (o : Owned)
    → IsSound o
    → id_of o.entry ≡ some i
    → Stays i
        (peer_saw i (peer_releases id (some l) ∷ es))
        o.rolled_back
        o.markers
        (on_release id (some l) o)
unfolding on_release
on_release-Stays es id i l o s x =
    let P = Stays i (peer_saw i (peer_releases id (some l) ∷ es)) o.rolled_back o.markers in
    entry_both P o.entry o _ (inl x) (λ e p.
      let q = func_id-of o e i x p in
      elim (Bool-cases (is_of id e)) [
        | inl c ↦ rw c (
            subst
              (λ (j : ℕ).
                Stays i (peer_saw i (peer_releases j (some l) ∷ es)) o.rolled_back o.markers
                  (release_seen l e o))
              (is_of→same id i e c q) (release_seen-Stays es i l e o s p q))
        | inr c ↦ rw c (inl x)
      ])

on_release-rolled_back :
    (id : ℕ) (l : Option ℕ) (o : Owned) → (on_release id l o).rolled_back ≡ o.rolled_back
unfolding on_release release_seen release_owned
on_release-rolled_back id l o = ground arith

peer_saw-grows : (i : ℕ) (ev : Event) (es : List Event) → peer_saw i es ≤ peer_saw i (ev ∷ es)
unfolding peer_saw
peer_saw-grows i ev es = ground arith

accounted-grows :
    (i n n' : ℕ) (rolled : List ℕ) (m : Marker)
    → n ≤ n'
    → accounted i n rolled m ≡ true
    → accounted i n' rolled m ≡ true
unfolding accounted
accounted-grows i n n' rolled m h a = ground (arith, h, a)

start-IsSound :
    (t : ℕ) (rs : List Registration) (ts : List ℕ) (o : Owned)
    → IsSound o
    → IsSound (record o { registrations = rs; settled = ts; rolled_back = t ∷ o.rolled_back })
start-IsSound t rs ts o s = record {
  markers_older = s.markers_older;
  kept = λ e p. rolled_back-IsKept t o.next_id o.rolled_back o.markers e (s.kept e p);
}

rollback-Stays :
    (es : List Event) (t i : ℕ) (o : Owned)
    → IsSound o
    → IsSeen es o
    → id_of o.entry ≡ some i
    → Stays i (peer_saw i es) (rollback t o).rolled_back o.markers (rollback t o)
unfolding rollback is_in_list IsSeen
rollback-Stays es t i o s n x = elim (Bool-cases (is_in_list t o.settled)) [
  | inl c ↦ rw c (inl x)
  | inr c ↦
      let rs = keep_if (is_in t) o.registrations in
      let start : Owned = record o {
        registrations = keep_if (λ r. not (is_in t r)) o.registrations;
        settled = t ∷ o.settled;
        rolled_back = t ∷ o.rolled_back;
      } in
      let g =
        rollback_each-IsRolling es t i start rs start (keep_if-is_in t o.registrations) (record {
          sound = start-IsSound t _ _ o s;
          seen = n;
          rolling = ground (arith, nat_eq.same_iff t t);
          same_markers = refl;
          same_rolled_back = refl;
          stays = inl x;
        }) in
      rw c (
        subst (λ (ts : List ℕ). Stays i (peer_saw i es) ts o.markers (rollback_each rs start))
          (sym g.same_rolled_back) g.stays)
]

-- Neither a release by the application, nor one in which the peer names no lease.
unfoldable pub names_lease : Event → Bool
names_lease releases = false
names_lease (peer_releases id none) = false
names_lease other = true

-- After any events, an event that is neither a release by the application nor a release without a
-- lease leaves the function under its id, or else each marker that was made for the id has a
-- transaction that was rolled back, or a lease that a release of the peer for that id has reached.
pub step-release :
    (es : List Event) (ev : Event) (i : ℕ)
    → names_lease ev ≡ true
    → id_of (run es).entry ≡ some i
    → (id_of (step ev (run es)).entry ≡ some i)
      ⊎ All
          (λ m. accounted i (peer_saw i (ev ∷ es)) (step ev (run es)).rolled_back m ≡ true)
          (run es).markers
unfolding step names_lease
step-release es sets_handler i h x = inl (set_release_handler-id i (run es) x)
step-release es (serializes v) i h x = inl (serialize-id v i (run es) x)
step-release es (commits t) i h x = inl (commit-id t (run es) ∙ x)
step-release es (rolls_back t) i h x =
    elim (rollback-Stays es t i (run es) (run-IsSound es) (run-IsSeen es) x) [
      | inl y ↦ inl y
      | inr a ↦ inr (
          All-map (run es).markers
            (λ m. accounted-grows i _ _ _ m (peer_saw-grows i (rolls_back t) es)) a)
    ]
step-release es (peer_releases id none) i h x = absurd (ground (arith, h))
step-release es (peer_releases id (some l)) i h x =
    rw (on_release-rolled_back id (some l) (run es))
      (on_release-Stays es id i l (run es) (run-IsSound es) x)
step-release es releases i h x = absurd (ground (arith, h))
