-- ===== src/Callbacks/Owned/Seen.antt =====
-- The release that an entry has noted is one that the peer has sent for its id.
use perfect_ws.Base.{
  ℕ, ◌≤◌, inl, inr, Option, none, some, List, [], ◌∷◌, arith, if◌then◌else◌, Option-cases,
  or_default, if_both, keep_if, ◌==◌, nat_eq, string_eq,
}
use perfect_ws.Callbacks.Owned.{
  Entry, Registration, Owned, no_entry, fresh, max, release_owned, set_release_handler, identify,
  register, is_in_list, take_lease, pend, serialize,
}
use perfect_ws.Callbacks.Owned.Events.{
  is_of, commit_lease, commit_one, withdraw_lease, rollback_lease, rollback_entry, rollback_one,
  commit_each, rollback_each, is_in, commit, rollback, release_seen, on_release, release_function,
  Event, sets_handler, serializes, commits, rolls_back, peer_releases, releases, step, run,
}

unfoldable pub saw_in : ℕ → Event → ℕ
saw_in i (peer_releases id (some l)) = if id == i then l else 0
saw_in i other = 0

-- The highest lease of the releases for this id that the peer has sent.
unfoldable pub peer_saw : ℕ → List Event → ℕ
unfolding saw_in
peer_saw i [] = 0
peer_saw i (e ∷ es) = max (saw_in i e) (peer_saw i es)

unfoldable pub id_of : Option Entry → Option ℕ
id_of none = none
id_of (some e) = e.func_id

unfoldable pub noted : Option Entry → ℕ
noted none = 0
noted (some e) = or_default e.pending_release_lease 0

unfoldable pub sent : Option ℕ → List Event → ℕ
unfolding peer_saw
sent none es = 0
sent (some i) es = peer_saw i es

unfoldable pub IsSeen : List Event → Owned → Type 0
unfolding noted sent id_of
IsSeen es o = noted o.entry ≤ sent (id_of o.entry) es

commit_one-IsSeen :
    (es : List Event) (r : Registration) (o : Owned) → IsSeen es o → IsSeen es (commit_one r o)
unfolding commit_one commit_lease IsSeen noted id_of
commit_one-IsSeen es r o s = ground (arith, s)

pub rollback_one-IsSeen :
    (es : List Event) (r : Registration) (o : Owned) → IsSeen es o → IsSeen es (rollback_one r o)
unfolding rollback_one rollback_lease rollback_entry withdraw_lease release_owned IsSeen noted id_of
rollback_one-IsSeen es r o s = ground (arith, s)

serialize-IsSeen :
    (es : List Event) (v : Option ℕ) (o : Owned) → IsSeen es o → IsSeen es (serialize v o)
unfolding serialize register identify no_entry take_lease pend IsSeen noted id_of sent
serialize-IsSeen es v o s = elim (Option-cases v) [
  | inl p ↦ rw p (ground (arith, s))
  | inr (t, p) ↦ rw p (ground (arith, s))
]

commit_each-IsSeen :
    (es : List Event) (rs : List Registration) (o : Owned)
    → IsSeen es o
    → IsSeen es (commit_each rs o)
unfolding commit_each
commit_each-IsSeen es [] o s = s
commit_each-IsSeen es (r ∷ rs) o s =
    commit_each-IsSeen es rs (commit_one r o) (commit_one-IsSeen es r o s)

rollback_each-IsSeen :
    (es : List Event) (rs : List Registration) (o : Owned)
    → IsSeen es o
    → IsSeen es (rollback_each rs o)
unfolding rollback_each
rollback_each-IsSeen es [] o s = s
rollback_each-IsSeen es (r ∷ rs) o s =
    rollback_one-IsSeen es r (rollback_each rs o) (rollback_each-IsSeen es rs o s)

sent-grows : (i : Option ℕ) (ev : Event) (es : List Event) → sent i es ≤ sent i (ev ∷ es)
unfolding sent peer_saw
sent-grows none ev es = omega arith
sent-grows (some i) ev es = ground arith

IsSeen-grows : (ev : Event) (es : List Event) (o : Owned) → IsSeen es o → IsSeen (ev ∷ es) o
unfolding IsSeen
IsSeen-grows ev es o s = omega (arith, s, sent-grows (id_of o.entry) ev es)

on_release-IsSeen :
    (es : List Event) (id : ℕ) (l : Option ℕ) (o : Owned)
    → IsSeen es o
    → IsSeen (peer_releases id l ∷ es) (on_release id l o)
unfolding on_release release_seen release_owned is_of IsSeen noted id_of sent peer_saw saw_in
on_release-IsSeen es id none o s = elim (Option-cases o.entry) [
  | inl p ↦ ground (arith, s, p)
  | inr (e, p) ↦ ground (arith, s, p, nat_eq.same_iff (or_default e.func_id 0) id)
]
on_release-IsSeen es id (some l) o s = elim (Option-cases o.entry) [
  | inl p ↦ ground (arith, s, p)
  | inr (e, p) ↦ elim (Option-cases e.func_id) [
    | inl q ↦ ground (arith, s, p, q)
    | inr (i, q) ↦ ground (arith, s, p, q, nat_eq.same_iff i id, nat_eq.same_iff id i)
  ]
]

commit-IsSeen : (es : List Event) (t : ℕ) (o : Owned) → IsSeen es o → IsSeen es (commit t o)
unfolding commit IsSeen
commit-IsSeen es t o s =
    if_both (IsSeen es) (is_in_list t o.settled) _ _ s
      (commit_each-IsSeen es (keep_if (is_in t) o.registrations) _ s)

rollback-IsSeen : (es : List Event) (t : ℕ) (o : Owned) → IsSeen es o → IsSeen es (rollback t o)
unfolding rollback IsSeen
rollback-IsSeen es t o s =
    if_both (IsSeen es) (is_in_list t o.settled) _ _ s
      (rollback_each-IsSeen es (keep_if (is_in t) o.registrations) _ s)

set_release_handler-IsSeen :
    (es : List Event) (o : Owned) → IsSeen es o → IsSeen es (set_release_handler o)
unfolding set_release_handler no_entry IsSeen noted id_of sent
set_release_handler-IsSeen es o s = ground (arith, s)

release_function-IsSeen :
    (es : List Event) (o : Owned) → IsSeen es o → IsSeen es (release_function o)
unfolding release_function release_owned IsSeen noted id_of
release_function-IsSeen es o s = ground (arith, s)

step-IsSeen :
    (es : List Event) (ev : Event) (o : Owned) → IsSeen es o → IsSeen (ev ∷ es) (step ev o)
unfolding step
step-IsSeen es sets_handler o s = IsSeen-grows _ es _ (set_release_handler-IsSeen es o s)
step-IsSeen es (serializes v) o s = IsSeen-grows _ es _ (serialize-IsSeen es v o s)
step-IsSeen es (commits t) o s = IsSeen-grows _ es _ (commit-IsSeen es t o s)
step-IsSeen es (rolls_back t) o s = IsSeen-grows _ es _ (rollback-IsSeen es t o s)
step-IsSeen es (peer_releases id l) o s = on_release-IsSeen es id l o s
step-IsSeen es releases o s = IsSeen-grows _ es _ (release_function-IsSeen es o s)

pub run-IsSeen : (es : List Event) → IsSeen es (run es)
unfolding run
run-IsSeen [] = unfold fresh IsSeen noted id_of in omega arith
run-IsSeen (ev ∷ es) = step-IsSeen es ev (run es) (run-IsSeen es)
