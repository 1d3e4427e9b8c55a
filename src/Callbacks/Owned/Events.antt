-- ===== src/Callbacks/Owned/Events.antt =====
-- The commits, rollbacks and releases of a function of this side, and its events.
use perfect_ws.Base.{
  ℕ, Bool, true, false, not, ◌&&◌, Option, none, some, List, [], ◌∷◌, ltb, leb, if◌then◌else◌,
  is_some, or_default, keep_if, ◌==◌, nat_eq, string_eq,
}
use perfect_ws.JsMap.{get, delete}
use perfect_ws.Callbacks.Owned.{
  Entry, of_lease, of_entry, Registration, Owned, fresh, max, max_of, release_owned,
  set_release_handler, is_in_list, serialize,
}

-- Whether the registration's id is still that of the entry.
unfoldable pub is_of : ℕ → Entry → Bool
is_of id e = elim e.func_id [ none ↦ false | some i ↦ i == id ]

-- The lease of a transaction is there: it is set with the registration, and goes with it.
unfoldable pub commit_lease : ℕ → Entry → Entry
commit_lease t e = record e {
  committed_lease = max e.committed_lease (or_default (get e.pending_leases t) 0);
  pending_leases = delete e.pending_leases t;
}

unfoldable pub commit_one : Registration → Owned → Owned
unfolding is_of commit_lease
commit_one r o = elim o.entry [
  | none ↦ o
  | some e ↦
      if is_of r.id e
      then elim r.kind [
        | of_lease ↦ record o { entry = some (commit_lease r.transaction e) }
        | of_entry ↦ record o {
          entry = some (record e { committed = true; pending_transactions = [] });
        }
      ]
      else o
]

unfoldable pub withdraw_lease : ℕ → Entry → Entry
unfolding max_of
withdraw_lease t e =
    let pending = delete e.pending_leases t in
    record e { pending_leases = pending; lease = max_of e.committed_lease pending }

-- `(pendingReleaseLease ?? -1) >= lease && lease > 0`
unfoldable pub is_overdue : Entry → Bool
is_overdue e = elim e.pending_release_lease [
  | none ↦ false
  | some p ↦ leb e.lease p && ltb 0 e.lease
]

unfoldable pub rollback_lease : ℕ → Entry → Owned → Owned
unfolding withdraw_lease is_overdue release_owned
rollback_lease t e o =
    let e' = withdraw_lease t e in
    if is_overdue e' then release_owned e' o else record o { entry = some e' }

unfoldable pub rollback_entry : ℕ → Entry → Owned → Owned
unfolding release_owned
rollback_entry t e o =
    if e.committed then o else elim (keep_if (λ s. not (s == t)) e.pending_transactions) [
      | [] ↦ release_owned e o
      | s ∷ ss ↦ record o { entry = some (record e { pending_transactions = s ∷ ss }) }
    ]

unfoldable pub rollback_one : Registration → Owned → Owned
unfolding is_of rollback_lease rollback_entry
rollback_one r o = elim o.entry [
  | none ↦ o
  | some e ↦
      if is_of r.id e
      then elim r.kind [
        | of_lease ↦ rollback_lease r.transaction e o
        | of_entry ↦ rollback_entry r.transaction e o
      ]
      else o
]

unfoldable pub commit_each : List Registration → Owned → Owned
unfolding commit_one
commit_each [] o = o
commit_each (r ∷ rs) o = commit_each rs (commit_one r o)

-- From the last to the first.
unfoldable pub rollback_each : List Registration → Owned → Owned
unfolding rollback_one
rollback_each [] o = o
rollback_each (r ∷ rs) o = rollback_one r (rollback_each rs o)

unfoldable pub is_in : ℕ → Registration → Bool
is_in t r = r.transaction == t

-- `commit` and `rollback` of the transaction, each only where it is not settled.
unfoldable pub commit : ℕ → Owned → Owned
unfolding commit_each is_in is_in_list
commit t o =
    if is_in_list t o.settled
    then o
    else commit_each (keep_if (is_in t) o.registrations) (record o {
      registrations = keep_if (λ r. not (is_in t r)) o.registrations;
      settled = t ∷ o.settled;
    })

unfoldable pub rollback : ℕ → Owned → Owned
unfolding rollback_each is_in is_in_list
rollback t o =
    if is_in_list t o.settled
    then o
    else rollback_each (keep_if (is_in t) o.registrations) (record o {
      registrations = keep_if (λ r. not (is_in t r)) o.registrations;
      settled = t ∷ o.settled;
      rolled_back = t ∷ o.rolled_back;
    })

-- The release of an entry of which the peer has seen leases up to this one.
unfoldable pub release_seen : ℕ → Entry → Owned → Owned
unfolding release_owned
release_seen seen e o =
    if ltb seen e.lease
    then record o {
      entry = some (record e {
        pending_release_lease = some (max (or_default e.pending_release_lease 0) seen);
      });
    }
    else if ltb e.lease seen
    then o
    else release_owned e o

-- `_onCallbackRelease`
unfoldable pub on_release : (id : ℕ) → Option ℕ → Owned → Owned
unfolding is_of release_seen
on_release id lease o = elim o.entry [
  | none ↦ o
  | some e ↦ if is_of id e then release_seen (or_default lease e.lease) e o else o
]

-- `releaseFunction`
unfoldable pub release_function : Owned → Owned
unfolding release_owned
release_function o = elim o.entry [
  | none ↦ o
  | some e ↦ if is_some e.func_id then release_owned e o else o
]

pub data Event : Type 0 where
  sets_handler : Event
  serializes : (within : Option ℕ) → Event
  commits rolls_back : (transaction : ℕ) → Event
  peer_releases : (id : ℕ) → (lease : Option ℕ) → Event
  releases : Event

unfoldable pub step : Event → Owned → Owned
unfolding set_release_handler serialize commit rollback on_release release_function
step sets_handler o = set_release_handler o
step (serializes within) o = serialize within o
step (commits t) o = commit t o
step (rolls_back t) o = rollback t o
step (peer_releases id lease) o = on_release id lease o
step releases o = release_function o

-- The events, the latest first.
unfoldable pub run : List Event → Owned
unfolding step fresh
run [] = fresh
run (e ∷ es) = step e (run es)
