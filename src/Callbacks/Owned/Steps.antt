-- ===== src/Callbacks/Owned/Steps.antt =====
-- The invariant of a function: its entry covers each marker that names it, unless the marker's
-- transaction was rolled back; and every operation keeps it.
use perfect_ws.Base.{
  All-map, ℕ, ◌≤◌, ◌<◌, ◌≡◌, refl, subst, Bool, true, false, not, ◌&&◌, ◌||◌, Option, none, some,
  List, arith, leb, All, nat_eq, string_eq,
}
use perfect_ws.Callbacks.Owned.{
  Entry, Kind, of_lease, of_entry, Marker, Owned, release_owned, is_in_list,
}
use perfect_ws.Callbacks.Owned.Events.{is_of}
use perfect_ws.Callbacks.Owned.Cover.{cover, IsBounded}

-- Whether the serialization is part of a transaction that was rolled back.
unfoldable pub is_gone : List ℕ → Option ℕ → Bool
is_gone rolled none = false
is_gone rolled (some t) = is_in_list t rolled

-- Whether the entry stands for a serialization within this transaction, or within none.
unfoldable pub lists : Entry → Option ℕ → Bool
lists e none = e.committed
lists e (some t) = e.committed || is_in_list t e.pending_transactions

unfoldable pub is_held : List ℕ → Entry → Marker → Bool
unfolding is_gone lists is_of
is_held rolled e m =
    not (is_of m.marked_id e)
    || (is_gone rolled m.within || (leb m.marked_lease (cover e m.within) && lists e m.within))

pub record IsKept (next : ℕ) (rolled : List ℕ) (ms : List Marker) (e : Entry) : Type 0 where
  pub bounded : IsBounded e
  pub held : All (λ m. is_held rolled e m ≡ true) ms
  pub older : (i : ℕ) → e.func_id ≡ some i → i < next

pub record IsSound (o : Owned) : Type 0 where
  pub markers_older : All (λ m. m.marked_id < o.next_id) o.markers
  pub kept : (e : Entry) → o.entry ≡ some e → IsKept o.next_id o.rolled_back o.markers e

-- An entry that covers and stands for as much as another one with its id holds what that one does.
is_held-keeps :
    (rolled : List ℕ) (e e' : Entry) (m : Marker)
    → e'.func_id ≡ e.func_id
    → (is_gone rolled m.within ≡ false → cover e m.within ≤ cover e' m.within)
    → (is_gone rolled m.within ≡ false → lists e m.within ≡ true → lists e' m.within ≡ true)
    → is_held rolled e m ≡ true
    → is_held rolled e' m ≡ true
unfolding is_held is_of
is_held-keeps rolled e e' m p c l h = rw p (ground (arith, c, l, h))

pub is_held-keeps_each :
    (rolled : List ℕ) (e e' : Entry) (ms : List Marker)
    → e'.func_id ≡ e.func_id
    → ((w : Option ℕ) → is_gone rolled w ≡ false → cover e w ≤ cover e' w)
    → ((w : Option ℕ) → is_gone rolled w ≡ false → lists e w ≡ true → lists e' w ≡ true)
    → All (λ m. is_held rolled e m ≡ true) ms
    → All (λ m. is_held rolled e' m ≡ true) ms
is_held-keeps_each rolled e e' ms p c l h =
    All-map ms (λ m q. is_held-keeps rolled e e' m p (c m.within) (l m.within) q) h

-- The entry may be replaced by one that is kept.
pub replace-IsSound :
    (o : Owned) (e : Entry)
    → IsSound o
    → IsKept o.next_id o.rolled_back o.markers e
    → IsSound (record o { entry = some e })
replace-IsSound o e s k = record {
  markers_older = s.markers_older;
  kept = λ e' p. subst (IsKept o.next_id o.rolled_back o.markers) (cc p) k;
}

pub release_owned-IsSound : (e : Entry) (o : Owned) → IsSound o → IsSound (release_owned e o)
unfolding release_owned
release_owned-IsSound e o s = record {
  markers_older = s.markers_older;
  kept = λ e' p. absurd (cc p);
}

pub entry_both :
    (P : Owned → Type 0) (x : Option Entry) (o : Owned) (f : Entry → Owned)
    → P o
    → ((e : Entry) → x ≡ some e → P (f e))
    → P (elim x [ none ↦ o | some e ↦ f e ])
entry_both P none o f p q = p
entry_both P (some e) o f p q = q e refl

pub kind_both :
    (P : Owned → Type 0) (k : Kind) (a b : Owned)
    → P a
    → P b
    → P (elim k [ of_lease ↦ a | of_entry ↦ b ])
kind_both P of_lease a b p q = p
kind_both P of_entry a b p q = q
