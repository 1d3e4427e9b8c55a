-- ===== src/Callbacks/Owned/Accounted.antt =====
-- No operation but the application's own release takes a function from a marker that still stands
-- and that the peer has not given up.
use perfect_ws.Base.{
  All-map, ℕ, ◌≤◌, ◌≡◌, refl, sym, ap, subst, ◌∙◌, ◌⊎◌, inl, inr, Bool, true, false, not, ◌||◌,
  Option, none, some, List, [], ◌∷◌, arith, leb, Bool-cases, if_both, keep_if, All, ◌==◌, nat_eq,
  string_eq,
}
use perfect_ws.Callbacks.Owned.{Entry, Registration, Marker, Owned, release_owned, is_in_list}
use perfect_ws.Callbacks.Owned.Events.{
  is_of, withdraw_lease, is_overdue, rollback_lease, rollback_entry, rollback_one, rollback_each,
  Event,
}
use perfect_ws.Callbacks.Owned.Cover.{cover, IsBounded}
use perfect_ws.Callbacks.Owned.Steps.{is_gone, lists, is_held, IsSound, entry_both, kind_both}
use perfect_ws.Callbacks.Owned.RolledBack.{
  withdraw_lease-IsKept, unlisted, unlisted-IsKept, rollback_one-IsSound, rollback_one-rolled_back,
}
use perfect_ws.Callbacks.Owned.Seen.{peer_saw, id_of, noted, sent, IsSeen, rollback_one-IsSeen}

-- The marker has another id, or its transaction was rolled back, or the peer has seen its lease.
unfoldable pub accounted : ℕ → ℕ → List ℕ → Marker → Bool
unfolding is_gone
accounted i seen rolled m =
    not (m.marked_id == i) || (is_gone rolled m.within || leb m.marked_lease seen)

-- The function stays under the id, or all its markers are accounted for.
abbrev pub Stays : ℕ → ℕ → List ℕ → List Marker → Owned → Type 0
Stays i seen rolled ms o = (id_of o.entry ≡ some i) ⊎ All (λ m. accounted i seen rolled m ≡ true) ms

pub overdue-accounted :
    (i seen : ℕ) (rolled : List ℕ) (e : Entry) (m : Marker)
    → e.func_id ≡ some i
    → cover e m.within ≤ seen
    → is_held rolled e m ≡ true
    → accounted i seen rolled m ≡ true
unfolding is_held is_of accounted
overdue-accounted i seen rolled e m p c h =
    ground (arith, h, c, p, nat_eq.same_iff i m.marked_id, nat_eq.same_iff m.marked_id i)

unlisted-accounted :
    (i seen : ℕ) (rolled : List ℕ) (e : Entry) (m : Marker)
    → e.func_id ≡ some i
    → lists e m.within ≡ false
    → is_held rolled e m ≡ true
    → accounted i seen rolled m ≡ true
unfolding is_held is_of accounted
unlisted-accounted i seen rolled e m p c h =
    ground (arith, h, c, p, nat_eq.same_iff i m.marked_id, nat_eq.same_iff m.marked_id i)

-- An overdue entry has its lease from the peer.
is_overdue-le :
    (es : List Event) (i : ℕ) (o : Owned) (e e' : Entry)
    → IsSeen es o
    → o.entry ≡ some e
    → e.func_id ≡ some i
    → e'.pending_release_lease ≡ e.pending_release_lease
    → is_overdue e' ≡ true
    → e'.lease ≤ peer_saw i es
unfolding is_overdue IsSeen noted sent id_of
is_overdue-le es i o e e' s p q r h = ground (arith, s, p, q, r, h)

pub bounded-le : (e : Entry) (n : ℕ) (w : Option ℕ) → IsBounded e → e.lease ≤ n → cover e w ≤ n
unfolding IsBounded
bounded-le e n w b h = omega (arith, b w, h)

id_of-some :
    (o : Owned) (e : Entry) (i : ℕ) → o.entry ≡ some e → e.func_id ≡ some i → id_of o.entry ≡ some i
unfolding id_of
id_of-some o e i p q = simp p q

rollback_lease-Stays :
    (es : List Event) (t i : ℕ) (e : Entry) (o : Owned)
    → IsSound o
    → IsSeen es o
    → is_in_list t o.rolled_back ≡ true
    → o.entry ≡ some e
    → e.func_id ≡ some i
    → Stays i (peer_saw i es) o.rolled_back o.markers (rollback_lease t e o)
unfolding rollback_lease
rollback_lease-Stays es t i e o s n h p q =
    let e' = withdraw_lease t e in
    let k = withdraw_lease-IsKept t o.next_id o.rolled_back o.markers e h (s.kept e p) in
    elim (Bool-cases (is_overdue e')) [
      | inl d ↦ inr (
          All-map o.markers
            (λ m x.
              overdue-accounted i (peer_saw i es) o.rolled_back e' m (unfold withdraw_lease in q)
                (bounded-le e' (peer_saw i es) m.within k.bounded
                  (is_overdue-le es i o e e' n p q (unfold withdraw_lease in refl) d))
                x)
            k.held)
      | inr d ↦ rw d (inl (unfold id_of withdraw_lease in q))
    ]

listed_cases :
    (P : Owned → Type 0) (ts : List ℕ) (a : Owned) (f : List ℕ → Owned)
    → (ts ≡ [] → P a)
    → P (f ts)
    → P (elim ts [ [] ↦ a | t ∷ ts ↦ f (t ∷ ts) ])
listed_cases P [] a f p q = p refl
listed_cases P (t ∷ ts) a f p q = q

unlisted_none :
    (ts : List ℕ) (e : Entry) (w : Option ℕ)
    → ts ≡ []
    → e.committed ≡ false
    → lists (unlisted ts e) w ≡ false
unfolding lists unlisted is_in_list
unlisted_none ts e none z c = c
unlisted_none ts e (some s) z c = simp (z, c) refl

rollback_entry-Stays :
    (es : List Event) (t i : ℕ) (e : Entry) (o : Owned)
    → IsSound o
    → is_in_list t o.rolled_back ≡ true
    → o.entry ≡ some e
    → e.func_id ≡ some i
    → Stays i (peer_saw i es) o.rolled_back o.markers (rollback_entry t e o)
unfolding rollback_entry unlisted
rollback_entry-Stays es t i e o s h p q =
    let ts = keep_if (λ j. not (j == t)) e.pending_transactions in
    let k = unlisted-IsKept t o.next_id o.rolled_back o.markers e h (s.kept e p) in
    elim (Bool-cases e.committed) [
      | inl c ↦ rw c (inl (id_of-some o e i p q))
      | inr c ↦ rw c (
          listed_cases (Stays i (peer_saw i es) o.rolled_back o.markers) ts _
            (λ ts. record o { entry = some (unlisted ts e) })
            (λ z. inr (
              All-map o.markers
                (λ m x.
                  unlisted-accounted i (peer_saw i es) o.rolled_back (unlisted ts e) m q
                    (unlisted_none ts e m.within z c) x)
                k.held))
            (inl (unfold id_of in q)))
    ]

pub func_id-of :
    (o : Owned) (e : Entry) (i : ℕ) → id_of o.entry ≡ some i → o.entry ≡ some e → e.func_id ≡ some i
unfolding id_of
func_id-of o e i h p = sym (ap id_of p) ∙ h

rollback_one-Stays :
    (es : List Event) (r : Registration) (i : ℕ) (o : Owned)
    → IsSound o
    → IsSeen es o
    → is_in_list r.transaction o.rolled_back ≡ true
    → id_of o.entry ≡ some i
    → Stays i (peer_saw i es) o.rolled_back o.markers (rollback_one r o)
unfolding rollback_one
rollback_one-Stays es r i o s n h x =
    let P = Stays i (peer_saw i es) o.rolled_back o.markers in
    entry_both P o.entry o _ (inl x) (λ e p.
      let q = func_id-of o e i x p in
      if_both P (is_of r.id e) _ _
        (kind_both P r.kind _ _ (rollback_lease-Stays es r.transaction i e o s n h p q)
          (rollback_entry-Stays es r.transaction i e o s h p q))
        (inl x))

rollback_one-markers : (r : Registration) (o : Owned) → (rollback_one r o).markers ≡ o.markers
unfolding rollback_one rollback_lease rollback_entry release_owned
rollback_one-markers r o = ground arith

-- What a rollback keeps of the state that it starts from, for the rest of the rollback.
pub record IsRolling (es : List Event) (t i : ℕ) (o₀ o : Owned) : Type 0 where
  pub sound : IsSound o
  pub seen : IsSeen es o
  pub rolling : is_in_list t o.rolled_back ≡ true
  pub same_markers : o.markers ≡ o₀.markers
  pub same_rolled_back : o.rolled_back ≡ o₀.rolled_back
  pub stays : Stays i (peer_saw i es) o₀.rolled_back o₀.markers o

rollback_one-IsRolling :
    (es : List Event) (t i : ℕ) (o₀ : Owned) (r : Registration) (o : Owned)
    → r.transaction ≡ t
    → IsRolling es t i o₀ o
    → IsRolling es t i o₀ (rollback_one r o)
rollback_one-IsRolling es t i o₀ r o p g =
    let h : is_in_list r.transaction o.rolled_back ≡ true = rw p g.rolling in
    record {
      sound = rollback_one-IsSound r o g.sound h;
      seen = rollback_one-IsSeen es r o g.seen;
      rolling = rw (rollback_one-rolled_back r o) g.rolling;
      same_markers = rollback_one-markers r o ∙ g.same_markers;
      same_rolled_back = rollback_one-rolled_back r o ∙ g.same_rolled_back;
      stays = elim g.stays [
        | inl x ↦
            subst
              (λ (ms : List Marker). Stays i (peer_saw i es) o₀.rolled_back ms (rollback_one r o))
              g.same_markers
              (subst (λ (ts : List ℕ). Stays i (peer_saw i es) ts o.markers (rollback_one r o))
                g.same_rolled_back (rollback_one-Stays es r i o g.sound g.seen h x))
        | inr a ↦ inr a
      ];
    }

pub rollback_each-IsRolling :
    (es : List Event) (t i : ℕ) (o₀ : Owned) (rs : List Registration) (o : Owned)
    → All (λ r. r.transaction ≡ t) rs
    → IsRolling es t i o₀ o
    → IsRolling es t i o₀ (rollback_each rs o)
unfolding rollback_each
rollback_each-IsRolling es t i o₀ [] o a g = g
rollback_each-IsRolling es t i o₀ (r ∷ rs) o (p, a) g =
    rollback_one-IsRolling es t i o₀ r (rollback_each rs o) p
      (rollback_each-IsRolling es t i o₀ rs o a g)
