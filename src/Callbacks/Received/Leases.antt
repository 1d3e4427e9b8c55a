-- ===== src/Callbacks/Received/Leases.antt =====
-- A release names the highest lease that its wrapper has stood for.
use perfect_ws.Base.{
  All-map, ℕ, ◌<◌, ◌≡◌, refl, sym, ap, subst, ◌∙◌, ◌≢◌, ◌⊎◌, inl, inr, Bool, true, false, ◌&&◌,
  Option, some, List, [], ◌∷◌, arith, if◌then◌else◌, if_both, option_cases, All, ◌==◌, nat_eq,
  string_eq,
}
use perfect_ws.JsMap.{JsMap, get, set, delete}
use perfect_ws.JsMap.Laws.{get-set, get-delete}
use perfect_ws.Callbacks.Owned.{max}
use perfect_ws.Callbacks.Received.{
  Entry, Note, Peer, fresh, renew, wrap, deserialize, collect, drop, finalize, release_all, Event,
  deserializes, collects, finalizes, releases_all, step, run,
}

-- The highest lease of the markers with this id that the wrapper stands for.
pub highest : (id token : ℕ) → List Note → ℕ
highest id token [] = 0
highest id token (m ∷ ms) =
    if m.id == id && m.by == token then max m.lease (highest id token ms) else highest id token ms

-- A release is exact, and its token is that of no entry.
pub IsDone : Peer → Note → Type 0
IsDone p r =
    (r.lease ≡ highest r.id r.by p.markers)
    × ((r.by < p.next_token) × ((e : Entry) → get p.received r.id ≡ some e → e.token ≢ r.by))

unfoldable pub IsKnown : Peer → ℕ → Entry → Type 0
IsKnown p id e = (e.token < p.next_token) × (e.lease ≡ highest id e.token p.markers)

pub record IsExact (p : Peer) : Type 0 where
  pub markers_older : All (λ m. m.by < p.next_token) p.markers
  pub entries : (id : ℕ) (e : Entry) → get p.received id ≡ some e → IsKnown p id e
  -- also for the markers that come after the release, since no entry has its token any more
  pub exact : All (IsDone p) p.releases

highest-new : (id t : ℕ) (ms : List Note) → All (λ m. m.by < t) ms → highest id t ms ≡ 0
unfolding highest
highest-new id t [] a = refl
highest-new id t (m ∷ ms) (h, a) = ground (arith, h, highest-new id t ms a, nat_eq.same_iff m.by t)

if_some :
    (b : Bool) (v e : Entry) (y : Option Entry)
    → (if b then some v else y) ≡ some e
    → ((b ≡ true) × (v ≡ e)) ⊎ ((b ≡ false) × (y ≡ some e))
if_some true v e y q = inl (refl, cc q)
if_some false v e y q = inr (refl, q)

-- An entry after a `set` is the new one, or one that was there under another id.
set-cases :
    (m : JsMap ℕ Entry) (id j : ℕ) (v e : Entry)
    → get (set m id v) j ≡ some e
    → ((id ≡ j) × (v ≡ e)) ⊎ (((id == j) ≡ false) × (get m j ≡ some e))
set-cases m id j v e q = elim (if_some (id == j) v e (get m j) (sym (get-set m id j v) ∙ q)) [
  | inl (b, p) ↦ let s : id ≡ j = ground (arith, b, nat_eq.same_iff id j) in inl (s, p)
  | inr x ↦ inr x
]

wrap-IsExact : (id l : ℕ) (p : Peer) → IsExact p → IsExact (wrap id l p)
unfolding wrap highest IsDone IsKnown
wrap-IsExact id l p h =
    let z = highest-new id p.next_token p.markers h.markers_older in
    let v : Entry = record { token = p.next_token; lease = l; alive = true } in
    record {
      markers_older = (omega arith, All-map p.markers (λ m q. omega (arith, q)) h.markers_older);
      entries = λ j e q. elim (set-cases p.received id j v e q) [
        | inl (s, c) ↦ subst (IsKnown (wrap id l p) j) c (
          omega arith,
          ground (arith, z, s, nat_eq.same_iff id j, nat_eq.same_iff p.next_token p.next_token),
        )
        | inr (b, c) ↦ let (t, x) = h.entries j e c in (omega (arith, t), ground (arith, b, x))
      ];
      exact =
          All-map p.releases
            (λ r x.
              let (w, (t, g)) = x in
              (
                ground (arith, w, t, nat_eq.same_iff p.next_token r.by),
                (
                  omega (arith, t),
                  λ e q. elim (set-cases p.received id r.id v e q) [
                    | inl (s, c) ↦ λ y. absurd (ground (arith, ap (λ (e : Entry). e.token) c, y, t))
                    | inr (b, c) ↦ g e c
                  ],
                ),
              ))
            h.exact;
    }

renew-IsExact :
    (id l : ℕ) (e : Entry) (p : Peer)
    → get p.received id ≡ some e
    → IsExact p
    → IsExact (renew id l e p)
unfolding renew highest IsDone IsKnown
renew-IsExact id l e p q₀ h =
    let v : Entry = record e { lease = max e.lease l } in
    let (t₀, x₀) = h.entries id e q₀ in
    record {
      markers_older = (t₀, h.markers_older);
      entries = λ j e' q. elim (set-cases p.received id j v e' q) [
        | inl (s, c) ↦ subst (IsKnown (renew id l e p) j) c (
            subst (λ (i : ℕ). IsKnown (renew id l e p) i v) s
              (t₀, ground (arith, x₀, nat_eq.same_iff id id, nat_eq.same_iff e.token e.token)))
        | inr (b, c) ↦ let (t, x) = h.entries j e' c in (t, ground (arith, b, x))
      ];
      exact =
          All-map p.releases
            (λ r x.
              let (w, (t, g)) = x in
              let k : id ≡ r.id → e.token ≢ r.by =
                λ s. g e (subst (λ (i : ℕ). get p.received i ≡ some e) s q₀) in
              (
                ground (arith, w, k, nat_eq.same_iff id r.id, nat_eq.same_iff e.token r.by),
                (
                  t,
                  λ e' q. elim (set-cases p.received id r.id v e' q) [
                    | inl (s, c) ↦ λ y. k s (ap (λ (e : Entry). e.token) c ∙ y)
                    | inr (b, c) ↦ g e' c
                  ],
                ),
              ))
            h.exact;
    }

collect-IsExact : (id : ℕ) (p : Peer) → IsExact p → IsExact (collect id p)
unfolding collect IsDone IsKnown
collect-IsExact id p h =
    option_cases IsExact (get p.received id) _ _ (λ n. h)
      (λ e q₀.
        let v : Entry = record e { alive = false } in
        record {
          markers_older = h.markers_older;
          entries = λ j e' q. elim (set-cases p.received id j v e' q) [
            | inl (s, c) ↦
                subst (IsKnown p j) c (subst (λ (i : ℕ). IsKnown p i v) s (h.entries id e q₀))
            | inr (b, c) ↦ h.entries j e' c
          ];
          exact =
              All-map p.releases
                (λ r x.
                  let (w, (t, g)) = x in
                  (
                    w,
                    (
                      t,
                      λ e' q. elim (set-cases p.received id r.id v e' q) [
                        | inl (s, c) ↦ λ y.
                            g e (subst (λ (i : ℕ). get p.received i ≡ some e) s q₀)
                              (ap (λ (e : Entry). e.token) c ∙ y)
                        | inr (b, c) ↦ g e' c
                      ],
                    ),
                  ))
                h.exact;
        })

delete-cases :
    (m : JsMap ℕ Entry) (id j : ℕ) (e : Entry)
    → get (delete m id) j ≡ some e
    → ((id == j) ≡ false) × (get m j ≡ some e)
delete-cases m id j e q =
    let q' = sym (get-delete m id j) ∙ q in (ground (arith, q'), ground (arith, q'))

deleted-none : (m : JsMap ℕ Entry) (id : ℕ) (e : Entry) → get (delete m id) id ≢ some e
deleted-none m id e q = absurd (ground (arith, delete-cases m id id e q, nat_eq.same_iff id id))

drop-IsExact :
    (id : ℕ) (e : Entry) (p : Peer) → get p.received id ≡ some e → IsExact p → IsExact (drop id e p)
unfolding drop IsDone IsKnown
drop-IsExact id e p q₀ h =
    let kept =
      All-map {P = IsDone p} p.releases
        (λ r x.
          let (w, (t, g)) = x in (w, (t, λ e' q. g e' (delete-cases p.received id r.id e' q).1)))
        h.exact in
    let (t₀, x₀) = h.entries id e q₀ in
    record {
      markers_older = h.markers_older;
      entries = λ j e' q. h.entries j e' (delete-cases p.received id j e' q).1;
      exact =
          if_both
            (All (λ (r : Note).
              (r.lease ≡ highest r.id r.by p.markers)
              × ((r.by < p.next_token)
                  × ((e' : Entry) → get (delete p.received id) r.id ≡ some e' → e'.token ≢ r.by))))
            p.released _ _ kept
            ((x₀, (t₀, λ e' q. absurd (deleted-none p.received id e' q))), kept);
    }

release_all-IsExact : (p : Peer) → IsExact p → IsExact (release_all p)
unfolding release_all IsDone IsKnown get
release_all-IsExact p h = if_both IsExact p.released _ _ h (record {
  markers_older = h.markers_older;
  entries = λ j e q. absurd (ground (arith, q));
  exact = All-map p.releases (λ r x. (x.0, (x.1.0, λ e q. absurd (ground (arith, q))))) h.exact;
})

step-IsExact : (e : Event) (p : Peer) → IsExact p → IsExact (step e p)
unfolding step deserialize finalize
step-IsExact (deserializes id l) p h =
    option_cases IsExact (get p.received id) _ _ (λ n. wrap-IsExact id l p h)
      (λ e q. if_both IsExact e.alive _ _ (renew-IsExact id l e p q h) (wrap-IsExact id l p h))
step-IsExact (collects id) p h = collect-IsExact id p h
step-IsExact (finalizes id t) p h =
    option_cases IsExact (get p.received id) _ _ (λ n. h)
      (λ e q. if_both IsExact (e.token == t) _ _ (drop-IsExact id e p q h) h)
step-IsExact releases_all p h = release_all-IsExact p h

-- After any events, each release that was sent to the peer names the highest lease of all markers
-- that its wrapper has stood for, and each wrapper that is kept has that lease; no wrapper that is
-- kept has the token of a release, or one that is still to be made.
pub run-IsExact : (es : List Event) → IsExact (run es)
unfolding run
run-IsExact [] =
    unfold fresh get in
    record { markers_older = tt; entries = λ j e q. absurd (ground (arith, q)); exact = tt }
run-IsExact (e ∷ es) = step-IsExact e (run es) (run-IsExact es)
