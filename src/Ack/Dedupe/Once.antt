-- ===== src/Ack/Dedupe/Once.antt =====
-- A packet that was accepted is not accepted again while its id is retained.
use perfect_ws.Base.{
  ℕ, ◌+◌, ◌≤◌, ◌≡◌, refl, ◌∙◌, ◌⊎◌, inl, inr, String, true, false, Bool-cases, Option, none, some,
  Option-cases, List, [], ◌∷◌, arith, ◌==◌, string_eq, beq_refl, All,
}
use perfect_ws.JsMap.{JsMap, get, set}
use perfect_ws.JsMap.Laws.{get-set, get-set_self, has_of_get}
use text.Mathlib.TextEquality.{eq_iff}
use perfect_ws.Ack.Dedupe.{
  Limits, Packets, Processed, ack, refuse, drop_expired, packets_of, forget_client, forget_expired,
  remember, admit, admit_cases, accept_packet, keep_client, drop_expired_clients, cleanup_clients,
  cleanup, Event, packet, sweep, step, run,
}

get-drop_expired :
    (l : Limits) (now t : ℕ) (m : Packets) (p : String)
    → now ≤ t + l.processed_packets_retention
    → get m p ≡ some t
    → get (drop_expired l now m) p ≡ some t
unfolding get drop_expired
get-drop_expired l now t [] p h e = e
get-drop_expired l now t ((j, u) ∷ m) p h e = ground (arith, get-drop_expired l now t m p h)

-- A loop over one map either leaves the packets of a client alone or drops the expired ones.
packets_of-forget_expired :
    (l : Limits) (now : ℕ) (c b : Option String) (d : Processed)
    → (packets_of c (forget_expired l now b d) ≡ packets_of c d)
      ⊎ (packets_of c (forget_expired l now b d) ≡ drop_expired l now (packets_of c d))
unfolding forget_expired packets_of
packets_of-forget_expired l now none none d = inr refl
packets_of-forget_expired l now (some a) none d = inl refl
packets_of-forget_expired l now none (some b) d = elim (Option-cases (get d.by_client b)) [
  | inl e ↦ rw (e, forget_client) (inl refl)
  | inr (m, e) ↦ rw (e, forget_client) (inl refl)
]
packets_of-forget_expired l now (some a) (some b) d = elim (Option-cases (get d.by_client b)) [
  | inl e ↦ rw (e, forget_client) (inl refl)
  | inr (m, e) ↦
      rw (e, forget_client, get-set d.by_client b a)
        (elim (Bool-cases (b == a)) [
          | inl same ↦ rw (same, ← (eq_iff b a).0 same, e) (inr refl)
          | inr other ↦ rw other (inl refl)
        ])
]

packets_of-remember :
    (now : ℕ) (c b : Option String) (id : String) (d : Processed)
    → (packets_of c (remember now b id d) ≡ packets_of c d)
      ⊎ ((b ≡ c) × (packets_of c (remember now b id d) ≡ set (packets_of c d) id now))
unfolding remember packets_of
packets_of-remember now none none id d = inr (refl, refl)
packets_of-remember now (some a) none id d = inl refl
packets_of-remember now none (some b) id d = inl refl
packets_of-remember now (some a) (some b) id d =
    rw (get-set d.by_client b a) (elim (Bool-cases (b == a)) [
      | inl same ↦ rw (same, ← (eq_iff b a).0 same) (inr (refl, refl))
      | inr other ↦ rw other (inl refl)
    ])

-- A packet of a client was accepted at a time, and its id is stored.
abbrev pub Remembers : Option String → String → ℕ → Processed → Type 0
Remembers c p t d = get (packets_of c d) p ≡ some t

module _ (l : Limits) (c : Option String) (p : String) (t : ℕ) where
  forget_expired-Remembers :
      (now : ℕ) (b : Option String) (d : Processed)
      → now ≤ t + l.processed_packets_retention
      → Remembers c p t d
      → Remembers c p t (forget_expired l now b d)
  forget_expired-Remembers now b d h e = elim (packets_of-forget_expired l now c b d) [
    | inl same ↦ rw same e
    | inr less ↦ rw less (get-drop_expired l now t (packets_of c d) p h e)
  ]

  remember-Remembers :
      (now : ℕ) (b : Option String) (id : String) (d : Processed)
      → get (packets_of b d) id ≡ none
      → Remembers c p t d
      → Remembers c p t (remember now b id d)
  remember-Remembers now b id d new e = elim (packets_of-remember now c b id d) [
    | inl same ↦ rw same e
    | inr (who, more) ↦
        rw (more, get-set (packets_of c d) id p) (ground (arith, eq_iff id p, rw who at new))
  ]

  accept_packet-Remembers :
      (now : ℕ) (id rid : String) (b : Option String) (d : Processed)
      → now ≤ t + l.processed_packets_retention
      → Remembers c p t d
      → Remembers c p t (accept_packet l now id rid b d).processed
  unfolding accept_packet
  accept_packet-Remembers now id rid b d h e =
      let e' = forget_expired-Remembers now b d h e in
      admit_cases (λ o. Remembers c p t o.processed) l now id rid b (forget_expired l now b d)
        (λ r. e') (λ new _ _ _. remember-Remembers now b id _ new e')

keep_client_lem :
    (a : String) (t : ℕ) (p : String) (m : Packets) (cs : JsMap String Packets)
    → get m p ≡ some t
    → get (keep_client a m cs) a ≡ some m
unfolding get
keep_client_lem a t p [] cs e = cc
keep_client_lem a t p (x ∷ m) cs e = rw (beq_refl a)

get-keep_client :
    (a b : String) (m : Packets) (cs : JsMap String Packets)
    → (b == a) ≡ false
    → get (keep_client b m cs) a ≡ get cs a
unfolding get
get-keep_client a b [] cs e = refl
get-keep_client a b (x ∷ m) cs e = rw e

get-drop_expired_clients :
    (l : Limits) (now t : ℕ) (p a : String) (m : Packets) (cs : JsMap String Packets)
    → now ≤ t + l.processed_packets_retention
    → get m p ≡ some t
    → get cs a ≡ some m
    → get (drop_expired_clients l now cs) a ≡ some (drop_expired l now m)
unfolding drop_expired_clients get
get-drop_expired_clients l now t p a m [] h e f = cc
get-drop_expired_clients l now t p a m ((b, n) ∷ cs) h e f = elim (Bool-cases (b == a)) [
  | inl same ↦
      let n-m : n ≡ m = ground (arith, same) in
      rw ((eq_iff b a).0 same, n-m)
        (keep_client_lem a t p (drop_expired l now m) _ (get-drop_expired l now t m p h e))
  | inr other ↦
      get-keep_client a b _ _ other
      ∙ get-drop_expired_clients l now t p a m cs h e (ground (arith, other))
]

cleanup_clients-by_client :
    (l : Limits) (now : ℕ) (cs : JsMap String Packets) (d : Processed)
    → d.by_client ≡ cs
    → (cleanup_clients l now cs d).by_client ≡ drop_expired_clients l now cs
unfolding cleanup_clients drop_expired_clients
cleanup_clients-by_client l now [] d e = e
cleanup_clients-by_client l now (c ∷ cs) d e = refl

cleanup_clients-packets :
    (l : Limits) (now : ℕ) (cs : JsMap String Packets) (d : Processed)
    → (cleanup_clients l now cs d).packets ≡ d.packets
unfolding cleanup_clients
cleanup_clients-packets l now [] d = refl
cleanup_clients-packets l now (c ∷ cs) d = refl

some_of_Remembers :
    (a p : String) (t : ℕ) (d : Processed)
    → Remembers (some a) p t d
    → (m : Packets) × (get d.by_client a ≡ some m) × (get m p ≡ some t)
unfolding packets_of get
some_of_Remembers a p t d e = elim (Option-cases (get d.by_client a)) [
  | inl f ↦ absurd (ground (arith, f))
  | inr (m, f) ↦ (m, f, rw f at e)
]

cleanup-Remembers :
    (l : Limits) (c : Option String) (p : String) (t now : ℕ) (d : Processed)
    → now ≤ t + l.processed_packets_retention
    → Remembers c p t d
    → Remembers c p t (cleanup l now d)
unfolding cleanup packets_of
cleanup-Remembers l none p t now d h e =
    rw
      (cleanup_clients-packets l now d.by_client
        (record d { packets = drop_expired l now d.packets }))
      (get-drop_expired l now t d.packets p h e)
cleanup-Remembers l (some a) p t now d h e =
    let (m, f, g) = some_of_Remembers a p t d e in
    rw
      (
        cleanup_clients-by_client l now d.by_client
            (record d { packets = drop_expired l now d.packets }) refl,
        get-drop_expired_clients l now t p a m d.by_client h g f,
      )
      (get-drop_expired l now t m p h g)

module _ (l : Limits) (c : Option String) (p : String) (t : ℕ) where
  step-Remembers :
      (d : Processed) (e : ℕ × Event)
      → e.0 ≤ t + l.processed_packets_retention
      → Remembers c p t d
      → Remembers c p t (step l d e)
  unfolding step
  step-Remembers d (now, packet id rid b) h r = accept_packet-Remembers l c p t now id rid b d h r
  step-Remembers d (now, sweep) h r = cleanup-Remembers l c p t now d h r

  run-Remembers :
      (d : Processed) (es : List (ℕ × Event))
      → All (λ e. e.0 ≤ t + l.processed_packets_retention) es
      → Remembers c p t d
      → Remembers c p t (run l d es)
  unfolding run
  run-Remembers d [] h r = r
  run-Remembers d (e ∷ es) h r = run-Remembers (step l d e) es h.1 (step-Remembers d e h.0 r)

remember_lem :
    (now : ℕ) (c : Option String) (id : String) (d : Processed)
    → Remembers c id now (remember now c id d)
unfolding remember packets_of
remember_lem now none id d = get-set_self d.packets id now
remember_lem now (some a) id d =
    rw (get-set_self d.by_client a) (get-set_self (packets_of (some a) d) id now)

accept_packet-Remembers_self :
    (l : Limits) (t : ℕ) (p rid : String) (c : Option String) (d : Processed)
    → (accept_packet l t p rid c d).accepted ≡ true
    → Remembers c p t (accept_packet l t p rid c d).processed
unfolding accept_packet
accept_packet-Remembers_self l t p rid c d =
    admit_cases (λ o. o.accepted ≡ true → Remembers c p t o.processed) l t p rid c _ (λ r e. cc)
      (λ _ _ _ _ _. remember_lem t c p _)

admit_again :
    (l : Limits) (now t : ℕ) (p rid : String) (c : Option String) (d : Processed)
    → Remembers c p t d
    → admit l now p rid c d ≡ refuse d (ack rid p)
unfolding admit
admit_again l now t p rid c d e = rw (has_of_get (packets_of c d) p t e)

-- Once a packet of a client is accepted, then whatever other packets and clean-up rounds come,
-- and until its retention is over, the same packet id of that client is refused, acknowledged
-- again, and changes nothing but the dropping of expired entries.
pub accept_packet_once :
    (l : Limits) (d : Processed) (c : Option String) (p rid rid' : String) (t t' : ℕ)
    (es : List (ℕ × Event))
    → (accept_packet l t p rid c d).accepted ≡ true
    → All (λ e. e.0 ≤ t + l.processed_packets_retention) es
    → t' ≤ t + l.processed_packets_retention
    → let d' = run l (accept_packet l t p rid c d).processed es in
      accept_packet l t' p rid' c d' ≡ refuse (forget_expired l t' c d') (ack rid' p)
unfolding accept_packet
accept_packet_once l d c p rid rid' t t' es a hs h' = admit_again l t' t p rid' c _ (
    forget_expired-Remembers l c p t t' c _ h'
      (run-Remembers l c p t _ es hs (accept_packet-Remembers_self l t p rid c d a)))
