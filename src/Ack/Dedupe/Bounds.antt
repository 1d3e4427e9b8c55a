-- ===== src/Ack/Dedupe/Bounds.antt =====
-- The tables of processed packets stay within their limits.
use perfect_ws.Base.{
  ℕ, ◌+◌, ◌≤◌, ◌<◌, ◌≡◌, refl, inl, inr, String, Option, none, some, Option-cases, List, [], ◌∷◌,
  arith, string_eq, All, true, ap, not,
}
use perfect_ws.JsMap.{JsMap, size, get, set}
use perfect_ws.JsMap.Laws.{size-set-le, size-set_old, size-set_new, has_absent}
use perfect_ws.Ack.Dedupe.{
  Limits, Packets, Processed, drop_expired, packets_of, forget_client, forget_expired, remember,
  is_new_client, admit_cases, accept_packet, total_size, keep_client, drop_expired_clients,
  cleanup_clients, cleanup, Event, packet, sweep, step, run, empty,
}
use perfect_ws.Ack.Dedupe.Counts.{size-drop_expired, total_size-set, total_size-set_new, IsCounted}

pub record IsBounded (l : Limits) (d : Processed) : Type 0 where
  pub counted : IsCounted d
  pub own : size d.packets ≤ l.max_processed_packets
  pub each : All (λ p. size p.1 ≤ l.max_processed_packets) d.by_client
  pub clients : size d.by_client ≤ l.max_processed_packet_clients
  pub total : size d.packets + total_size d.by_client ≤ l.max_total_processed_packets

All-set :
    (n : ℕ) (cs : JsMap String Packets) (c : String) (m : Packets)
    → All (λ p. size p.1 ≤ n) cs
    → size m ≤ n
    → All (λ p. size p.1 ≤ n) (set cs c m)
unfolding set
All-set n [] c m h k = (k, tt)
All-set n ((j, w) ∷ cs) c m h k = ground (arith, All-set n cs c m h.1 k)

All-get :
    (n : ℕ) (cs : JsMap String Packets) (c : String) (m : Packets)
    → All (λ p. size p.1 ≤ n) cs
    → get cs c ≡ some m
    → size m ≤ n
unfolding get
All-get n [] c m h e = cc
All-get n ((j, w) ∷ cs) c m h e = ground (arith, All-get n cs c m h.1)

forget_expired-IsBounded :
    (l : Limits) (now : ℕ) (c : Option String) (d : Processed)
    → IsBounded l d
    → IsBounded l (forget_expired l now c d)
unfolding forget_expired
forget_expired-IsBounded l now none d b = record {
  counted = b.counted;
  own = omega (arith, size-drop_expired l now d.packets);
  each = b.each;
  clients = b.clients;
  total = omega (arith, size-drop_expired l now d.packets);
}
forget_expired-IsBounded l now (some c) d b = elim (Option-cases (get d.by_client c)) [
  | inl e ↦ rw (e, forget_client) b
  | inr (m, e) ↦
      let less = size-drop_expired l now m in
      let sum = total_size-set d.by_client c m (drop_expired l now m) e in
      let fits = All-get l.max_processed_packets d.by_client c m b.each e in
      rw (e, forget_client)
        (record {
          counted = omega arith;
          own = b.own;
          each = All-set l.max_processed_packets d.by_client c _ b.each (omega arith);
          clients = omega (arith, size-set_old d.by_client c (drop_expired l now m) m e);
          total = omega arith;
        })
]

module _ (l : Limits) (now : ℕ) (id : String) (d : Processed) (b : IsBounded l d) where
  remember_new-IsBounded :
      (c : String)
      → get d.by_client c ≡ none
      → 0 < l.max_processed_packets
      → size d.by_client < l.max_processed_packet_clients
      → size d.packets + d.by_client_count < l.max_total_processed_packets
      → IsBounded l (remember now (some c) id d)
  unfolding remember set
  remember_new-IsBounded c e h k t =
      let sum = total_size-set_new d.by_client c ((id, now) ∷ []) e in
      rw (e, remember)
        (record {
          counted = omega (arith, b.counted, sum);
          own = b.own;
          each = All-set l.max_processed_packets d.by_client c _ b.each (omega arith);
          clients = omega (arith, size-set-le d.by_client c ((id, now) ∷ []));
          total = omega (arith, b.counted, sum);
        })

  remember_known-IsBounded :
      (c : String) (m : Packets)
      → get d.by_client c ≡ some m
      → get m id ≡ none
      → size m < l.max_processed_packets
      → size d.packets + d.by_client_count < l.max_total_processed_packets
      → IsBounded l (remember now (some c) id d)
  unfolding remember
  remember_known-IsBounded c m e new h t =
      let sum = total_size-set d.by_client c m (set m id now) e in
      let more = size-set_new m id now new in
      rw (e, remember)
        (record {
          counted = omega (arith, b.counted);
          own = b.own;
          each = All-set l.max_processed_packets d.by_client c _ b.each (omega arith);
          clients = omega (arith, b.clients, size-set_old d.by_client c (set m id now) m e);
          total = omega (arith, b.counted);
        })

  remember-IsBounded :
      (c : Option String)
      → get (packets_of c d) id ≡ none
      → size (packets_of c d) < l.max_processed_packets
      → (is_new_client c d ≡ true → size d.by_client < l.max_processed_packet_clients)
      → size d.packets + d.by_client_count < l.max_total_processed_packets
      → IsBounded l (remember now c id d)
  unfolding packets_of remember is_new_client
  remember-IsBounded none new h k t = record {
    counted = b.counted;
    own = omega (arith, size-set-le d.packets id now);
    each = b.each;
    clients = b.clients;
    total = omega (arith, b.counted, size-set-le d.packets id now);
  }
  remember-IsBounded (some c) new h k t = elim (Option-cases (get d.by_client c)) [
    | inl e ↦ remember_new-IsBounded c e (omega arith) (k (ap not (has_absent d.by_client c e))) t
    | inr (m, e) ↦ remember_known-IsBounded c m e (rw e at new) (rw e at h) t
  ]

accept_packet-IsBounded :
    (l : Limits) (now : ℕ) (id rid : String) (c : Option String) (d : Processed)
    → IsBounded l d
    → IsBounded l (accept_packet l now id rid c d).processed
unfolding accept_packet
accept_packet-IsBounded l now id rid c d b =
    let b' = forget_expired-IsBounded l now c d b in
    admit_cases (λ o. IsBounded l o.processed) l now id rid c _ (λ r. b')
      (λ new h k t. remember-IsBounded l now id _ b' c new h k t)

keep_client-bounds :
    (n : ℕ) (c : String) (m : Packets) (cs : JsMap String Packets)
    → size m ≤ n
    → All (λ p. size p.1 ≤ n) cs
    → All (λ p. size p.1 ≤ n) (keep_client c m cs)
      × (size (keep_client c m cs) ≤ size cs + 1)
      × (total_size (keep_client c m cs) ≡ size m + total_size cs)
unfolding total_size
keep_client-bounds n c [] cs h k = (k, omega arith, omega arith)
keep_client-bounds n c (p ∷ m) cs h k = ((h, k), omega arith, refl)

drop_expired_clients-bounds :
    (l : Limits) (now n : ℕ) (cs : JsMap String Packets)
    → All (λ p. size p.1 ≤ n) cs
    → All (λ p. size p.1 ≤ n) (drop_expired_clients l now cs)
      × (size (drop_expired_clients l now cs) ≤ size cs)
      × (total_size (drop_expired_clients l now cs) ≤ total_size cs)
unfolding drop_expired_clients total_size
drop_expired_clients-bounds l now n [] h = (tt, omega arith, omega arith)
drop_expired_clients-bounds l now n ((c, m) ∷ cs) (h, hs) =
    let less = size-drop_expired l now m in
    let (each, fewer, sum) = drop_expired_clients-bounds l now n cs hs in
    let (each', fewer', sum') =
      keep_client-bounds n c (drop_expired l now m) (drop_expired_clients l now cs) (omega arith)
        each in
    (each', omega arith, omega arith)

cleanup_clients-IsBounded :
    (l : Limits) (now : ℕ) (cs : JsMap String Packets) (d : Processed)
    → d.by_client ≡ cs
    → IsBounded l d
    → IsBounded l (cleanup_clients l now cs d)
unfolding cleanup_clients
cleanup_clients-IsBounded l now [] d e b = b
cleanup_clients-IsBounded l now (c ∷ cs) d e b =
    let (each, fewer, sum) =
      drop_expired_clients-bounds l now l.max_processed_packets (c ∷ cs) (rw e at b.each) in
    record {
      counted = refl;
      own = b.own;
      each = each;
      clients = omega (arith, rw e at b.clients);
      total = omega (arith, rw e at b.total);
    }

cleanup-IsBounded :
    (l : Limits) (now : ℕ) (d : Processed) → IsBounded l d → IsBounded l (cleanup l now d)
unfolding cleanup
cleanup-IsBounded l now d b = cleanup_clients-IsBounded l now d.by_client _ refl (record {
  counted = b.counted;
  own = omega (arith, size-drop_expired l now d.packets);
  each = b.each;
  clients = b.clients;
  total = omega (arith, size-drop_expired l now d.packets);
})

step-IsBounded :
    (l : Limits) (d : Processed) (e : ℕ × Event) → IsBounded l d → IsBounded l (step l d e)
unfolding step
step-IsBounded l d (now, packet id rid c) b = accept_packet-IsBounded l now id rid c d b
step-IsBounded l d (now, sweep) b = cleanup-IsBounded l now d b

run-IsBounded :
    (l : Limits) (d : Processed) (es : List (ℕ × Event)) → IsBounded l d → IsBounded l (run l d es)
unfolding run
run-IsBounded l d [] b = b
run-IsBounded l d (e ∷ es) b = run-IsBounded l (step l d e) es (step-IsBounded l d e b)

-- After any history of packets and clean-up rounds, at any times, the running count is the number
-- of packets in the clients' maps, each map is within `maxProcessedPackets`, the clients are within
-- `maxProcessedPacketClients`, and all packets together are within `maxTotalProcessedPackets`.
pub run-empty-IsBounded : (l : Limits) (es : List (ℕ × Event)) → IsBounded l (run l empty es)
unfolding empty total_size
run-empty-IsBounded l es = run-IsBounded l empty es (record {
  counted = refl;
  own = omega arith;
  each = tt;
  clients = omega arith;
  total = omega arith;
})
