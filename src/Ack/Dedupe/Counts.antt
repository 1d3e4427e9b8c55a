-- ===== src/Ack/Dedupe/Counts.antt =====
-- The running count of the clients' packets is the number of packets in their maps.
use perfect_ws.Base.{
  ℕ, ◌+◌, ◌≡◌, refl, String, inl, inr, Option, none, some, Option-cases, [], ◌∷◌, arith, string_eq,
}
use perfect_ws.JsMap.{JsMap, size, get, set}
use perfect_ws.JsMap.Laws.{size-set_new}
use perfect_ws.Ack.Dedupe.{
  Limits, Packets, Processed, drop_expired, expired_number, packets_of, forget_client,
  forget_expired, remember, admit, admit_cases, accept_packet, total_size, cleanup_clients, cleanup,
  Event, packet, sweep, step,
}

pub size-drop_expired :
    (l : Limits) (now : ℕ) (m : Packets)
    → size (drop_expired l now m) + expired_number l now m ≡ size m
unfolding drop_expired expired_number
size-drop_expired l now [] = refl
size-drop_expired l now ((id, t) ∷ m) = ground (arith, size-drop_expired l now m)

pub total_size-set :
    (cs : JsMap String Packets) (c : String) (p q : Packets)
    → get cs c ≡ some p
    → total_size (set cs c q) + size p ≡ total_size cs + size q
unfolding get set total_size
total_size-set [] c p q h = cc
total_size-set ((c', m) ∷ cs) c p q h = ground (arith, total_size-set cs c p q)

pub total_size-set_new :
    (cs : JsMap String Packets) (c : String) (q : Packets)
    → get cs c ≡ none
    → total_size (set cs c q) ≡ total_size cs + size q
unfolding get set total_size
total_size-set_new [] c q h = omega arith
total_size-set_new ((c', m) ∷ cs) c q h = ground (arith, total_size-set_new cs c q)

abbrev pub IsCounted : Processed → Type 0
IsCounted d = d.by_client_count ≡ total_size d.by_client

forget_expired-IsCounted :
    (l : Limits) (now : ℕ) (c : Option String) (d : Processed)
    → IsCounted d
    → IsCounted (forget_expired l now c d)
unfolding forget_expired
forget_expired-IsCounted l now none d h = h
forget_expired-IsCounted l now (some c) d h = elim (Option-cases (get d.by_client c)) [
  | inl e ↦ rw (e, forget_client) h
  | inr (m, e) ↦
      rw (e, forget_client)
        (omega (
          arith,
          size-drop_expired l now m,
          total_size-set d.by_client c m (drop_expired l now m) e,
        ))
]

remember-IsCounted :
    (now : ℕ) (c : Option String) (id : String) (d : Processed)
    → get (packets_of c d) id ≡ none
    → IsCounted d
    → IsCounted (remember now c id d)
unfolding remember get
remember-IsCounted now none id d new h = h
remember-IsCounted now (some c) id d new h = elim (Option-cases (get d.by_client c)) [
  | inl e ↦
      rw (e, remember)
        (omega (
          arith,
          h,
          total_size-set_new d.by_client c (set [] id now) e,
          size-set_new [] id now refl,
        ))
  | inr (m, e) ↦
      rw (e, remember)
        (omega (
          arith,
          h,
          total_size-set d.by_client c m (set m id now) e,
          size-set_new m id now (rw (e, packets_of) at new),
        ))
]

admit-IsCounted :
    (l : Limits) (now : ℕ) (id rid : String) (c : Option String) (d : Processed)
    → IsCounted d
    → IsCounted (admit l now id rid c d).processed
admit-IsCounted l now id rid c d h =
    admit_cases (λ o. IsCounted o.processed) l now id rid c d (λ r. h)
      (λ new _ _ _. remember-IsCounted now c id d new h)

cleanup_clients-IsCounted :
    (l : Limits) (now : ℕ) (cs : JsMap String Packets) (d : Processed)
    → IsCounted d
    → IsCounted (cleanup_clients l now cs d)
unfolding cleanup_clients
cleanup_clients-IsCounted l now [] d h = h
cleanup_clients-IsCounted l now (c ∷ cs) d h = refl

pub step-IsCounted :
    (l : Limits) (d : Processed) (e : ℕ × Event) → IsCounted d → IsCounted (step l d e)
unfolding step accept_packet cleanup
step-IsCounted l d (now, packet id rid c) h =
    admit-IsCounted l now id rid c _ (forget_expired-IsCounted l now c d h)
step-IsCounted l d (now, sweep) h =
    cleanup_clients-IsCounted l now d.by_client
      (record d { packets = drop_expired l now d.packets }) h
