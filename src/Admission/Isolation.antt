-- ===== src/Admission/Isolation.antt =====
-- The packets of one client leave the responses of the others alone, and reach its own.
use perfect_ws.Base.{
  ℕ, String, ◌≡◌, refl, ◌∙◌, inl, inr, Bool, true, false, not, ◌&&◌, ◌||◌, Option, none, some, List,
  [], ◌∷◌, arith, Bool-cases, Option-cases, if_both, keep_if, any, ◌==◌, beq_refl, nat_eq,
  string_eq,
}
use perfect_ws.Admission.{
  Packet, Active, Server, Verdict, reached, Config, claimed_identity, identify, is_response,
  find_own, find_under, find_response, new_active, dedupe_client, begin_route, begin_response,
  admit_request, on_unknown_event, on_unknown, on_accepted, on_numbered, on_client, on_identified,
  on_request,
}
use perfect_ws.Admission.Counts.{keep_if-append, keep_if-keep_if}
use perfect_ws.Admission.Keeps.{IsKept, on_client-Kept}
use perfect_ws.Ack.Dedupe.{accept_packet}
use perfect_ws.JsMap.{set}

-- The responses of the other clients.
abbrev pub others : String → List Active → List Active
others client active = keep_if (λ a. not (a.of_client == client)) active

-- Where the packet reaches a response that is known, it is one of the client.
abbrev pub reaches_own : String → List Active → Verdict → Bool
reaches_own client active (reached ref) = any (λ a. a.ref == ref && a.of_client == client) active
reaches_own client active _ = true

find_under-none :
    (text : String) (active : List Active)
    → any (λ a. a.of_request == text) active ≡ false
    → find_under text active ≡ none
unfolding find_under
find_under-none text [] h = refl
find_under-none text (a ∷ active) h = ground (arith, h, find_under-none text active)

find_own-reaches :
    (client request : String) (active : List Active) (a : Active)
    → find_own client request active ≡ some a
    → any (λ x. x.ref == a.ref && x.of_client == client) active ≡ true
unfolding find_own is_response
find_own-reaches client request [] a h = absurd (ground (arith, h))
find_own-reaches client request (x ∷ active) a h =
    elim (Bool-cases (is_response client request x)) [
      | inl e ↦ ground (arith, h, e, nat_eq.same_iff x.ref a.ref)
      | inr e ↦ ground (arith, h, e, find_own-reaches client request active a)
    ]

module _ (config : Config) (client : String) where
  abbrev HasOthers : List Active → List Active → Type 0
  HasOthers others_now active = others client active ≡ others_now

  HasOthers-IsKept : (others_now : List Active) → IsKept config (HasOthers others_now) client
  unfolding new_active
  HasOthers-IsKept others_now = record {
    by_drop = λ q i active h.
        keep_if-keep_if (λ a. not (a.of_client == client)) q (λ a e. i a (ground (arith, e))) active
        ∙ h;
    by_add = λ r p active z l h.
        keep_if-append (λ a. not (a.of_client == client)) active (new_active r client p)
          (ground (arith, beq_refl client))
        ∙ h;
  }

module _ (config : Config) (key : String → String → String) (is_route : String → Bool) where
  module _ (b : String) where
    on_unknown-reaches_own :
        (now : ℕ) (p : Packet) (s : Server) (active : List Active)
        → reaches_own b active (on_unknown config key is_route now b p s).1 ≡ true
    unfolding on_unknown on_unknown_event admit_request begin_response begin_route
    on_unknown-reaches_own now p s active = ground arith

    on_accepted-reaches_own :
        (now : ℕ) (p : Packet) (s : Server)
        → any (λ a. a.of_request == key b p.request_id) s.active ≡ false
        → reaches_own b s.active (on_accepted config key is_route now b p s).1 ≡ true
    unfolding on_accepted find_response
    on_accepted-reaches_own now p s h = elim (Option-cases (find_own b p.request_id s.active)) [
      | inl f ↦ ground (
        arith,
        f,
        find_under-none (key b p.request_id) s.active h,
        on_unknown-reaches_own now p s s.active,
      )
      | inr (a, f) ↦ ground (arith, f, find_own-reaches b p.request_id s.active a f)
    ]

    on_numbered-reaches_own :
        (now : ℕ) (p : Packet) (d : String) (s : Server)
        → any (λ a. a.of_request == key b p.request_id) s.active ≡ false
        → reaches_own b s.active (on_numbered config key is_route now b p d s).1 ≡ true
    unfolding on_numbered
    on_numbered-reaches_own now p d s h =
        let o = accept_packet config.limits now p.packet_id p.request_id (some d) s.processed in
        if_both (λ (r : Server × Verdict). reaches_own b s.active r.1 ≡ true) o.accepted _ _
          (on_accepted-reaches_own now p (record s { processed = o.processed }) h) refl

    on_client-reaches_own :
        (now socket : ℕ) (p : Packet) (s : Server)
        → any (λ a. a.of_request == key b p.request_id) s.active ≡ false
        → reaches_own b s.active (on_client config key is_route now socket b p s).1 ≡ true
    unfolding on_client
    on_client-reaches_own now socket p s h =
        let d = dedupe_client socket b s.dedupe_clients in
        let noted : Server = record s { dedupe_clients = set s.dedupe_clients socket d } in
        if_both (λ (r : Server × Verdict). reaches_own b s.active r.1 ≡ true)
          ((config.enable_ack_system || p.require_ack) && not (p.packet_id == "")) _ _
          (on_numbered-reaches_own now p d noted h) (on_accepted-reaches_own now p noted h)

    on_identified-reaches_own :
        (now socket : ℕ) (claimed : Option String) (p : Packet) (s : Server)
        → any (λ a. a.of_request == key b p.request_id) s.active ≡ false
        → reaches_own b s.active
            (on_identified config key is_route now socket (identify (some b) claimed) p s).1
          ≡ true
    unfolding identify claimed_identity on_identified
    on_identified-reaches_own now socket none p s h = refl
    on_identified-reaches_own now socket (some c) p s h = elim (Bool-cases (c == b)) [
      | inl e ↦ elim (Bool-cases (c == "")) [
        | inl f ↦ rw (e, f) refl
        | inr f ↦ rw (e, f, (string_eq.same_iff c b).0 e) (on_client-reaches_own now socket p s h)
      ]
      | inr e ↦ rw e refl
    ]

    on_request-reaches_own :
        (now socket : ℕ) (p : Packet) (s : Server)
        → any (λ a. a.of_request == key b p.request_id) s.active ≡ false
        → reaches_own b s.active
            (on_request config key is_route now (record { socket = socket; bound = some b }) p s).1
          ≡ true
    unfolding on_request
    on_request-reaches_own now socket p s h =
        let own = on_identified-reaches_own now socket p.client_id p s h in
        if_both (λ (r : Server × Verdict). reaches_own b s.active r.1 ≡ true) (p.method == "___ack")
          _ _ (elim (Option-cases p.ack_for) [ inl e ↦ simp e own | inr (id, e) ↦ simp e refl ]) own

  on_identified-others :
      (now socket : ℕ) (b : String) (claimed : Option String) (p : Packet) (s : Server)
      → others b
          (on_identified config key is_route now socket (identify (some b) claimed) p s).0.active
        ≡ others b s.active
  unfolding identify claimed_identity on_identified
  on_identified-others now socket b none p s = refl
  on_identified-others now socket b (some c) p s = elim (Bool-cases (c == b)) [
    | inl e ↦ elim (Bool-cases (c == "")) [
      | inl f ↦ rw (e, f) refl
      | inr f ↦
          rw (e, f, (string_eq.same_iff c b).0 e)
            (on_client-Kept config key is_route (HasOthers-IsKept config b (others b s.active)) now
              socket p s refl)
    ]
    | inr e ↦ rw e refl
  ]

  others-kept :
      (now socket : ℕ) (b : String) (p : Packet) (s : Server)
      → others b
          (on_request config key is_route now
            (record { socket = socket; bound = some b })
            p
            s).0.active
        ≡ others b s.active
  unfolding on_request
  others-kept now socket b p s =
      let kept = on_identified-others now socket b p.client_id p s in
      if_both (λ (r : Server × Verdict). others b r.0.active ≡ others b s.active)
        (p.method == "___ack") _ _
        (elim (Option-cases p.ack_for) [ inl e ↦ simp e kept | inr (id, e) ↦ simp e refl ]) kept

  -- A packet on a socket that authentication has bound to a client leaves the responses of all other
  -- clients as they are, whatever client id, event or method it names; and unless a response has the
  -- text of that client and the packet's request id as its own request id, a response that the packet
  -- reaches is one of that client.
  pub others-on_request :
      (now socket : ℕ) (b : String) (p : Packet) (s : Server)
      → any (λ a. a.of_request == key b p.request_id) s.active ≡ false
      → (others b
            (on_request config key is_route now
              (record { socket = socket; bound = some b })
              p
              s).0.active
          ≡ others b s.active)
        × (reaches_own b s.active
              (on_request config key is_route now
                (record { socket = socket; bound = some b })
                p
                s).1
            ≡ true)
  others-on_request now socket b p s h =
      (others-kept now socket b p s, on_request-reaches_own b now socket p s h)
