-- ===== src/Admission/Keeps.antt =====
-- What a packet of one client does to the list of responses: it takes away responses of that client,
-- and adds at most one, of a request that is not known and where the limit is not reached.
use perfect_ws.Base.{
  ℕ, ◌<◌, ◌≡◌, String, Bool, true, false, not, ◌&&◌, ◌||◌, some, List, [], ◌∷◌, ◌++◌, leb, ◌==◌,
  string_eq, nat_eq, count_if, keep_if, arith, if_both, Bool-cases, Option-cases, inl, inr,
}
use perfect_ws.JsMap.{set}
use perfect_ws.Ack.Dedupe.{accept_packet}
use perfect_ws.PendingAborts.{is_full}
use perfect_ws.Admission.{
  Active, Packet, Server, Verdict, Config, is_response, find_response, counts_with, release_syncs,
  new_active, begin_route, begin_response, request_limit, admit_request, on_unknown_event,
  on_unknown, on_accepted, on_numbered, on_client, dedupe_client,
}
use perfect_ws.Admission.Counts.{count_if-keep_if, find_response-none}

-- A property of the list that the packets of a client keep.
pub record IsKept {ℓ} (config : Config) (P : List Active → Type ℓ) (client : String) : Type ℓ where
  pub by_drop :
      (q : Active → Bool)
      → ((a : Active) → (a.of_client == client) ≡ false → q a ≡ true)
      → (active : List Active) → P active
      → P (keep_if q active)
  pub by_add :
      (r : ℕ) (p : Packet) (active : List Active)
      → count_if (is_response client p.request_id) active ≡ 0
      → count_if (counts_with client p.method) active < request_limit config p.method
      → P active
      → P (active ++ (new_active r client p ∷ []))

module _ {ℓ} (config : Config) (key : String → String → String) (is_route : String → Bool)
    {P : List Active → Type ℓ} {client : String} (k : IsKept config P client) where
  abbrev Kept : Server × Verdict → Type ℓ
  Kept r = P r.0.active

  begin_response-Kept :
      (p : Packet) (s : Server)
      → P (s.active ++ (new_active s.next_ref client p ∷ []))
      → Kept (begin_response config key is_route client p s)
  unfolding begin_response begin_route
  begin_response-Kept p s h = if_both Kept (is_route p.method) _ _ h h

  admit_request-Kept :
      (p : Packet) (s : Server)
      → count_if (is_response client p.request_id) s.active ≡ 0
      → P s.active
      → Kept (admit_request config key is_route client p s)
  unfolding admit_request
  admit_request-Kept p s z h =
      elim (Bool-cases
        (leb (request_limit config p.method) (count_if (counts_with client p.method) s.active))) [
          | inl e ↦ simp (e, admit_request) h
          | inr e ↦
              simp (e, admit_request)
                (begin_response-Kept p s (k.by_add s.next_ref p s.active z (ground (arith, e)) h))
        ]

  release_syncs-Kept :
      (p : Packet) (active : List Active) → P active → P (release_syncs client p active)
  unfolding release_syncs
  release_syncs-Kept p active h =
      if_both P (p.method == "___syncRequests") _ active
        (k.by_drop _ (λ a e. ground (arith, e)) active h) h

  release_syncs-count :
      (q : Active → Bool) (p : Packet) (active : List Active)
      → count_if q active ≡ 0
      → count_if q (release_syncs client p active) ≡ 0
  unfolding release_syncs
  release_syncs-count q p active z =
      if_both (λ xs. count_if q xs ≡ 0) (p.method == "___syncRequests") _ active
        (omega (
          arith,
          z,
          count_if-keep_if q
              (λ a. not (
                not (a.of_request == p.request_id)
                && (a.of_client == client && a.of_method == p.method)))
              active,
        ))
        z

  on_unknown_event-Kept :
      (now : ℕ) (p : Packet) (event : String) (s : Server)
      → P s.active
      → Kept (on_unknown_event config key is_route now client p event s)
  unfolding on_unknown_event
  on_unknown_event-Kept now p event s h =
      if_both Kept (event == "___abort") _ _
        (if_both Kept (is_full key config.abort_config client p.request_id s.aborts) _ _ h h)
        (if_both Kept (event == "___session.release") _ _
          (k.by_drop (λ a. not (a.of_client == client)) (λ a e. ground (arith, e)) s.active h)
          (if_both Kept (event == "___request.release") _ _ h h))

  on_unknown-Kept :
      (now : ℕ) (p : Packet) (s : Server)
      → count_if (is_response client p.request_id) s.active ≡ 0
      → P s.active
      → Kept (on_unknown config key is_route now client p s)
  unfolding on_unknown
  on_unknown-Kept now p s z h =
      let released : Server = record s { active = release_syncs client p s.active } in
      if_both Kept p.valid_timeout _ _
        (elim (Option-cases p.event) [
          | inl e ↦ simp e (
              admit_request-Kept p released
                (release_syncs-count (is_response client p.request_id) p s.active z)
                (release_syncs-Kept p s.active h))
          | inr (event, e) ↦ simp e (on_unknown_event-Kept now p event s h)
        ])
        h

  on_accepted-Kept :
      (now : ℕ) (p : Packet) (s : Server)
      → P s.active
      → Kept (on_accepted config key is_route now client p s)
  unfolding on_accepted
  on_accepted-Kept now p s h =
      elim (Option-cases (find_response key client p.request_id s.active)) [
        | inl e ↦
            simp (e, on_accepted)
              (on_unknown-Kept now p s (find_response-none key client p.request_id s.active e) h)
        | inr (a, e) ↦ simp (e, on_accepted) h
      ]

  on_numbered-Kept :
      (now : ℕ) (p : Packet) (d : String) (s : Server)
      → P s.active
      → Kept (on_numbered config key is_route now client p d s)
  unfolding on_numbered
  on_numbered-Kept now p d s h =
      let o = accept_packet config.limits now p.packet_id p.request_id (some d) s.processed in
      if_both Kept o.accepted _ _ (on_accepted-Kept now p (record s { processed = o.processed }) h)
        h

  pub on_client-Kept :
      (now socket : ℕ) (p : Packet) (s : Server)
      → P s.active
      → Kept (on_client config key is_route now socket client p s)
  unfolding on_client
  on_client-Kept now socket p s h =
      let d = dedupe_client socket client s.dedupe_clients in
      let noted : Server = record s { dedupe_clients = set s.dedupe_clients socket d } in
      if_both Kept ((config.enable_ack_system || p.require_ack) && not (p.packet_id == "")) _ _
        (on_numbered-Kept now p d noted h) (on_accepted-Kept now p noted h)
