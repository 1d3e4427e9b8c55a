-- ===== src/Admission/Capacity.antt =====
-- The limits on the number of responses, and that a request has one response at most.
use perfect_ws.Base.{
  count_if-append, ◌++◌, [], ◌∷◌, ℕ, ◌≤◌, ◌<◌, ◌≡◌, refl, String, Bool, true, not, List, [], ◌∷◌,
  ◌++◌, ◌==◌, string_eq, nat_eq, count_if, keep_if, arith, if_both, Bool-cases, Option-cases, inl,
  inr,
}
use perfect_ws.Admission.{
  Active, Packet, Client, Server, Config, is_response, counts_with, new_active, request_limit,
  Verdict, Identity, mismatch, missing, is_client, identify, on_identified, on_request, Event,
  packet, leaves, step, run,
}
use perfect_ws.Admission.Counts.{count_if-keep_if}
use perfect_ws.Admission.Keeps.{IsKept, on_client-Kept}

-- A client has at most one response for a request id, and the responses that a new one would be
-- counted with are never more than its limit.
abbrev pub IsWithin : Config → List Active → Type 0
IsWithin config active =
    ((client request : String) → count_if (is_response client request) active ≤ 1)
    × ((client method : String)
        → count_if (counts_with client method) active ≤ request_limit config method)

module _ (config : Config) where
  same_count :
      (c m client : String) (r : ℕ) (p : Packet) (active : List Active)
      → counts_with c m (new_active r client p) ≡ true
      → (count_if (counts_with c m) active ≡ count_if (counts_with client p.method) active)
        × (request_limit config m ≡ request_limit config p.method)
  unfolding counts_with new_active request_limit
  same_count c m client r p [] e = (refl, ground (arith, e, string_eq.same_iff p.method m))
  same_count c m client r p (a ∷ active) e =
      let (f, g) = same_count c m client r p active e in
      (ground (arith, e, f, string_eq.same_iff p.method m, string_eq.same_iff client c), g)

  add_within_limit :
      (client : String) (r : ℕ) (p : Packet) (active : List Active)
      → count_if (counts_with client p.method) active < request_limit config p.method
      → (c m : String) → count_if (counts_with c m) active ≤ request_limit config m
      → count_if (counts_with c m) (active ++ (new_active r client p ∷ [])) ≤ request_limit config m
  add_within_limit client r p active l c m h =
      elim (Bool-cases (counts_with c m (new_active r client p))) [
        | inl e ↦
            let (f, g) = same_count c m client r p active e in
            ground (
              arith,
              e,
              f,
              g,
              l,
              count_if-append (counts_with c m) active (new_active r client p ∷ []),
            )
        | inr e ↦
            ground
              (arith, e, h, count_if-append (counts_with c m) active (new_active r client p ∷ []))
      ]

  same_response :
      (c i client : String) (r : ℕ) (p : Packet) (active : List Active)
      → is_response c i (new_active r client p) ≡ true
      → count_if (is_response c i) active ≡ count_if (is_response client p.request_id) active
  unfolding is_response new_active
  same_response c i client r p [] e = refl
  same_response c i client r p (a ∷ active) e = ground (
    arith,
    e,
    same_response c i client r p active e,
    string_eq.same_iff p.request_id i,
    string_eq.same_iff client c,
  )

  add_once :
      (client : String) (r : ℕ) (p : Packet) (active : List Active)
      → count_if (is_response client p.request_id) active ≡ 0
      → (c i : String) → count_if (is_response c i) active ≤ 1
      → count_if (is_response c i) (active ++ (new_active r client p ∷ [])) ≤ 1
  add_once client r p active z c i h = elim (Bool-cases (is_response c i (new_active r client p))) [
    | inl e ↦ ground (
      arith,
      e,
      z,
      same_response c i client r p active e,
      count_if-append (is_response c i) active (new_active r client p ∷ []),
    )
    | inr e ↦
        ground (arith, e, h, count_if-append (is_response c i) active (new_active r client p ∷ []))
  ]

  drop-IsWithin :
      (q : Active → Bool) (active : List Active)
      → IsWithin config active
      → IsWithin config (keep_if q active)
  drop-IsWithin q active (h, l) = (
    λ c i. omega (arith, h c i, count_if-keep_if (is_response c i) q active),
    λ c m. omega (arith, l c m, count_if-keep_if (counts_with c m) q active),
  )

  IsWithin-IsKept : (client : String) → IsKept config (IsWithin config) client
  IsWithin-IsKept client = record {
    by_drop = λ q i active h. drop-IsWithin q active h;
    by_add = λ r p active z l (h, k). (
      λ c i. add_once client r p active z c i (h c i),
      λ c m. add_within_limit client r p active l c m (k c m),
    );
  }

  module _ (key : String → String → String) (is_route : String → Bool) where
    on_identified-IsWithin :
        (now socket : ℕ) (i : Identity) (p : Packet) (s : Server)
        → IsWithin config s.active
        → IsWithin config (on_identified config key is_route now socket i p s).0.active
    unfolding on_identified
    on_identified-IsWithin now socket mismatch p s h = h
    on_identified-IsWithin now socket missing p s h = h
    on_identified-IsWithin now socket (is_client c) p s h =
        on_client-Kept config key is_route (IsWithin-IsKept c) now socket p s h

    on_request-IsWithin :
        (now : ℕ) (client : Client) (p : Packet) (s : Server)
        → IsWithin config s.active
        → IsWithin config (on_request config key is_route now client p s).0.active
    unfolding on_request
    on_request-IsWithin now client p s h =
        let other =
          on_identified-IsWithin now client.socket (identify client.bound p.client_id) p s h in
        if_both (λ (r : Server × Verdict). IsWithin config r.0.active) (p.method == "___ack") _ _
          (elim (Option-cases p.ack_for) [ inl e ↦ simp e other | inr (id, e) ↦ simp e h ]) other

    -- However packets come and responses are released, a client has at most one response for a
    -- request id, and the responses that a request is counted with are never more than the limit for
    -- its method: for an exempt method the client's internal ones of that method, for any other
    -- method all that are not internal.
    pub run-IsWithin :
        (s : Server) (es : List (Event config key is_route))
        → IsWithin config s.active
        → IsWithin config (run config key is_route s es).active
    unfolding run step
    run-IsWithin s [] h = h
    run-IsWithin s (packet now client p ∷ es) h =
        run-IsWithin (on_request config key is_route now client p s).0 es
          (on_request-IsWithin now client p s h)
    run-IsWithin s (leaves ref ∷ es) h =
        run-IsWithin (record s { active = keep_if (λ a. not (a.ref == ref)) s.active }) es
          (drop-IsWithin (λ a. not (a.ref == ref)) s.active h)
