-- ===== src/Admission/Sync.antt =====
-- The handler of `___syncRequests` in `__initPrivateMethods` of src/PerfectWS.ts: a client names the
-- requests that it still waits for. What becomes of a response that is released or sent an abort is its
-- own (see Response); the application's listeners to the abort are taken to leave the table alone.
use perfect_ws.Base.{
  ap, ℕ, ◌≡◌, refl, String, Bool, true, false, ltb, not, ◌&&◌, ◌||◌, List, [], ◌∷◌, ◌++◌, map,
  if◌then◌else◌, is_some, ◌==◌, string_eq, nat_eq, keep_if, any, arith, Bool-cases, inl, inr,
}
use perfect_ws.Response.{Response, Env, release_response, on_request_abort, can_finish}
use perfect_ws.Response.Events.{Reach}
use perfect_ws.Response.Flags.{IsConsistent, response-IsConsistent}
use perfect_ws.Admission.{Active, find_own, is_response}

pub record Synced : Type 0 where
  pub active : List Active
  -- those to which `___abort` was emitted, with the text `Unknown request`
  pub aborted : List ℕ
  -- those that send through the socket of the handler from then on
  pub connected : List ℕ

abbrev pub names : String → List String → Bool
names id ids = any (λ i. i == id) ids

-- `response.release(true)`, or the emission of `___abort` to the listener of a response.
unfoldable pub end_unnamed : {D : Type 0} → Env → Response D → Response D
unfolding release_response on_request_abort
end_unnamed env r =
    if r.active_ended
    then release_response env true r
    else if r.channel_attached
    then on_request_abort env r
    else r

module _ {D : Type 0} (env : ℕ → Env) (response : ℕ → Response D) (client current : String)
    (ids : List String) where
  unfoldable pub sync_response : Active → Synced → Synced
  unfolding end_unnamed
  sync_response a r =
      let left =
        if (end_unnamed (env a.ref) (response a.ref)).registered
        then r.active
        else keep_if (λ b. not (b.ref == a.ref)) r.active in
      if a.of_request == current
      then r
      else if names a.of_request ids
      then record r { connected = r.connected ++ (a.ref ∷ []) }
      else if (response a.ref).active_ended
      then record r { active = left }
      else record r { active = left; aborted = r.aborted ++ (a.ref ∷ []) }

  unfoldable pub sync_each : List Active → Synced → Synced
  unfolding sync_response
  sync_each [] r = r
  sync_each (a ∷ rest) r = sync_each rest (sync_response a r)

  unfoldable pub sync_responses : List Active → Synced
  unfolding sync_each
  sync_responses active =
      sync_each (keep_if (λ a. a.of_client == client) active)
        (record { active = active; aborted = []; connected = [] })

-- The answer: the requests that the server does not know.
pub unknown_requests : String → List String → List Active → List String
unknown_requests client ids active =
    let known = map (λ a. a.of_request) (keep_if (λ a. a.of_client == client) active) in
    keep_if (λ id. not (names id known)) ids

names-keep_if :
    (id : String) (p : String → Bool) (ids : List String)
    → names id (keep_if p ids) ≡ (names id ids && p id)
names-keep_if id p [] = refl
names-keep_if id p (i ∷ ids) = elim (Bool-cases (i == id)) [
  | inl e ↦ ground (arith, e, names-keep_if id p ids, ap p ((string_eq.same_iff i id).0 e))
  | inr e ↦ ground (arith, e, names-keep_if id p ids)
]

names-known :
    (client id : String) (active : List Active)
    → names id (map (λ a. a.of_request) (keep_if (λ a. a.of_client == client) active))
      ≡ is_some (find_own client id active)
unfolding find_own is_response
names-known client id [] = refl
names-known client id (a ∷ active) = ground (arith, names-known client id active)

-- The answer names exactly those of the client's requests for which it has no active response.
pub names-unknown_requests :
    (client id : String) (ids : List String) (active : List Active)
    → names id (unknown_requests client ids active)
      ≡ (names id ids && not (is_some (find_own client id active)))
unfolding unknown_requests
names-unknown_requests client id ids active =
    let known = map (λ a. a.of_request) (keep_if (λ a. a.of_client == client) active) in
    ground (arith, names-keep_if id (λ i. not (names i known)) ids, names-known client id active)

any-keep_if {ℓ} :
    {A : Type ℓ} (p q : A → Bool) (xs : List A) → any p (keep_if q xs) ≡ any (λ x. q x && p x) xs
any-keep_if p q [] = refl
any-keep_if p q (x ∷ xs) = ground (arith, any-keep_if p q xs)

any-append_one {ℓ} :
    {A : Type ℓ} (p : A → Bool) (xs : List A) (y : A) → any p (xs ++ (y ∷ [])) ≡ (any p xs || p y)
any-append_one p [] y = ground arith
any-append_one p (x ∷ xs) y = ground (arith, any-append_one p xs y)

abbrev pub has_ref : ℕ → List Active → Bool
has_ref r active = any (λ a. a.ref == r) active

has_ref-drop :
    (r s : ℕ) (active : List Active)
    → has_ref r (keep_if (λ b. not (b.ref == s)) active) ≡ (has_ref r active && not (s == r))
has_ref-drop r s [] = refl
has_ref-drop r s (a ∷ active) = ground (arith, has_ref-drop r s active)

module _ {D : Type 0} where
  -- An abort leaves a response in the table only if it was still to be answered, and either its channel
  -- is kept alive or a durable send is under way and the router is not gone.
  abbrev pub may_stay : Env → Response D → Bool
  may_stay env r =
      can_finish r && (env.keep_alive || (ltb 0 r.pending_durable_sends && not env.unregistered))

  end_unnamed-registered :
      (env : Env) (r : Response D)
      → IsConsistent r
      → r.response_released ≡ false
      → (end_unnamed env r).registered ≡ may_stay env r
  unfolding end_unnamed
  end_unnamed-registered env r c h = ground arith

module _ {D : Type 0} (env : ℕ → Env) (response : ℕ → Response D) (client current : String)
    (ids : List String) where
  -- Neither the request of the handler itself nor one that the client names.
  abbrev pub is_unnamed : Active → Bool
  is_unnamed a = not (a.of_request == current) && not (names a.of_request ids)

  abbrev pub drops : ℕ → Active → Bool
  drops r a = a.ref == r && (is_unnamed a && not (may_stay (env r) (response r)))

  abbrev pub aborts : ℕ → Active → Bool
  aborts r a = a.ref == r && (is_unnamed a && not (response r).active_ended)

  sync_response-settles :
      (r : ℕ) (a : Active) (s : Synced)
      → IsConsistent (response a.ref)
      → (response a.ref).response_released ≡ false
      → (has_ref r (sync_response env response client current ids a s).active
          ≡ (has_ref r s.active && not (drops r a)))
        × (any (λ i. i == r) (sync_response env response client current ids a s).aborted
            ≡ (any (λ i. i == r) s.aborted || aborts r a))
  unfolding sync_response
  sync_response-settles r a s c h =
      let g = end_unnamed-registered (env a.ref) (response a.ref) c h in
      elim (Bool-cases (a.ref == r)) [
        | inl e ↦
            let p = (nat_eq.same_iff a.ref r).0 e in
            (
              ground (arith, p, e, g, has_ref-drop r a.ref s.active),
              ground (arith, p, e, any-append_one (λ i. i == r) s.aborted a.ref),
            )
        | inr e ↦ (
          ground (arith, e, g, has_ref-drop r a.ref s.active),
          ground (arith, e, any-append_one (λ i. i == r) s.aborted a.ref),
        )
      ]

  sync_each-settles :
      (r : ℕ) (xs : List Active) (s : Synced)
      → ((i : ℕ) → IsConsistent (response i))
      → ((i : ℕ) → (response i).response_released ≡ false)
      → (has_ref r (sync_each env response client current ids xs s).active
          ≡ (has_ref r s.active && not (any (drops r) xs)))
        × (any (λ a. a == r) (sync_each env response client current ids xs s).aborted
            ≡ (any (λ a. a == r) s.aborted || any (aborts r) xs))
  unfolding sync_each
  sync_each-settles r [] s c h = (ground arith, ground arith)
  sync_each-settles r (a ∷ xs) s c h =
      let (f, g) = sync_each-settles r xs (sync_response env response client current ids a s) c h in
      let (f', g') = sync_response-settles r a s (c a.ref) (h a.ref) in
      (ground (arith, f, f'), ground (arith, g, g'))

  -- Where the responses are in states that they can reach and none is released yet: a response leaves
  -- the table exactly if it is one of the client, neither the handler's own nor named, unless it is
  -- still to be answered and its channel is kept alive or a durable send of it is under way on a router
  -- that is not gone; and an abort goes exactly to those of the client that are neither the handler's
  -- own nor named, and have not ended.
  pub sync_responses-settles :
      (calm : Bool) (ws : ℕ → ℕ) (timed : ℕ → Bool) (r : ℕ) (active : List Active)
      → ((i : ℕ) → Reach calm (ws i) (timed i) (response i))
      → ((i : ℕ) → (response i).response_released ≡ false)
      → (has_ref r (sync_responses env response client current ids active).active
          ≡ (has_ref r active && not (any (λ a. a.of_client == client && drops r a) active)))
        × (any (λ a. a == r) (sync_responses env response client current ids active).aborted
            ≡ any (λ a. a.of_client == client && aborts r a) active)
  unfolding sync_responses
  sync_responses-settles calm ws timed r active reach h =
      let q = λ (a : Active). a.of_client == client in
      let (f, g) =
        sync_each-settles r (keep_if q active)
          (record { active = active; aborted = []; connected = [] })
          (λ i. response-IsConsistent (ws i) (timed i) (response i) (reach i)) h in
      (
        ground (arith, f, any-keep_if (drops r) q active),
        ground (arith, g, any-keep_if (aborts r) q active),
      )
