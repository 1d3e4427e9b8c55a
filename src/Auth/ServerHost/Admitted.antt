-- ===== src/Auth/ServerHost/Admitted.antt =====
-- A peer becomes a client of the host only with a valid password.
use perfect_ws.Base.{
  ℕ, ◌≡◌, refl, ap, String, Bool, true, false, not, ◌&&◌, ◌||◌, Option, none, some, List, [], ◌∷◌,
  arith, if_both, Eq, ◌==◌, string_eq, nat_eq, any, Bool-cases, Option-cases, inl, inr, is_some,
  is_some,
}
use perfect_ws.JsMap.{get}
use perfect_ws.Auth.RateLimiter.{Limiter}
use perfect_ws.Auth.ServerHost.{
  Expected, Stage, last, initialization, ready, client_in, is_awaiting_id, is_awaiting_password,
  Phase, awaits_password, awaits_id, over, awaits_last, awaits_initialization, awaits_ready,
  attached, Connection, Config, Host, Event, connects, gives_password, gives_id, last_closes,
  initializes, readies, socket_closes, set_phase, on_ready, resume, resume_ref, of_event, step, run,
}
use perfect_ws.Auth.ServerHost.Held.{
  valid_answer, passed, passed_of, Holds, grows, set_phase-Holds, refuse-Holds, on_connection-Holds,
  on_close-Holds, on_password-Holds, on_id-Holds, on_ready-Holds,
}

id_passed : (phase : Phase) → (passed phase || not (is_awaiting_id phase)) ≡ true
unfolding is_awaiting_id
id_passed awaits_password = refl
id_passed awaits_id = refl
id_passed over = refl
id_passed (awaits_last c) = refl
id_passed (awaits_initialization c) = refl
id_passed (awaits_ready c) = refl
id_passed (attached c) = refl

stage_passed :
    (st : Stage) (phase : Phase) → (passed phase || not (is_some (client_in st phase))) ≡ true
unfolding client_in
stage_passed st awaits_id = refl
stage_passed st (awaits_last c) = refl
stage_passed st (awaits_initialization c) = refl
stage_passed st (awaits_ready c) = refl
stage_passed st (attached c) = refl
stage_passed last awaits_password = refl
stage_passed initialization awaits_password = refl
stage_passed ready awaits_password = refl
stage_passed last over = refl
stage_passed initialization over = refl
stage_passed ready over = refl

-- The peer has given a valid password on this socket.
abbrev pub gave_password : {V : Type 0} → ⦃e : Eq V⦄ → Expected V → ℕ → Event V → Bool
gave_password expected r (connects now key) = false
gave_password expected r (gives_password now ref answer) = ref == r && valid_answer expected answer
gave_password expected r (gives_id ref answer last_open) = false
gave_password expected r (last_closes ref) = false
gave_password expected r (initializes ref succeeds) = false
gave_password expected r (readies ref attaches) = false
gave_password expected r (socket_closes ref) = false

module _ {V : Type 0} ⦃e : Eq V⦄ (config : Config V) (ok : ℕ → Bool) where
  -- The event gives no valid password but for those sockets.
  abbrev Allows : Event V → Type 0
  Allows event = (r : ℕ) → (not (gave_password config.password r event) || ok r) ≡ true

  stage-Holds :
      (st : Stage) (r : ℕ) (k : Connection) (f : String → Host) (h : Host)
      → (not (passed k.phase) || ok r) ≡ true
      → ((c : String) → ok r ≡ true → Holds ok (f c))
      → Holds ok h
      → Holds ok (elim (client_in st k.phase) [ none ↦ h | some c ↦ f c ])
  stage-Holds st r k f h p g w = elim (Option-cases (client_in st k.phase)) [
    | inl e ↦ simp e w
    | inr (c, e) ↦ simp e (g c (ground (arith, e, p, stage_passed st k.phase)))
  ]

  resume-Holds :
      (event : Event V) (r : ℕ) (k : Connection) (h : Host)
      → of_event event ≡ some r
      → Allows event
      → (not (passed k.phase) || ok r) ≡ true
      → Holds ok h
      → Holds ok (resume config event r k h)
  unfolding resume of_event
  resume-Holds (connects now key) r k h q a p w = w
  resume-Holds (gives_password now ref answer) r k h q a p w =
      if_both (Holds ok) (is_awaiting_password k.phase) _ h
        (on_password-Holds config ok now r k answer h (ground (arith, q, a r)) w) w
  resume-Holds (gives_id ref answer last_open) r k h q a p w =
      elim (Bool-cases (is_awaiting_id k.phase)) [
        | inl f ↦ simp f (
            on_id-Holds config ok r k answer last_open h (ground (arith, p, f, id_passed k.phase))
              w)
        | inr f ↦ simp f w
      ]
  resume-Holds (last_closes ref) r k h q a p w =
      stage-Holds last r k (λ c. set_phase r k (awaits_initialization c) h) h p
        (λ c o. set_phase-Holds ok r k (awaits_initialization c) h o w) w
  resume-Holds (initializes ref succeeds) r k h q a p w =
      stage-Holds initialization r k _ h p
        (λ c o.
          if_both (Holds ok) succeeds _ _ (set_phase-Holds ok r k (awaits_ready c) h o w)
            (refuse-Holds ok r k 3000 h w))
        w
  resume-Holds (readies ref attaches) r k h q a p w =
      stage-Holds ready r k (λ c. on_ready r k c attaches h) h p
        (λ c o. on_ready-Holds config ok r k c attaches h o w) w
  resume-Holds (socket_closes ref) r k h q a p w = on_close-Holds config ok r k h p w

  at_ref :
      (event : Event V) (r : ℕ) (h : Host)
      → of_event event ≡ some r
      → Allows event
      → Holds ok h
      → Holds ok (resume_ref config event (some r) h)
  unfolding resume_ref
  at_ref event r h q a (f, g) = elim (Option-cases (get h.connections r)) [
    | inl e ↦ simp (e, resume_ref) (f, g)
    | inr (k, e) ↦
        simp (e, resume_ref)
          (resume-Holds event r k h q a (ground (arith, ap passed_of e, f r)) (f, g))
  ]

  step-Holds :
      (event : Event V) (h : Host) → Allows event → Holds ok h → Holds ok (step config event h)
  unfolding step
  step-Holds (connects now key) h a w = on_connection-Holds config ok now key h w
  step-Holds (gives_password now ref answer) h a w =
      at_ref (gives_password now ref answer) ref h refl a w
  step-Holds (gives_id ref answer last_open) h a w =
      at_ref (gives_id ref answer last_open) ref h refl a w
  step-Holds (last_closes ref) h a w = at_ref (last_closes ref) ref h refl a w
  step-Holds (initializes ref succeeds) h a w = at_ref (initializes ref succeeds) ref h refl a w
  step-Holds (readies ref attaches) h a w = at_ref (readies ref attaches) ref h refl a w
  step-Holds (socket_closes ref) h a w = at_ref (socket_closes ref) ref h refl a w

module _ {V : Type 0} ⦃e : Eq V⦄ (config : Config V) (limiter : Option Limiter) where
  has_valid : List (Event V) → ℕ → Bool
  has_valid events r = any (gave_password config.password r) events

  run-Holds : (events : List (Event V)) → Holds (has_valid events) (run config limiter events)
  unfolding run has_valid get
  run-Holds [] = (λ r. refl, λ c. refl)
  run-Holds (event ∷ events) =
      step-Holds config (has_valid (event ∷ events)) event (run config limiter events)
        (λ r. ground arith)
        (grows (has_valid events) (has_valid (event ∷ events)) (λ r. ground arith) _ _
          (run-Holds events))

  -- Whatever peers do and in whatever order, a socket that the host lists as that of a client has
  -- answered the request for the password with one that is valid.
  pub clients-IsValid :
      (events : List (Event V)) (client : String) (r : ℕ)
      → get (run config limiter events).clients client ≡ some r
      → any (gave_password config.password r) events ≡ true
  unfolding has_valid
  clients-IsValid events client r e = ground (arith, e, (run-Holds events).1 client)
