-- ===== src/Auth/RemoteServer/Attempts.antt =====
-- How often an attachment connects, and what it waits before.
use perfect_ws.Base.{
  ℕ, suc, ◌<◌, ◌≡◌, refl, ◌∙◌, Bool, true, false, ◌&&◌, ◌||◌, Option, none, List, [], ◌∷◌, arith,
  ltb, leb, if_both, if_cases, option_cases, length, All, ◌==◌, nat_eq, string_eq,
}
use perfect_ws.JsMap.{JsMap}
use perfect_ws.Auth.RemoteServer.{
  Options, Phase, connected, sleeping, ended, Attachment, forget_client, register_client,
  unregister, stop, reconnects, delay_after, enter, leave, attach, Event, registers_client,
  cannot_connect, wakes, unregisters, stops, closes, step, run,
}

pub phase_cases :
    (P : Attachment → Type 0) (p : Phase) (x y z : Attachment)
    → (p ≡ connected → P x)
    → (p ≡ sleeping → P y)
    → (p ≡ ended → P z)
    → P (elim p [ connected ↦ x | sleeping ↦ y | ended ↦ z ])
phase_cases P connected x y z f g h = f refl
phase_cases P sleeping x y z f g h = g refl
phase_cases P ended x y z f g h = h refl

paced : Phase → (attempts waits : ℕ) → Bool
paced connected n w = n == suc w
paced sleeping n w = n == w && ltb 0 w
paced ended n w = ltb 0 n && leb n (suc w)

forget_client-phase : (a : Attachment) → (forget_client a).phase ≡ a.phase
unfolding forget_client
forget_client-phase a = ground arith

module _ (o : Options) where
  record IsPaced (a : Attachment) : Type 0 where
    -- an attempt after the first has a wait of its own
    attempts_paced : paced a.phase a.attempts (length a.waits) ≡ true
    -- each wait is as long as its close code asks for
    delays : All (λ w. w.1 ≡ delay_after o w.0) a.waits
    single : reconnects o ≡ false → a.waits ≡ []

  enter-IsPaced :
      (a : Attachment)
      → a.attempts ≡ length a.waits
      → 0 < a.attempts
      → All (λ w. w.1 ≡ delay_after o w.0) a.waits
      → (reconnects o ≡ false → a.waits ≡ [])
      → IsPaced (enter o a)
  unfolding enter paced
  enter-IsPaced a p q d s =
      if_both IsPaced (a.attach_on && ((reconnects o && a.on) || a.attempts == 0)) _ _
        (record { attempts_paced = ground (arith, p); delays = d; single = s })
        (record { attempts_paced = ground (arith, p, q); delays = d; single = s })

  leave-IsPaced :
      (code : Option ℕ) (a : Attachment)
      → a.attempts ≡ suc (length a.waits)
      → All (λ w. w.1 ≡ delay_after o w.0) a.waits
      → (reconnects o ≡ false → a.waits ≡ [])
      → IsPaced (leave o code a)
  unfolding leave enter paced
  leave-IsPaced code a p d s =
      if_cases IsPaced (a.attach_on && (reconnects o && a.on)) _ _
        (λ e. record {
          attempts_paced = ground (arith, p);
          delays = (refl, d);
          single = λ r. absurd (ground (arith, e, r));
        })
        (λ e.
          if_cases IsPaced (a.attach_on && ((reconnects o && a.on) || a.attempts == 0)) _ _
            (λ f. absurd (ground (arith, e, f, p)))
            (λ f. record { attempts_paced = ground (arith, p); delays = d; single = s }))

  set-IsPaced :
      (a : Attachment) (b c d : Bool) (j : Option ℕ) (m : JsMap ℕ ℕ)
      → IsPaced a
      → IsPaced (record a { on = b; attach_on = c; handshake = d; client_id = j; clients = m })
  set-IsPaced a b c d j m h = record {
    attempts_paced = h.attempts_paced;
    delays = h.delays;
    single = h.single;
  }

  forget_client-IsPaced : (a : Attachment) → IsPaced a → IsPaced (forget_client a)
  unfolding forget_client
  forget_client-IsPaced a h =
      option_cases IsPaced a.client_id _ _ (λ e. h) (λ i e. set-IsPaced a _ _ _ _ _ h)

  leave_connected-IsPaced :
      (code : Option ℕ) (b : Attachment)
      → IsPaced b
      → b.phase ≡ connected
      → IsPaced (leave o code b)
  unfolding paced
  leave_connected-IsPaced code b g e =
      let p = g.attempts_paced in
      leave-IsPaced code b (ground (arith, p, e, nat_eq.same_iff b.attempts (suc (length b.waits))))
        g.delays g.single

  wake-IsPaced : (a : Attachment) → a.phase ≡ sleeping → IsPaced a → IsPaced (enter o a)
  unfolding paced
  wake-IsPaced a e h =
      let p = h.attempts_paced in
      enter-IsPaced a (ground (arith, p, e, nat_eq.same_iff a.attempts (length a.waits)))
        (ground (arith, p, e, nat_eq.same_iff a.attempts (length a.waits))) h.delays h.single

  step-IsPaced : (e : Event) (a : Attachment) → IsPaced a → IsPaced (step o e a)
  unfolding step register_client unregister stop
  step-IsPaced (registers_client k id) a h = set-IsPaced a _ _ _ _ _ h
  step-IsPaced cannot_connect a h =
      phase_cases IsPaced a.phase _ _ _
        (λ e. if_both IsPaced a.handshake _ _ (leave_connected-IsPaced none a h e) h) (λ e. h)
        (λ e. h)
  step-IsPaced (closes code) a h =
      phase_cases IsPaced a.phase _ _ _
        (λ e.
          leave_connected-IsPaced code (forget_client a) (forget_client-IsPaced a h)
            (forget_client-phase a ∙ e))
        (λ e. h) (λ e. h)
  step-IsPaced wakes a h =
      phase_cases IsPaced a.phase _ _ _ (λ e. h) (λ e. wake-IsPaced a e h) (λ e. h)
  step-IsPaced unregisters a h = set-IsPaced a _ _ _ _ _ h
  step-IsPaced stops a h = set-IsPaced a _ _ _ _ _ h

  attach-IsPaced : IsPaced (attach o)
  unfolding attach enter paced
  attach-IsPaced =
      if_cases IsPaced (true && ((reconnects o && true) || true)) _ _
        (λ e. record { attempts_paced = refl; delays = tt; single = λ r. refl })
        (λ e. absurd (ground (arith, e)))

  -- After any events, an attachment has connected once, and once more for each wait (one fewer while
  -- it waits, and at most so when it has ended); each wait is as long as the code of the close before
  -- it asks for; and without the reconnection to a URL it never waits.
  run-IsPaced : (es : List Event) → IsPaced (run o es (attach o))
  unfolding run
  run-IsPaced [] = attach-IsPaced
  run-IsPaced (e ∷ es) = step-IsPaced e (run o es (attach o)) (run-IsPaced es)

step-off :
    (o : Options) (e : Event) (a : Attachment)
    → a.attach_on ≡ false
    → ((step o e a).attach_on ≡ false) × ((step o e a).attempts ≡ a.attempts)
unfolding step leave enter forget_client register_client unregister stop
step-off o (registers_client k id) a h = (ground (arith, h), ground (arith, h))
step-off o cannot_connect a h = (ground (arith, h), ground (arith, h))
step-off o (closes code) a h = (ground (arith, h), ground (arith, h))
step-off o wakes a h = (ground (arith, h), ground (arith, h))
step-off o unregisters a h = (refl, refl)
step-off o stops a h = (refl, refl)

run-off :
    (o : Options) (es : List Event) (a : Attachment)
    → a.attach_on ≡ false
    → ((run o es a).attach_on ≡ false) × ((run o es a).attempts ≡ a.attempts)
unfolding run
run-off o [] a h = (h, refl)
run-off o (e ∷ es) a h =
    let (off, same) = run-off o es a h in
    let (off', same') = step-off o e (run o es a) off in (off', same' ∙ same)

-- After `unregister` or `stop` an attachment connects no more, whatever still happens to it.
pub run-unregister :
    (o : Options) (es : List Event) (a : Attachment)
    → ((run o es (unregister a)).attempts ≡ a.attempts)
      × ((run o es (stop a)).attempts ≡ a.attempts)
unfolding unregister stop
run-unregister o es a = ((run-off o es _ refl).1, (run-off o es _ refl).1)
