-- ===== src/Auth/ServerHost/Held.antt =====
-- Every step keeps that the connections past their password, and the clients, are among given
-- sockets.
use perfect_ws.Base.{
  ℕ, ◌≡◌, refl, sym, ap, String, Bool, true, false, not, ◌||◌, Option, none, some, [], ◌∷◌, ◌++◌,
  arith, if_both, Eq, ◌==◌, string_eq, nat_eq, Bool-cases, Option-cases, inl, inr, leb, ◌+◌, suc,
  keep_if,
}
use perfect_ws.JsMap.{JsMap, get, set, delete}
use perfect_ws.JsMap.Laws.{get-set, get-delete}
use perfect_ws.Auth.RateLimiter.{Limiter, is_blocked, record_failure, reset}
use perfect_ws.Auth.ServerHost.{
  Expected, validate_password, Phase, awaits_password, awaits_id, over, awaits_last,
  awaits_initialization, awaits_ready, attached, Connection, Config, Host, set_phase, refuse,
  with_limiter, blocked, on_connection, on_close, leave_clients, refuse_by_force, on_password,
  on_id, on_ready, wrong_password_close_code, rate_limited_close_code,
}

-- The phases that follow the password.
abbrev pub passed : Phase → Bool
passed awaits_password = false
passed over = false
passed awaits_id = true
passed (awaits_last c) = true
passed (awaits_initialization c) = true
passed (awaits_ready c) = true
passed (attached c) = true

abbrev pub passed_of : Option Connection → Bool
passed_of none = false
passed_of (some k) = passed k.phase

abbrev pub ok_of : (ℕ → Bool) → Option ℕ → Bool
ok_of ok none = true
ok_of ok (some r) = ok r

-- Every connection past its password, and every client, is one of those.
abbrev IsAmong : (ℕ → Bool) → JsMap ℕ Connection → JsMap String ℕ → Type 0
IsAmong ok connections clients =
    ((r : ℕ) → (not (passed_of (get connections r)) || ok r) ≡ true)
    × ((c : String) → ok_of ok (get clients c) ≡ true)

abbrev pub Holds : (ℕ → Bool) → Host → Type 0
Holds ok h = IsAmong ok h.connections h.clients

pub grows :
    (ok ok' : ℕ → Bool)
    → ((r : ℕ) → (not (ok r) || ok' r) ≡ true)
    → (m : JsMap ℕ Connection) (clients : JsMap String ℕ) → IsAmong ok m clients
    → IsAmong ok' m clients
grows ok ok' i m clients (f, g) = (
  λ r. ground (arith, i r, f r),
  λ c. elim (Option-cases (get clients c)) [
    | inl e ↦ rw e refl
    | inr (r, e) ↦ rw e (ground (arith, i r, ap (ok_of ok) e, g c))
  ],
)

module _ (ok : ℕ → Bool) where
  set-IsAmong :
      (m : JsMap ℕ Connection) (clients : JsMap String ℕ) (r : ℕ) (k : Connection)
      → (not (passed k.phase) || ok r) ≡ true
      → IsAmong ok m clients
      → IsAmong ok (set m r k) clients
  set-IsAmong m clients r k p (h, g) = (
    λ j. elim (Bool-cases (r == j)) [
      | inl e ↦ rw (get-set m r j k, e, sym ((nat_eq.same_iff r j).0 e)) p
      | inr e ↦ rw (get-set m r j k, e) (h j)
    ],
    g,
  )

  set_client-IsAmong :
      (m : JsMap ℕ Connection) (clients : JsMap String ℕ) (c : String) (r : ℕ)
      → ok r ≡ true
      → IsAmong ok m clients
      → IsAmong ok m (set clients c r)
  set_client-IsAmong m clients c r p (h, g) = (
    h,
    λ d. elim (Bool-cases (c == d)) [
      | inl e ↦ rw (get-set clients c d r, e) p
      | inr e ↦ rw (get-set clients c d r, e) (g d)
    ],
  )

  delete-IsAmong :
      (m : JsMap ℕ Connection) (clients : JsMap String ℕ) (c : String)
      → IsAmong ok m clients
      → IsAmong ok m (delete clients c)
  delete-IsAmong m clients c (h, g) = (
    h,
    λ d. elim (Bool-cases (c == d)) [
      | inl e ↦ rw (get-delete clients c d, e) refl
      | inr e ↦ rw (get-delete clients c d, e) (g d)
    ],
  )

  leave_clients-IsAmong :
      (m : JsMap ℕ Connection) (phase : Phase) (clients : JsMap String ℕ)
      → IsAmong ok m clients
      → IsAmong ok m (leave_clients phase clients)
  unfolding leave_clients
  leave_clients-IsAmong m (attached c) clients w = delete-IsAmong m clients c w
  leave_clients-IsAmong m awaits_password clients w = w
  leave_clients-IsAmong m awaits_id clients w = w
  leave_clients-IsAmong m over clients w = w
  leave_clients-IsAmong m (awaits_last c) clients w = w
  leave_clients-IsAmong m (awaits_initialization c) clients w = w
  leave_clients-IsAmong m (awaits_ready c) clients w = w

  pub set_phase-Holds :
      (r : ℕ) (k : Connection) (phase : Phase) (h : Host)
      → (not (passed phase) || ok r) ≡ true
      → Holds ok h
      → Holds ok (set_phase r k phase h)
  unfolding set_phase
  set_phase-Holds r k phase h p w =
      set-IsAmong h.connections h.clients r (record k { phase = phase }) p w

  pub refuse-Holds :
      (r : ℕ) (k : Connection) (code : ℕ) (h : Host) → Holds ok h → Holds ok (refuse r k code h)
  unfolding refuse
  refuse-Holds r k code h w =
      set_phase-Holds r k over (record h { closes = h.closes ++ ((r, code) ∷ []) }) refl w

  with_limiter-Holds :
      (key : Option String) (change : String → Limiter → Limiter) (h : Host)
      → Holds ok h
      → Holds ok (with_limiter key change h)
  unfolding with_limiter
  with_limiter-Holds none change h w = w
  with_limiter-Holds (some key) change h w = elim (Option-cases h.limiter) [
    | inl e ↦ simp (e, with_limiter) w
    | inr (l, e) ↦ simp (e, with_limiter) w
  ]

abbrev pub valid_answer : {V : Type 0} → ⦃e : Eq V⦄ → Expected V → Option V → Bool
valid_answer expected none = false
valid_answer expected (some v) = validate_password v expected

module _ {V : Type 0} ⦃e : Eq V⦄ (config : Config V) (ok : ℕ → Bool) where
  pub on_connection-Holds :
      (now : ℕ) (key : Option String) (h : Host)
      → Holds ok h
      → Holds ok (on_connection config now key h)
  unfolding on_connection
  on_connection-Holds now key h w =
      let k : Connection = record { key = key; phase = awaits_password; is_open = true } in
      let begun : Host = record h {
        connection_count = h.connection_count + 1;
        pending_sockets = h.pending_sockets ++ (h.next_ref ∷ []);
        next_ref = suc h.next_ref;
      } in
      let asked = with_limiter key (λ k l. (is_blocked config.limits now k l).1) begun in
      let w' = with_limiter-Holds ok key (λ k l. (is_blocked config.limits now k l).1) begun w in
      if_both (Holds ok) (leb config.max_connections h.connection_count) _ _ w (
        if_both (Holds ok) (blocked config.limits now key h.limiter) _ _
          (refuse-Holds ok h.next_ref k rate_limited_close_code asked w')
          (set_phase-Holds ok h.next_ref k awaits_password asked refl w'))

  pub on_close-Holds :
      (r : ℕ) (k : Connection) (h : Host)
      → (not (passed k.phase) || ok r) ≡ true
      → Holds ok h
      → Holds ok (on_close r k h)
  unfolding on_close
  on_close-Holds r k h p w =
      let m = h.connections in
      let (f, g) = set-IsAmong ok m h.clients r (record k { is_open = false }) p w in
      if_both (Holds ok) k.is_open _ h
        (f, λ c. (leave_clients-IsAmong ok m k.phase h.clients w).1 c) w

  pub on_password-Holds :
      (now r : ℕ) (k : Connection) (answer : Option V) (h : Host)
      → (not (valid_answer config.password answer) || ok r) ≡ true
      → Holds ok h
      → Holds ok (on_password config now r k answer h)
  unfolding on_password
  on_password-Holds now r k none h p w =
      with_limiter-Holds ok k.key (record_failure config.limits now) (refuse r k 3000 h)
        (refuse-Holds ok r k 3000 h w)
  on_password-Holds now r k (some v) h p w =
      elim (Bool-cases (validate_password v config.password)) [
        | inl e ↦
            rw (e, on_password)
              (set_phase-Holds ok r k awaits_id (with_limiter k.key reset h) (ground (arith, p, e))
                (with_limiter-Holds ok k.key reset h w))
        | inr e ↦
            rw (e, on_password)
              (with_limiter-Holds ok k.key (record_failure config.limits now)
                (refuse_by_force r k h)
                (on_close-Holds r (record k { phase = over })
                  (refuse r k wrong_password_close_code h) refl
                  (refuse-Holds ok r k wrong_password_close_code h w)))
      ]

  pub on_id-Holds :
      (r : ℕ) (k : Connection) (answer : Option String) (last_open : Bool) (h : Host)
      → ok r ≡ true
      → Holds ok h
      → Holds ok (on_id r k answer last_open h)
  unfolding on_id
  on_id-Holds r k none last_open h p w = refuse-Holds ok r k 3000 h w
  on_id-Holds r k (some c) last_open h p w =
      let begins = set_phase-Holds ok r k (awaits_initialization c) in
      if_both (Holds ok) (c == "") _ _ (refuse-Holds ok r k 3000 h w)
        (elim (Option-cases (get h.clients c)) [
          | inl e ↦ simp e (begins h p w)
          | inr (previous, e) ↦ simp e (
              if_both (Holds ok) last_open _ _ (set_phase-Holds ok r k (awaits_last c) h p w)
                (begins (record h { closes = h.closes ++ ((previous, 3000) ∷ []) }) p w))
        ])

  pub on_ready-Holds :
      (r : ℕ) (k : Connection) (c : String) (attaches : Bool) (h : Host)
      → ok r ≡ true
      → Holds ok h
      → Holds ok (on_ready r k c attaches h)
  unfolding on_ready
  on_ready-Holds r k c attaches h p w =
      if_both (Holds ok) attaches _ _
        (set_phase-Holds ok r k (attached c)
          (record h {
            pending_sockets = keep_if (λ p. not (p == r)) h.pending_sockets;
            clients = set h.clients c r;
          })
          p (set_client-IsAmong ok h.connections h.clients c r p w))
        (refuse-Holds ok r k 3000 h w)
