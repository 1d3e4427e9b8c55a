-- ===== src/Auth/ServerHost/Counting.antt =====
-- How the steps of a connection change the count of connections.
use perfect_ws.Base.{
  ℕ, suc, ◌+◌, ◌≤◌, ◌≡◌, refl, String, true, false, Option, none, some, [], ◌∷◌, ◌++◌, arith,
  if◌then◌else◌, if_both, Eq, ◌==◌, string_eq, nat_eq, Bool-cases, Option-cases, inl, inr, leb,
  count_if,
}
use perfect_ws.JsMap.{JsMap, get, set}
use perfect_ws.JsMap.Laws.{get-set, get-set_self}
use perfect_ws.Auth.RateLimiter.{Limiter, is_blocked, record_failure, reset}
use perfect_ws.Auth.ServerHost.{
  validate_password, Phase, awaits_password, awaits_id, over, Connection, Config, Host, set_phase,
  refuse, with_limiter, blocked, on_connection, on_close, refuse_by_force, on_password,
  wrong_password_close_code,
}

-- The connections whose close event has not come.
abbrev pub open_count : JsMap ℕ Connection → ℕ
open_count m = count_if (λ p. p.1.is_open) m

abbrev weight : Connection → ℕ
weight k = if k.is_open then 1 else 0

open_count-set :
    (m : JsMap ℕ Connection) (r : ℕ) (k k' : Connection)
    → get m r ≡ some k
    → open_count (set m r k') + weight k ≡ open_count m + weight k'
unfolding get set
open_count-set [] r k k' e = cc e
open_count-set ((j, l) ∷ m) r k k' e = elim (Bool-cases (j == r)) [
  | inl f ↦ ground (arith, e, f)
  | inr f ↦ ground (arith, e, f, open_count-set m r k k')
]

open_count-set_new :
    (m : JsMap ℕ Connection) (r : ℕ) (k : Connection)
    → get m r ≡ none
    → open_count (set m r k) ≡ open_count m + weight k
unfolding get set
open_count-set_new [] r k e = omega arith
open_count-set_new ((j, l) ∷ m) r k e = elim (Bool-cases (j == r)) [
  | inl f ↦ ground (arith, e, f)
  | inr f ↦ ground (arith, e, f, open_count-set_new m r k)
]

-- The count is that of the open connections and within the limit, and later ones are new.
abbrev pub IsCounted : (limit count next : ℕ) → JsMap ℕ Connection → Type 0
IsCounted limit count next m =
    (count ≡ open_count m) × (count ≤ limit) × ((r : ℕ) → next ≤ r → get m r ≡ none)

abbrev pub Counts : ℕ → Host → Type 0
Counts limit h = IsCounted limit h.connection_count h.next_ref h.connections

module _ (limit : ℕ) where
  set-IsCounted :
      (count next : ℕ) (m : JsMap ℕ Connection) (r : ℕ) (k k' : Connection)
      → get m r ≡ some k
      → k'.is_open ≡ k.is_open
      → IsCounted limit count next m
      → IsCounted limit count next (set m r k')
  set-IsCounted count next m r k k' e o (c, l, n) = (
    ground (arith, c, o, open_count-set m r k k' e),
    l,
    λ j i. ground (arith, n j i, get-set m r j k', e),
  )

  pub set_phase-Counts :
      (r : ℕ) (k : Connection) (phase : Phase) (h : Host)
      → get h.connections r ≡ some k
      → Counts limit h
      → Counts limit (set_phase r k phase h)
  unfolding set_phase
  set_phase-Counts r k phase h e w =
      set-IsCounted h.connection_count h.next_ref h.connections r k (record k { phase = phase }) e
        refl w

  pub refuse-Counts :
      (r : ℕ) (k : Connection) (code : ℕ) (h : Host)
      → get h.connections r ≡ some k
      → Counts limit h
      → Counts limit (refuse r k code h)
  unfolding refuse
  refuse-Counts r k code h e w =
      set_phase-Counts r k over (record h { closes = h.closes ++ ((r, code) ∷ []) }) e w

  with_limiter-keeps :
      (P : ℕ → ℕ → JsMap ℕ Connection → Type 0) (key : Option String)
      (change : String → Limiter → Limiter) (h : Host)
      → P h.connection_count h.next_ref h.connections
      → let h' = with_limiter key change h in P h'.connection_count h'.next_ref h'.connections
  unfolding with_limiter
  with_limiter-keeps P none change h w = w
  with_limiter-keeps P (some key) change h w = elim (Option-cases h.limiter) [
    | inl e ↦ simp (e, with_limiter) w
    | inr (l, e) ↦ simp (e, with_limiter) w
  ]

  pub on_close-Counts :
      (r : ℕ) (k : Connection) (h : Host)
      → get h.connections r ≡ some k
      → Counts limit h
      → Counts limit (on_close r k h)
  unfolding on_close
  on_close-Counts r k h e (c, l, n) = elim (Bool-cases k.is_open) [
    | inl o ↦
        let k' : Connection = record k { is_open = false } in
        simp (o, on_close)
          (
            ground (arith, c, o, open_count-set h.connections r k k' e),
            omega (arith, l),
            λ j i. ground (arith, n j i, get-set h.connections r j k', e),
          )
    | inr o ↦ simp (o, on_close) (c, l, n)
  ]

  refuse_by_force-Counts :
      (r : ℕ) (k : Connection) (h : Host)
      → get h.connections r ≡ some k
      → Counts limit h
      → Counts limit (refuse_by_force r k h)
  unfolding refuse_by_force refuse set_phase
  refuse_by_force-Counts r k h e w =
      on_close-Counts r (record k { phase = over }) (refuse r k wrong_password_close_code h)
        (get-set_self h.connections r (record k { phase = over }))
        (refuse-Counts r k wrong_password_close_code h e w)

  new-IsCounted :
      (count next : ℕ) (m : JsMap ℕ Connection) (k : Connection)
      → k.is_open ≡ true
      → leb limit count ≡ false
      → IsCounted limit count next m
      → IsCounted limit (count + 1) (suc next) (set m next k)
  new-IsCounted count next m k o f (c, l, n) = (
    ground (arith, c, o, open_count-set_new m next k (n next (omega arith))),
    ground (arith, f),
    λ j i. ground (arith, i, n j (omega (arith, i)), get-set m next j k),
  )

module _ {V : Type 0} ⦃e : Eq V⦄ (config : Config V) where
  pub on_connection-Counts :
      (now : ℕ) (key : Option String) (h : Host)
      → Counts config.max_connections h
      → Counts config.max_connections (on_connection config now key h)
  unfolding on_connection refuse set_phase
  on_connection-Counts now key h w =
      elim (Bool-cases (leb config.max_connections h.connection_count)) [
        | inl f ↦ simp (f, on_connection) (w.0, w.1, λ j i. w.2 j (omega (arith, i)))
        | inr f ↦
            let k : Connection = record { key = key; phase = awaits_password; is_open = true } in
            let begun : Host = record h {
              connection_count = h.connection_count + 1;
              pending_sockets = h.pending_sockets ++ (h.next_ref ∷ []);
              next_ref = suc h.next_ref;
            } in
            let asks = λ (k : String) (l : Limiter). (is_blocked config.limits now k l).1 in
            let added = λ (phase : Phase).
              with_limiter-keeps config.max_connections
                (λ c n m.
                  IsCounted config.max_connections c n
                    (set m h.next_ref (record k { phase = phase })))
                key asks begun
                (new-IsCounted config.max_connections h.connection_count h.next_ref h.connections
                  (record k { phase = phase }) refl f w) in
            simp (f, on_connection)
              (if_both (Counts config.max_connections) (blocked config.limits now key h.limiter) _ _
                (added over) (added awaits_password))
      ]

  pub on_password-Counts :
      (now r : ℕ) (k : Connection) (answer : Option V) (h : Host)
      → get h.connections r ≡ some k
      → Counts config.max_connections h
      → Counts config.max_connections (on_password config now r k answer h)
  unfolding on_password
  on_password-Counts now r k none h f w =
      with_limiter-keeps config.max_connections (IsCounted config.max_connections) k.key
        (record_failure config.limits now) (refuse r k 3000 h)
        (refuse-Counts config.max_connections r k 3000 h f w)
  on_password-Counts now r k (some v) h f w =
      if_both (Counts config.max_connections) (validate_password v config.password) _ _
        (with_limiter-keeps config.max_connections
          (λ c n m. IsCounted config.max_connections c n (set m r (record k { phase = awaits_id })))
          k.key reset h (set_phase-Counts config.max_connections r k awaits_id h f w))
        (with_limiter-keeps config.max_connections (IsCounted config.max_connections) k.key
          (record_failure config.limits now) (refuse_by_force r k h)
          (refuse_by_force-Counts config.max_connections r k h f w))
