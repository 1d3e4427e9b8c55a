-- ===== src/Auth/ServerHost.antt =====
-- `_onConnection` of src/auth/ServerHost/ServerHost.ts, one turn at a time: an `await` ends a turn,
-- and its outcome is an event. `V` is the type of what peers send as passwords. A key of the rate
-- limiter that is empty or missing is `none`; the limiter itself is that of Auth.RateLimiter.
pub mod Held
pub mod Admitted
pub mod Counting
pub mod Counted
mod Tests
use perfect_ws.Base.{
  ℕ, suc, ◌+◌, ◌-◌, String, Bool, true, false, not, ◌&&◌, ◌||◌, Option, none, some, List, [], ◌∷◌,
  ◌++◌, leb, if◌then◌else◌, Eq, ◌==◌, string_eq, nat_eq, any, keep_if,
}
use perfect_ws.JsMap.{JsMap, get, set, delete, has}
use perfect_ws.Auth.RateLimiter.{
  Config as LimiterConfig, Limiter, is_blocked, record_failure, reset,
}

-- The `password` of the options.
pub data Expected (V : Type 0) : Type 0 where
  anything : Expected V
  one : V → Expected V
  one_of : List V → Expected V
  checked_by : (V → Bool) → Expected V

module _ {V : Type 0} ⦃e : Eq V⦄ where
  pub validate_password : V → Expected V → Bool
  validate_password password anything = true
  validate_password password (one v) = password == v
  validate_password password (one_of vs) = any (λ v. v == password) vs
  validate_password password (checked_by f) = f password

pub data Phase : Type 0 where
  awaits_password awaits_id over : Phase
  -- with the client id that the peer gave
  awaits_last awaits_initialization awaits_ready attached : String → Phase

pub is_awaiting_password : Phase → Bool
is_awaiting_password awaits_password = true
is_awaiting_password phase = false

pub is_awaiting_id : Phase → Bool
is_awaiting_id awaits_id = true
is_awaiting_id phase = false

pub data Stage : Type 0 where
  last initialization ready : Stage

-- The client id of a connection that waits in a stage.
pub client_in : Stage → Phase → Option String
client_in last (awaits_last c) = some c
client_in initialization (awaits_initialization c) = some c
client_in ready (awaits_ready c) = some c
client_in stage phase = none

pub record Connection : Type 0 where
  pub key : Option String
  pub phase : Phase
  -- its close event has not come
  pub is_open : Bool

pub record Config (V : Type 0) : Type 0 where
  pub max_connections : ℕ
  pub limits : LimiterConfig
  pub password : Expected V

pub record Host : Type 0 where
  pub connection_count : ℕ
  pub limiter : Option Limiter
  pub connections : JsMap ℕ Connection
  pub next_ref : ℕ
  pub pending_sockets : List ℕ
  pub clients : JsMap String ℕ
  -- the calls of `close`, with the socket and the code
  pub closes : List (ℕ × ℕ)

pub data Event (V : Type 0) : Type 0 where
  connects : (now : ℕ) → (key : Option String) → Event V
  -- the password, unless the request for it or its check throws
  gives_password : (now ref : ℕ) → Option V → Event V
  -- the id, and whether the last socket of that client is open
  gives_id : (ref : ℕ) → Option String → (last_open : Bool) → Event V
  last_closes : (ref : ℕ) → Event V
  -- whether `initializeClient` succeeds and the socket is open after it
  initializes : (ref : ℕ) → (succeeds : Bool) → Event V
  -- whether the peer answers and the socket can be attached
  readies : (ref : ℕ) → (attaches : Bool) → Event V
  socket_closes : (ref : ℕ) → Event V

pub set_phase : ℕ → Connection → Phase → Host → Host
set_phase r k phase h = record h { connections = set h.connections r (record k { phase = phase }) }

pub refuse : ℕ → Connection → (code : ℕ) → Host → Host
unfolding set_phase
refuse r k code h = set_phase r k over (record h { closes = h.closes ++ ((r, code) ∷ []) })

-- `this._passwordLimiter` and the key, if there are both.
pub with_limiter : Option String → (String → Limiter → Limiter) → Host → Host
with_limiter none change h = h
with_limiter (some key) change h = elim h.limiter [
  | none ↦ h
  | some l ↦ record h { limiter = some (change key l) }
]

pub blocked : LimiterConfig → ℕ → Option String → Option Limiter → Bool
blocked limits now (some key) (some l) = (is_blocked limits now key l).0
blocked limits now none l = false
blocked limits now (some key) none = false

abbrev pub wrong_password_close_code : ℕ
wrong_password_close_code = 3001

abbrev pub rate_limited_close_code : ℕ
rate_limited_close_code = 3002

pub leave_clients : Phase → JsMap String ℕ → JsMap String ℕ
leave_clients (attached c) clients = delete clients c
leave_clients awaits_password clients = clients
leave_clients awaits_id clients = clients
leave_clients over clients = clients
leave_clients (awaits_last c) clients = clients
leave_clients (awaits_initialization c) clients = clients
leave_clients (awaits_ready c) clients = clients

-- The listeners of the close event, which comes once; `k` is the connection as it stands.
pub on_close : ℕ → Connection → Host → Host
unfolding leave_clients
on_close r k h =
    if k.is_open
    then record h {
      connection_count = h.connection_count - 1;
      connections = set h.connections r (record k { is_open = false });
      pending_sockets = keep_if (λ p. not (p == r)) h.pending_sockets;
      clients = leave_clients k.phase h.clients;
    }
    else h

-- `forceClose`, whose listeners run before it returns.
pub refuse_by_force : ℕ → Connection → Host → Host
unfolding refuse on_close
refuse_by_force r k h =
    on_close r (record k { phase = over }) (refuse r k wrong_password_close_code h)

pub on_id : ℕ → Connection → Option String → Bool → Host → Host
unfolding set_phase refuse
on_id r k none last_open h = refuse r k 3000 h
on_id r k (some c) last_open h = if c == "" then refuse r k 3000 h else elim (get h.clients c) [
  | none ↦ set_phase r k (awaits_initialization c) h
  | some previous ↦
      if last_open
      then set_phase r k (awaits_last c) h
      else set_phase r k (awaits_initialization c)
          (record h { closes = h.closes ++ ((previous, 3000) ∷ []) })
]

pub on_ready : ℕ → Connection → String → Bool → Host → Host
unfolding set_phase refuse
on_ready r k c attaches h =
    if attaches
    then set_phase r k (attached c) (record h {
      pending_sockets = keep_if (λ p. not (p == r)) h.pending_sockets;
      clients = set h.clients c r;
    })
    else refuse r k 3000 h

module _ {V : Type 0} where
  pub of_event : Event V → Option ℕ
  of_event (connects now key) = none
  of_event (gives_password now ref answer) = some ref
  of_event (gives_id ref answer last_open) = some ref
  of_event (last_closes ref) = some ref
  of_event (initializes ref succeeds) = some ref
  of_event (readies ref attaches) = some ref
  of_event (socket_closes ref) = some ref

module _ {V : Type 0} ⦃e : Eq V⦄ (config : Config V) where
  pub on_connection : ℕ → Option String → Host → Host
  unfolding set_phase refuse with_limiter blocked
  on_connection now key h =
      if leb config.max_connections h.connection_count
      then record h { closes = h.closes ++ ((h.next_ref, 1013) ∷ []); next_ref = suc h.next_ref }
      else let k : Connection = record { key = key; phase = awaits_password; is_open = true } in
        let begun : Host = record h {
          connection_count = h.connection_count + 1;
          pending_sockets = h.pending_sockets ++ (h.next_ref ∷ []);
          next_ref = suc h.next_ref;
        } in
        let asked = with_limiter key (λ k l. (is_blocked config.limits now k l).1) begun in
        if blocked config.limits now key h.limiter
        then refuse h.next_ref k rate_limited_close_code asked
        else set_phase h.next_ref k awaits_password asked

  pub on_password : ℕ → ℕ → Connection → Option V → Host → Host
  unfolding set_phase refuse refuse_by_force with_limiter validate_password
  on_password now r k none h =
      with_limiter k.key (record_failure config.limits now) (refuse r k 3000 h)
  on_password now r k (some v) h =
      if validate_password v config.password
      then set_phase r k awaits_id (with_limiter k.key reset h)
      else with_limiter k.key (record_failure config.limits now) (refuse_by_force r k h)

  -- What an outcome does to the connection, if it waits for it.
  pub resume : Event V → ℕ → Connection → Host → Host
  unfolding on_password on_id on_ready on_close is_awaiting_password is_awaiting_id client_in
  resume (connects now key) r k h = h
  resume (gives_password now ref answer) r k h =
      if is_awaiting_password k.phase then on_password now r k answer h else h
  resume (gives_id ref answer last_open) r k h =
      if is_awaiting_id k.phase then on_id r k answer last_open h else h
  resume (last_closes ref) r k h = elim (client_in last k.phase) [
    | none ↦ h
    | some c ↦ set_phase r k (awaits_initialization c) h
  ]
  resume (initializes ref succeeds) r k h = elim (client_in initialization k.phase) [
    | none ↦ h
    | some c ↦ if succeeds then set_phase r k (awaits_ready c) h else refuse r k 3000 h
  ]
  resume (readies ref attaches) r k h = elim (client_in ready k.phase) [
    | none ↦ h
    | some c ↦ on_ready r k c attaches h
  ]
  resume (socket_closes ref) r k h = on_close r k h

  pub resume_ref : Event V → Option ℕ → Host → Host
  unfolding resume
  resume_ref event none h = h
  resume_ref event (some r) h = elim (get h.connections r) [
    | none ↦ h
    | some k ↦ resume event r k h
  ]

  pub step : Event V → Host → Host
  unfolding on_connection resume_ref of_event
  step (connects now key) h = on_connection now key h
  step event h = resume_ref event (of_event event) h

  -- The events, the latest first.
  pub run : Option Limiter → List (Event V) → Host
  unfolding step
  run limiter [] = record {
    connection_count = 0;
    limiter = limiter;
    connections = [];
    next_ref = 0;
    pending_sockets = [];
    clients = [];
    closes = [];
  }
  run limiter (event ∷ events) = step event (run limiter events)
