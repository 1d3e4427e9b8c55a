-- ===== src/Auth/RemoteServer.antt =====
-- One attachment of src/auth/ClientHost/RemoteServer.ts: the reconnection loop of `attachClient`, the
-- handlers of the handshake, `unregister` and `stop`. The sockets of the attachment are numbered by
-- the attempts. What `registerClient` is given, `thisClientId` of its handshake, is a number. A turn
-- goes to the next `await`.
pub mod Attempts
mod Tests
use perfect_ws.Base.{
  ℕ, suc, ◌+◌, ◌-◌, ◌*◌, ◌/◌, ◌%◌, ◌^◌, ◌≤◌, ◌<◌, ◌≡◌, ◌∙◌, ◌≢◌, ◌↔◌, ◌⊎◌, Bool, true, false, not,
  ◌&&◌, ◌||◌, Option, none, some, List, [], ◌∷◌, ◌++◌, if◌then◌else◌, get_elem?, get_elem?-IsPrefix,
  ◌==◌, nat_eq, string_eq,
}
use perfect_ws.JsMap.{JsMap, set, delete, has}
use perfect_ws.Auth.ServerHost.{wrong_password_close_code, rate_limited_close_code}

pub record Options : Type 0 where
  pub is_url : Bool
  pub auto_reconnect : Bool
  pub delay_before_reconnect : ℕ
  pub password_failure_delay : ℕ

pub data Phase : Type 0 where
  connected sleeping ended : Phase

pub record Attachment : Type 0 where
  -- `_on` of the host, `attachOn` of the attachment
  pub on : Bool
  pub attach_on : Bool
  pub attempts : ℕ
  pub phase : Phase
  -- whether the socket of the last attempt is attached to the router of its handshake
  pub handshake : Bool
  -- `thisClientId` of the attachment
  pub client_id : Option ℕ
  -- `clients`: client id to socket
  pub clients : JsMap ℕ ℕ
  -- the waits between attempts: the close code and the delay
  pub waits : List (Option ℕ × ℕ)

-- `isPasswordRejectionCloseCode`
pub is_password_rejection : Option ℕ → Bool
is_password_rejection none = false
is_password_rejection (some code) =
    code == wrong_password_close_code || code == rate_limited_close_code

abbrev pub unattached : Attachment
unattached = record {
  on = true;
  attach_on = true;
  attempts = 0;
  phase = sleeping;
  handshake = false;
  client_id = none;
  clients = [];
  waits = [];
}

pub forget_client : Attachment → Attachment
forget_client a = elim a.client_id [
  | none ↦ a
  | some id ↦ record a { clients = delete a.clients id }
]

-- `registerClient`, after the `await` of `___ch_initialized` in the handshake of an attempt, which
-- may be over by then: the socket leaves that handshake for the host's router and is listed.
pub register_client : (attempt id : ℕ) → Attachment → Attachment
register_client attempt id a = record a {
  handshake = a.handshake && not (attempt == a.attempts);
  client_id = some id;
  clients = set a.clients id attempt;
}

pub unregister : Attachment → Attachment
unregister a = record a { attach_on = false }

pub stop : Attachment → Attachment
stop a = record a { on = false; attach_on = false; clients = [] }

module _ (o : Options) where
  pub reconnects : Bool
  reconnects = o.is_url && o.auto_reconnect

  pub delay_after : Option ℕ → ℕ
  unfolding is_password_rejection
  delay_after code =
      if is_password_rejection code then o.password_failure_delay else o.delay_before_reconnect

  -- The head of the loop: the next attempt, or the end.
  pub enter : Attachment → Attachment
  unfolding reconnects
  enter a =
      if a.attach_on && ((reconnects && a.on) || a.attempts == 0)
      then record a { attempts = suc a.attempts; phase = connected; handshake = true }
      else record a { phase = ended; handshake = false }

  -- The foot of the loop, after the socket has closed or could not be made.
  pub leave : Option ℕ → Attachment → Attachment
  unfolding reconnects delay_after enter
  leave code a =
      if a.attach_on && (reconnects && a.on)
      then record a {
        phase = sleeping;
        handshake = false;
        waits = (code, delay_after code) ∷ a.waits;
      }
      else enter a

  -- `attachClient`, up to the first attempt.
  pub attach : Attachment
  unfolding enter
  attach = enter unattached

pub data Event : Type 0 where
  registers_client : (attempt id : ℕ) → Event
  cannot_connect wakes unregisters stops : Event
  closes : (code : Option ℕ) → Event

module _ (o : Options) where
  -- The socket closes only in an attempt, cannot be made only at its start, and the loop wakes only from a wait.
  pub step : Event → Attachment → Attachment
  unfolding enter leave forget_client register_client unregister stop
  step (registers_client attempt id) a = register_client attempt id a
  step cannot_connect a = elim a.phase [
    | connected ↦ if a.handshake then leave o none a else a
    | sleeping ↦ a
    | ended ↦ a
  ]
  step (closes code) a = elim a.phase [
    | connected ↦ leave o code (forget_client a)
    | sleeping ↦ a
    | ended ↦ a
  ]
  step wakes a = elim a.phase [ connected ↦ a | sleeping ↦ enter o a | ended ↦ a ]
  step unregisters a = unregister a
  step stops a = stop a

  -- The events, the latest first.
  pub run : List Event → Attachment → Attachment
  unfolding step
  run [] a = a
  run (e ∷ es) a = step e (run es a)
