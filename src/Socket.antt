-- ===== src/Socket.antt =====
-- The close listeners of src/utils/WebSocketForce.ts. A listener is a number; what its function
-- does to the wrapper when it is called is a parameter, as is the event that the wrapped socket
-- sends from within `close`, if it does.
pub mod Entries
pub mod Idle
pub mod Keeps
pub mod Once
pub mod Standing
pub mod Called
mod Tests
use perfect_ws.Base.{
  ℕ, zero, suc, ◌+◌, String, Bool, true, false, not, ◌&&◌, ◌||◌, Option, none, some, List, [], ◌∷◌,
  ◌++◌, map, if◌then◌else◌, ◌==◌, nat_eq, length, keep_if, any,
}

pub record CloseEvent : Type 0 where
  pub code : ℕ
  pub reason : String
  pub was_clean : Bool

-- An entry of `_virtualCloseListeners`, an object with an identity.
pub record Entry : Type 0 where
  pub entry : ℕ
  pub listener : ℕ
  pub once : Bool

pub record Call : Type 0 where
  pub called : ℕ
  pub event : CloseEvent

pub record Socket : Type 0 where
  pub close_listeners : List ℕ
  pub force_closed : Bool
  pub close_event_dispatched : Bool
  pub virtual_close_listeners : List Entry
  -- `_nativeCloseHandler !== null`
  pub native_close_handler : Bool
  -- `onclose` of the wrapped socket
  pub on_close : Option ℕ
  -- the identity of the next entry
  pub next_entry : ℕ
  -- the calls of listeners, and the promises of `once` that were given resolved
  pub calls : List Call
  pub resolved : List ℕ

unfoldable pub fresh : Socket
fresh = record {
  close_listeners = [];
  force_closed = false;
  close_event_dispatched = false;
  virtual_close_listeners = [];
  native_close_handler = false;
  on_close = none;
  next_entry = 0;
  calls = [];
  resolved = [];
}

pub data Operation : Type 0 where
  adds : (listener : ℕ) → (once : Bool) → Operation
  removes : (listener : ℕ) → Operation
  sets_on_close : Option ℕ → Operation
  -- `once('close')`, with the function that it makes and the state of the wrapped socket
  waits : (listener : ℕ) → (ready_state : ℕ) → Operation
  forces : (code : ℕ) → (reason : String) → Operation
  -- the wrapped socket sends its close event
  socket_closes : CloseEvent → Operation

pub closed : ℕ
closed = 3

-- `Set.add` and `Set.delete`.
pub add_to_set : ℕ → List ℕ → List ℕ
add_to_set h hs = if any (λ g. g == h) hs then hs else hs ++ (h ∷ [])

pub delete_from_set : ℕ → List ℕ → List ℕ
delete_from_set h hs = keep_if (λ g. not (g == h)) hs

pub is_listening : ℕ → List Entry → Bool
is_listening h xs = any (λ x. x.listener == h) xs

pub includes : List Entry → Entry → Bool
includes xs x = any (λ y. y.entry == x.entry) xs

-- `findIndex` and `splice`.
pub remove_first : ℕ → List Entry → List Entry
remove_first h [] = []
remove_first h (x ∷ xs) = if x.listener == h then xs else x ∷ remove_first h xs

pub add_close_listener : ℕ → Bool → Socket → Socket
unfolding is_listening add_to_set
add_close_listener h once s = if is_listening h s.virtual_close_listeners then s else record s {
  close_listeners = add_to_set h s.close_listeners;
  virtual_close_listeners =
      s.virtual_close_listeners
      ++ (record { entry = s.next_entry; listener = h; once = once } ∷ []);
  next_entry = suc s.next_entry;
  native_close_handler = length s.virtual_close_listeners == 0 || s.native_close_handler;
}

pub remove_close_listener : ℕ → Socket → Socket
unfolding remove_first delete_from_set
remove_close_listener h s =
    let xs = remove_first h s.virtual_close_listeners in
    record s {
      close_listeners = delete_from_set h s.close_listeners;
      virtual_close_listeners = xs;
      native_close_handler = not (length xs == 0) && s.native_close_handler;
    }

pub set_on_close : Option ℕ → Socket → Socket
unfolding add_to_set delete_from_set
set_on_close handler s =
    let hs : List ℕ = elim s.on_close [
      | none ↦ s.close_listeners
      | some old ↦ delete_from_set old s.close_listeners
    ] in
    record s {
      close_listeners = elim handler [ none ↦ hs | some h ↦ add_to_set h hs ];
      on_close = handler;
    }

pub ready_state : ℕ → Socket → ℕ
unfolding closed
ready_state of_socket s = if s.force_closed then closed else of_socket

pub once_close : ℕ → (of_socket : ℕ) → Socket → Socket
unfolding ready_state closed add_close_listener
once_close h of_socket s =
    if ready_state of_socket s == closed
    then record s { resolved = s.resolved ++ (h ∷ []) }
    else add_close_listener h true s

-- The listeners that were called, removed after an emission.
pub drop_called : List ℕ → Socket → Socket
unfolding delete_from_set remove_first
drop_called [] s = s
drop_called (h ∷ hs) s = drop_called hs (record s {
  close_listeners = delete_from_set h s.close_listeners;
  virtual_close_listeners = remove_first h s.virtual_close_listeners;
})

pub record Environment : Type 0 where
  -- what the function of a listener does, and whether it throws in the end
  pub body : ℕ → List Operation × Bool
  -- the functions made by `once`
  pub is_waiter : ℕ → Bool
  -- the event that the wrapped socket sends from within its `close`
  pub close_at_once : Option CloseEvent

module _ (env : Environment) where
  pub acts : ℕ → List Operation × Bool
  acts h = if env.is_waiter h then (removes h ∷ [], false) else env.body h

  pub socket_close : (CloseEvent → Socket → Socket) → CloseEvent → Socket → Socket
  socket_close trigger e s = if s.native_close_handler then trigger e s else s

  pub force_close : (CloseEvent → Socket → Socket) → ℕ → String → Socket → Socket
  unfolding socket_close
  force_close trigger code reason s =
      if s.force_closed
      then s
      else trigger (record { code = code; reason = reason; was_clean = false })
          (elim env.close_at_once [
            | none ↦ record s { force_closed = true }
            | some e ↦ socket_close trigger e (record s { force_closed = true })
          ])

  pub perform : (CloseEvent → Socket → Socket) → Operation → Socket → Socket
  unfolding add_close_listener remove_close_listener set_on_close once_close force_close
      socket_close
  perform trigger (adds h once) s = add_close_listener h once s
  perform trigger (removes h) s = remove_close_listener h s
  perform trigger (sets_on_close handler) s = set_on_close handler s
  perform trigger (waits h of_socket) s = once_close h of_socket s
  perform trigger (forces code reason) s = force_close trigger code reason s
  perform trigger (socket_closes e) s = socket_close trigger e s

  pub perform_all : (CloseEvent → Socket → Socket) → List Operation → Socket → Socket
  unfolding perform
  perform_all trigger [] s = s
  perform_all trigger (o ∷ os) s = perform_all trigger os (perform trigger o s)

  -- One entry of the emission, with the listeners to remove after it.
  pub call_entry :
      (CloseEvent → Socket → Socket) → CloseEvent → Entry → Socket → List ℕ → Socket × List ℕ
  unfolding acts includes perform_all
  call_entry trigger e x s done =
      if includes s.virtual_close_listeners x
      then (
        perform_all trigger (acts x.listener).0
            (record s { calls = s.calls ++ (record { called = x.listener; event = e } ∷ []) }),
        if x.once && not (acts x.listener).1 then done ++ (x.listener ∷ []) else done,
      )
      else (s, done)

  pub call_entries :
      (CloseEvent → Socket → Socket) → CloseEvent → List Entry → Socket → List ℕ → Socket × List ℕ
  unfolding call_entry
  call_entries trigger e [] s done = (s, done)
  call_entries trigger e (x ∷ xs) s done =
      let p = call_entry trigger e x s done in call_entries trigger e xs p.0 p.1

  -- The depth bounds the emissions that stand within one another.
  pub trigger_close : (depth : ℕ) → CloseEvent → Socket → Socket
  unfolding call_entries drop_called
  trigger_close zero e s = s
  trigger_close (suc depth) e s =
      if s.close_event_dispatched
      then s
      else let p =
          call_entries (trigger_close depth) e s.virtual_close_listeners
            (record s { close_event_dispatched = true }) [] in
        drop_called p.1 p.0

  pub run : List Operation → Socket
  unfolding perform_all trigger_close
  run os = perform_all (trigger_close 1) os fresh
