-- ===== src/Connection.antt =====
-- The server of a client router in src/PerfectWS.ts: `_setServer` with the handlers of its socket,
-- `serverOpen`, and the release of the router. Each call of `_setServer` brings a new socket; sockets
-- and those who wait for one are numbers. What `request` itself waits for is its own model's input.
pub mod Ready
pub mod Replaced
pub mod Told
mod Tests
use perfect_ws.Base.{
  ℕ, suc, Bool, true, false, not, ◌&&◌, Option, none, some, List, [], ◌∷◌, ◌++◌, map, any, keep_if,
  ltb, if◌then◌else◌, ◌==◌, nat_eq,
}

pub record Connection : Type 0 where
  -- `_server`, and the one whose listeners are registered, which `_unregisterServer` takes off
  pub current : Option ℕ
  pub attached : Option ℕ
  pub ready : Bool
  pub unregistered : Bool
  pub next_server : ℕ
  -- the sockets that are open, and those that are closing or closed
  pub opened : List ℕ
  pub ended : List ℕ
  pub next_waiter : ℕ
  pub waiters : List ℕ
  -- how those who waited were told: that a server is ready, or that the router is gone
  pub told : List (ℕ × Bool)

unfoldable pub fresh : Connection
fresh = record {
  current = none;
  attached = none;
  ready = false;
  unregistered = false;
  next_server = 0;
  opened = [];
  ended = [];
  next_waiter = 0;
  waiters = [];
  told = [];
}

pub is : Option ℕ → ℕ → Bool
is none id = false
is (some s) id = s == id

pub is_opened : ℕ → Connection → Bool
is_opened id c = any (λ s. s == id) c.opened

pub connected_in : Option ℕ → List ℕ → Bool
connected_in none ss = false
connected_in (some id) ss = any (λ s. s == id) ss

-- `isServerConnected`
pub is_connected : Connection → Bool
unfolding connected_in
is_connected c = connected_in c.current c.opened

-- `_unregisterServer`
pub unregister_server : Connection → Connection
unregister_server c = record c { attached = none; ready = false }

-- The socket is no longer open: it is closing, and its close event is still to come.
pub shut : ℕ → Connection → Connection
shut id c = record c { opened = keep_if (λ s. not (s == id)) c.opened; ended = id ∷ c.ended }

-- The close event of the socket, which `forceClose` brings at once; `onClose` hears it while it is
-- registered.
pub close : ℕ → Connection → Connection
unfolding is shut
close id c =
    let closed = shut id c in
    record closed { ready = c.ready && not (is c.attached id && is c.current id) }

pub close_current : Connection → Connection
unfolding close
close_current c = elim c.current [ none ↦ c | some s ↦ close s c ]

-- The end of `onOpen`: the server is ready, and those who wait are told.
pub become_ready : ℕ → Connection → Connection
unfolding is is_opened
become_ready id c =
    if is c.current id && is_opened id c
    then record c { ready = true; waiters = []; told = map (λ i. (i, true)) c.waiters ++ c.told }
    else c

-- `serverOpen`
pub server_open : Connection → Connection
unfolding is_connected
server_open c =
    let id = c.next_waiter in
    let asked = record c { next_waiter = suc id } in
    if c.unregistered
    then record asked { told = (id, false) ∷ c.told }
    else if c.ready && is_connected c
    then record asked { told = (id, true) ∷ c.told }
    else record asked { waiters = c.waiters ++ (id ∷ []) }

-- `_releaseAllChannels`, for the connection.
pub release_all_channels : Connection → Connection
release_all_channels c = if c.unregistered then c else record c {
  unregistered = true;
  waiters = [];
  told = map (λ i. (i, false)) c.waiters ++ c.told;
  current = none;
  attached = none;
}

-- `unregister` and `detachServer` of `PerfectWS.client`.
pub release : (close_socket : Bool) → Connection → Connection
unfolding unregister_server close_current release_all_channels
release close_socket c =
    let detached = unregister_server c in
    release_all_channels (if close_socket then close_current detached else detached)

-- The old server is taken off and closed, and the new one stands in its place.
pub replace_server : (is_open : Bool) → Connection → Connection
unfolding unregister_server close_current
replace_server is_open c =
    let closed = close_current (unregister_server c) in
    record closed {
      current = some c.next_server;
      attached = some c.next_server;
      ready = false;
      next_server = suc c.next_server;
      opened = if is_open then c.next_server ∷ closed.opened else closed.opened;
    }

module _ (sync_requests_when_server_open : Bool) where
  -- `onOpen`, up to its `await`.
  pub on_open : ℕ → Connection → Connection
  unfolding become_ready
  on_open id c = if sync_requests_when_server_open then c else become_ready id c

  -- `_setServer`, which throws for a router that is gone.
  pub set_server : (is_open : Bool) → Connection → Connection
  unfolding replace_server on_open
  set_server is_open c =
      if c.unregistered
      then c
      else if is_open
      then on_open c.next_server (replace_server true c)
      else replace_server false c

  -- The `open` event of a socket.
  pub open_socket : ℕ → Connection → Connection
  unfolding is on_open
  open_socket id c =
      let o = record c { opened = id ∷ c.opened } in if is c.attached id then on_open id o else o

-- The `await` of `onOpen` ends; where the requests could not be synchronized the socket is closed.
pub on_synced : ℕ → (ok : Bool) → Connection → Connection
unfolding become_ready close
on_synced id ok c = if ok then become_ready id c else close id c

pub data Event : Type 0 where
  sets_server : (is_open : Bool) → Event
  opens shuts closes : (id : ℕ) → Event
  syncs : (id : ℕ) → (ok : Bool) → Event
  asks : Event
  releases : (close_socket : Bool) → Event

-- A socket was brought by `_setServer`; once it is closing it does not open again.
abbrev pub is_known : ℕ → Connection → Bool
is_known id c = ltb id c.next_server

abbrev pub has_ended : ℕ → Connection → Bool
has_ended id c = any (λ s. s == id) c.ended

module _ (sync_requests_when_server_open : Bool) where
  pub step : Event → Connection → Connection
  unfolding set_server open_socket shut close on_synced server_open release
  step (sets_server is_open) c = set_server sync_requests_when_server_open is_open c
  step (opens id) c =
      if is_known id c && not (has_ended id c)
      then open_socket sync_requests_when_server_open id c
      else c
  step (shuts id) c = if is_known id c then shut id c else c
  step (closes id) c = if is_known id c then close id c else c
  step (syncs id ok) c = if is_known id c then on_synced id ok c else c
  step asks c = server_open c
  step (releases close_socket) c = release close_socket c

  -- The events, the latest first.
  pub run : List Event → Connection
  unfolding step fresh
  run [] = fresh
  run (e ∷ es) = step e (run es)
