-- ===== src/Callbacks/Received.antt =====
-- The peer's functions on this side: `_receivedFunctions`, from the markers that are deserialized to
-- the release that tells the peer of the last lease. The token of an entry stands for its wrapper
-- function too. The collector may take a wrapper at any time, and tells of it later.
pub mod Leases
mod Tests
use perfect_ws.Base.{
  ℕ, suc, ◌+◌, ◌-◌, ◌*◌, ◌/◌, ◌%◌, ◌^◌, ◌≤◌, ◌<◌, ◌≡◌, ◌∙◌, ◌≢◌, ◌↔◌, ◌⊎◌, Bool, true, false, ◌&&◌,
  ◌||◌, none, some, List, [], ◌∷◌, ◌++◌, if◌then◌else◌, any, get_elem?, get_elem?-IsPrefix, ◌==◌,
  nat_eq, string_eq,
}
use perfect_ws.JsMap.{JsMap, get, set, delete, has}
use perfect_ws.Callbacks.Owned.{max}

pub record Entry : Type 0 where
  pub token : ℕ
  pub lease : ℕ
  -- `ref.deref()` gives the wrapper
  pub alive : Bool

-- A marker, and the token of the wrapper that stands for it; or a `___callback.release`.
pub record Note : Type 0 where
  pub id : ℕ
  pub by : ℕ
  pub lease : ℕ

pub record Peer : Type 0 where
  pub received : JsMap ℕ Entry
  pub next_token : ℕ
  pub markers : List Note
  pub releases : List Note
  pub released : Bool

unfoldable pub fresh : Peer
fresh = record { received = []; next_token = 0; markers = []; releases = []; released = false }

-- `deserialize`, of a marker whose function has a living wrapper already.
pub renew : ℕ → ℕ → Entry → Peer → Peer
renew id lease e p = record p {
  received = set p.received id (record e { lease = max e.lease lease });
  markers = record { id = id; by = e.token; lease = lease } ∷ p.markers;
}

-- `deserialize`, of a marker for which a wrapper is made.
pub wrap : ℕ → ℕ → Peer → Peer
wrap id lease p = record p {
  received = set p.received id (record { token = p.next_token; lease = lease; alive = true });
  next_token = suc p.next_token;
  markers = record { id = id; by = p.next_token; lease = lease } ∷ p.markers;
}

-- `deserialize`, of a marker of the peer's function with a valid lease.
pub deserialize : ℕ → ℕ → Peer → Peer
unfolding renew wrap
deserialize id lease p = elim (get p.received id) [
  | none ↦ wrap id lease p
  | some e ↦ if e.alive then renew id lease e p else wrap id lease p
]

-- The collector takes the wrapper.
pub collect : ℕ → Peer → Peer
collect id p = elim (get p.received id) [
  | none ↦ p
  | some e ↦ record p { received = set p.received id (record e { alive = false }) }
]

pub drop : ℕ → Entry → Peer → Peer
drop id e p = record p {
  received = delete p.received id;
  releases =
      if p.released
      then p.releases
      else record { id = id; by = e.token; lease = e.lease } ∷ p.releases;
}

-- `finalizeReceivedFunction`, by the registry or by `releaseReceivedFunction`. A lease of 0 is sent
-- as none.
pub finalize : (id token : ℕ) → Peer → Peer
unfolding drop
finalize id token p = elim (get p.received id) [
  | none ↦ p
  | some e ↦ if e.token == token then drop id e p else p
]

-- `releaseAll`, for the received functions.
pub release_all : Peer → Peer
release_all p = if p.released then p else record p { received = []; released = true }

pub data Event : Type 0 where
  deserializes : (id lease : ℕ) → Event
  collects : (id : ℕ) → Event
  finalizes : (id token : ℕ) → Event
  releases_all : Event

pub step : Event → Peer → Peer
unfolding deserialize collect finalize release_all
step (deserializes id lease) p = deserialize id lease p
step (collects id) p = collect id p
step (finalizes id token) p = finalize id token p
step releases_all p = release_all p

-- The events, the latest first.
pub run : List Event → Peer
unfolding step fresh
run [] = fresh
run (e ∷ es) = step e (run es)
