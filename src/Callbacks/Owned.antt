-- ===== src/Callbacks/Owned.antt =====
-- One function of this side in `_functions` and `_functionEntries`: its serializations, the
-- transactions that they belong to, and its releases. The two tables always hold the function
-- together, under the id of its entry. An id is a number, made new when the entry is registered; a
-- lease, or a committed lease, that is not there is 0. The transactions are those of
-- src/PerfectWSAdvanced/transform/utils/changeType.ts, in which the function's registrations stand
-- with their transaction; a transaction takes none once it is settled, and the serialization that
-- wants one then throws.
pub mod Events
pub mod Cover
pub mod Steps
pub mod Keeps
pub mod RolledBack
pub mod Leases
pub mod Serialized
pub mod Safety
pub mod Seen
pub mod Accounted
pub mod Releases
mod Tests
use perfect_ws.Base.{
  ℕ, suc, zero, ◌+◌, ◌-◌, Bool, true, false, not, ◌&&◌, ◌||◌, Option, none, some, List, [], ◌∷◌,
  ◌++◌, ltb, leb, if◌then◌else◌, ◌==◌, nat_eq, any, keep_if, is_some, or_default,
}
use perfect_ws.JsMap.{JsMap, get, set, delete, has}

pub record Entry : Type 0 where
  pub func_id : Option ℕ
  pub has_release_handler : Bool
  pub committed : Bool
  pub pending_transactions : List ℕ
  pub lease : ℕ
  pub committed_lease : ℕ
  -- transaction to lease
  pub pending_leases : JsMap ℕ ℕ
  pub pending_release_lease : Option ℕ

pub data Kind : Type 0 where
  of_lease of_entry : Kind

-- A registration of the function with a transaction, for the id that it had then.
pub record Registration : Type 0 where
  pub transaction : ℕ
  pub kind : Kind
  pub id : ℕ

-- A marker that a serialization has made.
pub record Marker : Type 0 where
  pub marked_id : ℕ
  pub marked_lease : ℕ
  pub within : Option ℕ

pub record Owned : Type 0 where
  pub entry : Option Entry
  pub next_id : ℕ
  pub registrations : List Registration
  pub markers : List Marker
  -- the transactions that are committed or rolled back, and those of them that are rolled back
  pub settled : List ℕ
  pub rolled_back : List ℕ
  -- the calls of the release handler
  pub handled : ℕ

pub no_entry : Entry
no_entry = record {
  func_id = none;
  has_release_handler = false;
  committed = false;
  pending_transactions = [];
  lease = 0;
  committed_lease = 0;
  pending_leases = [];
  pending_release_lease = none;
}

unfoldable pub fresh : Owned
fresh = record {
  entry = none;
  next_id = 0;
  registrations = [];
  markers = [];
  settled = [];
  rolled_back = [];
  handled = 0;
}

abbrev pub max : ℕ → ℕ → ℕ
max a b = if leb a b then b else a

-- `Math.max(n, ...pending)`
pub max_of : ℕ → JsMap ℕ ℕ → ℕ
max_of n [] = n
max_of n ((t, l) ∷ m) = max l (max_of n m)

-- `_releaseOwnedFunctionId`, for the id of the entry.
pub release_owned : Entry → Owned → Owned
release_owned e o = record o {
  entry = none;
  handled = o.handled + (if e.has_release_handler then 1 else 0);
}

-- `setFunctionReleaseHandler`
pub set_release_handler : Owned → Owned
unfolding no_entry
set_release_handler o = record o {
  entry = some (record (or_default o.entry no_entry) { has_release_handler = true });
}

-- The entry under an id, which it is given where it has none.
pub identify : Entry → Owned → Entry × Owned
identify e o =
    if is_some e.func_id
    then (e, o)
    else (record e { func_id = some o.next_id }, record o { next_id = suc o.next_id })

-- The entry under an id, made or given one by the first serialization.
pub register : Owned → Entry × Owned
unfolding no_entry identify
register o = identify (or_default o.entry no_entry) o

pub is_in_list : ℕ → List ℕ → Bool
is_in_list t ts = any (λ s. s == t) ts

-- Whether a serialization in the transaction registers with it.
pub needs : Kind → ℕ → Entry → Bool
unfolding is_in_list
needs of_lease t e = not (has e.pending_leases t)
needs of_entry t e = not e.committed && not (is_in_list t e.pending_transactions)

pub registers : Kind → Option ℕ → ℕ → Entry → List Registration
unfolding needs
registers kind none id e = []
registers kind (some t) id e =
    if needs kind t e then record { transaction = t; kind = kind; id = id } ∷ [] else []

-- Whether the registration throws, as the transaction is settled.
pub refuses : Kind → Option ℕ → Entry → Owned → Bool
unfolding needs is_in_list
refuses kind none e o = false
refuses kind (some t) e o = is_in_list t o.settled && needs kind t e

pub take_lease : Option ℕ → Entry → Entry
take_lease none e = record e { lease = e.lease + 1; committed_lease = e.lease + 1 }
take_lease (some t) e = record e {
  lease = e.lease + 1;
  pending_leases = set e.pending_leases t (e.lease + 1);
}

pub pend : Option ℕ → Entry → Entry
unfolding needs
pend none e = record e { committed = true; pending_transactions = [] }
pend (some t) e =
    if needs of_entry t e
    then record e { pending_transactions = e.pending_transactions ++ (t ∷ []) }
    else e

-- `_serializeFunction`, for a function that is not one of the peer's. A registration that throws
-- leaves the lease, and the second also the pending transaction; there is no marker then.
pub serialize : Option ℕ → Owned → Owned
unfolding register take_lease pend registers refuses
serialize within o =
    let (e, o') = register o in
    let id = or_default e.func_id 0 in
    let leased = take_lease within e in
    let pended = pend within leased in
    if refuses of_lease within e o
    then record o' { entry = some leased }
    else if refuses of_entry within leased o
    then record o' { entry = some pended }
    else record o' {
      entry = some pended;
      registrations =
          o'.registrations
          ++ (registers of_lease within id e ++ registers of_entry within id leased);
      markers =
          record { marked_id = id; marked_lease = leased.lease; within = within } ∷ o'.markers;
    }
