-- ===== src/Callbacks/Incoming.antt =====
-- The peer's calls of this side's functions: `_onCallbackRequest`, `_onEventDelivered`. A request's
-- id is a number, as is the promise of its result; what a function gives is a parameter. A turn goes
-- to the next `await`: the wait for a result is resumed in a turn of its own, in any order.
pub mod Called
mod Tests
use perfect_ws.Base.{
  ℕ, zero, suc, ◌+◌, ◌-◌, String, Bool, true, false, not, Option, none, some, List, [], ◌∷◌, ◌++◌,
  leb, if◌then◌else◌, ◌==◌, nat_eq, is_some, get_elem?,
}
use perfect_ws.JsMap.{JsMap, get, set, delete, size}

pub data Reply (A : Type 0) : Type 0 where
  replied : A → Reply A
  failed : String → Reply A

pub record Wait : Type 0 where
  pub request : ℕ
  pub promise : ℕ
  pub started_here : Bool

pub record Incoming (A : Type 0) : Type 0 where
  -- `_incomingRequestResults`: request to promise
  pub results : JsMap ℕ ℕ
  -- the promises that are settled
  pub settled : JsMap ℕ (Reply A)
  pub next_promise : ℕ
  pub waits : List Wait
  -- `_activeIncomingRequests`
  pub active : ℕ
  -- the requests for which a function was called, the latest first
  pub called : List ℕ
  -- `___callback.response`
  pub sent : List (ℕ × Reply A)
  pub released : Bool

pub drop_at : ℕ → List Wait → List Wait
drop_at i [] = []
drop_at zero (w ∷ ws) = ws
drop_at (suc i) (w ∷ ws) = w ∷ drop_at i ws

module _ {A : Type 0} where
  unfoldable pub fresh : Incoming A
  fresh = record {
    results = [];
    settled = [];
    next_promise = 0;
    waits = [];
    active = 0;
    called = [];
    sent = [];
    released = false;
  }

  -- The wait for a result that is there already.
  pub await_again : ℕ → ℕ → Incoming A → Incoming A
  await_again id promise s = record s {
    waits = s.waits ++ (record { request = id; promise = promise; started_here = false } ∷ []);
  }

  -- A request for a function that is not there: its result is settled from the start.
  pub answer_unknown : ℕ → Incoming A → Incoming A
  answer_unknown id s = record s {
    results = set s.results id s.next_promise;
    settled = set s.settled s.next_promise (failed "Method not found");
    next_promise = suc s.next_promise;
    waits =
        s.waits ++ (record { request = id; promise = s.next_promise; started_here = false } ∷ []);
  }

  -- The function is called.
  pub start : ℕ → Incoming A → Incoming A
  start id s = record s {
    results = set s.results id s.next_promise;
    next_promise = suc s.next_promise;
    waits =
        s.waits ++ (record { request = id; promise = s.next_promise; started_here = true } ∷ []);
    active = s.active + 1;
    called = id ∷ s.called;
  }

  -- `_onCallbackRequest`, up to its `await`, for a request that has the right form.
  pub on_request : (max_operations : ℕ) → ℕ → (known : Bool) → Incoming A → Incoming A
  unfolding await_again answer_unknown start
  on_request max_operations id known s = elim (get s.results id) [
    | some promise ↦ await_again id promise s
    | none ↦
        if leb max_operations (size s.results)
        then record s { sent = (id, failed "Too many callback operations") ∷ s.sent }
        else if known
        then start id s
        else answer_unknown id s
  ]

  -- A request of another form, with an id.
  pub on_malformed : ℕ → Incoming A → Incoming A
  on_malformed id s = record s { sent = (id, failed "Invalid callback request") ∷ s.sent }

  -- The function of a promise has given its result.
  pub on_settled : ℕ → Reply A → Incoming A → Incoming A
  on_settled promise reply s =
      if is_some (get s.settled promise)
      then s
      else record s { settled = set s.settled promise reply }

  -- The rest of `_onCallbackRequest` after its `await`.
  pub resume : ℕ → Incoming A → Incoming A
  unfolding drop_at
  resume i s = elim (get_elem? s.waits i) [
    | none ↦ s
    | some w ↦ elim (get s.settled w.promise) [
      | none ↦ s
      | some reply ↦ record s {
        waits = drop_at i s.waits;
        sent = (w.request, reply) ∷ s.sent;
        active = if w.started_here then s.active - 1 else s.active;
      }
    ]
  ]

  -- `_onEventDelivered`, for a `___callback.response`.
  pub on_delivered : ℕ → Incoming A → Incoming A
  on_delivered id s = record s { results = delete s.results id }

  -- `releaseAll`, for the requests.
  pub release_all : Incoming A → Incoming A
  release_all s = if s.released then s else record s { results = []; released = true }

pub data Event (A : Type 0) : Type 0 where
  requests : (id : ℕ) → (known : Bool) → Event A
  malformed delivers : (id : ℕ) → Event A
  settles : (promise : ℕ) → (reply : Reply A) → Event A
  resumes : (wait : ℕ) → Event A
  releases : Event A

module _ {A : Type 0} (max_operations : ℕ) where
  -- A released channel hears no event of the connection; the calls that it has begun go on.
  pub step : Event A → Incoming A → Incoming A
  unfolding on_request on_malformed on_settled resume on_delivered release_all
  step (requests id known) s = if s.released then s else on_request max_operations id known s
  step (malformed id) s = if s.released then s else on_malformed id s
  step (delivers id) s = if s.released then s else on_delivered id s
  step (settles promise reply) s = on_settled promise reply s
  step (resumes i) s = resume i s
  step releases s = release_all s

  -- The events, the latest first.
  pub run : List (Event A) → Incoming A
  unfolding step fresh
  run [] = fresh
  run (e ∷ es) = step e (run es)
