-- ===== src/Ack/Send/Retry.antt =====
-- The retries of a send whose attempts go out unanswered.
use perfect_ws.Base.{
  ℕ, ◌+◌, ◌≤◌, ◌<◌, ◌≡◌, refl, sym, ap, ◌∙◌, String, Bool, true, false, List, [], ◌∷◌, ◌++◌, arith,
  length, string_eq, nat_eq,
}
use mathlib.Core.List.{append-nil}
use perfect_ws.JsMap.{delete, size}
use perfect_ws.JsMap.Laws.{size-delete-le}
use perfect_ws.Ack.Send.{
  Pending, Config, Packet, Outcome, acked, timed_out, Wait, Sender, done, retry, pending_of,
  force_close, make_room, clean_up, settle, wait_ack, attempt, attempts, send_with_ack,
}

-- The table has room for one more entry of the socket.
pub record HasRoom (c : Config) (server : ℕ) (t : Pending) : Type 0 where
  pub few : pending_of server t < c.max_pending_acks
  pub few_in_all : size t < c.max_total_pending_acks

-- An attempt that goes out and ends as told, with room in the table it leaves.
pub record GoesOut (c : Config) (server : ℕ) (o : Outcome) (w : Wait) : Type 0 where
  pub open_then : w.is_open ≡ true
  pub not_aborted : w.is_aborted ≡ false
  pub handed : w.send_ok ≡ true
  pub ends : w.outcome ≡ o
  pub room_after : HasRoom c server w.pending_after

-- The state after an attempt that timed out.
abbrev pub timed : Packet → ℕ → Wait → Sender → Sender
timed p d w st = record st {
  pending_acks = delete w.pending_after p.packet_id;
  timers = d ∷ st.timers;
  frames = st.frames + 1;
  sent_calls = st.sent_calls + 1;
}

make_room_free :
    (c : Config) (server : ℕ) (st : Sender)
    → HasRoom c server st.pending_acks
    → make_room c server st ≡ (st, (true, true))
unfolding make_room
make_room_free c server st r = ground (arith, r.few, r.few_in_all)

attempt_free :
    (c : Config) (p : Packet) (server d : ℕ) (w : Wait) (st : Sender)
    → HasRoom c server st.pending_acks
    → w.is_open ≡ true
    → attempt c p server d w st ≡ wait_ack p server d true w st
unfolding attempt
attempt_free c p server d w st r h = simp (h, make_room_free c server st r)

attempt_silent :
    (c : Config) (p : Packet) (server d : ℕ) (w : Wait) (st : Sender)
    → HasRoom c server st.pending_acks
    → GoesOut c server timed_out w
    → attempt c p server d w st ≡ (timed p d w st, retry)
unfolding wait_ack settle clean_up
attempt_silent c p server d w st r g =
    attempt_free c p server d w st r g.open_then ∙ rw (g.not_aborted, g.handed, settle, g.ends) refl

attempt_answered :
    (c : Config) (p : Packet) (server d : ℕ) (w : Wait) (st : Sender)
    → HasRoom c server st.pending_acks
    → GoesOut c server acked w
    → ((attempt c p server d w st).1 ≡ done true)
      × ((attempt c p server d w st).0.frames ≡ st.frames + 1)
unfolding wait_ack settle clean_up
attempt_answered c p server d w st r g =
    rw (attempt_free c p server d w st r g.open_then, g.not_aborted, g.handed, settle, g.ends)
      (refl, refl)

pending_of-delete : (t : Pending) (k : String) (s : ℕ) → pending_of s (delete t k) ≤ pending_of s t
unfolding pending_of delete
pending_of-delete [] k s = omega arith
pending_of-delete ((j, r) ∷ t) k s = ground (arith, pending_of-delete t k s)

delete-HasRoom :
    (c : Config) (server : ℕ) (t : Pending) (k : String)
    → HasRoom c server t
    → HasRoom c server (delete t k)
delete-HasRoom c server t k r = record {
  few = omega (arith, r.few, pending_of-delete t k server);
  few_in_all = omega (arith, r.few_in_all, size-delete-le t k);
}

-- The state after timed attempts with these delays.
pub retried : Packet → (ℕ → Wait) → ℕ → List ℕ → Sender → Sender
retried p waits i [] st = st
retried p waits i (d ∷ ds) st = retried p waits (i + 1) ds (timed p d (waits i) st)

retried-frames :
    (p : Packet) (waits : ℕ → Wait) (i : ℕ) (ds : List ℕ) (st : Sender)
    → (retried p waits i ds st).frames ≡ st.frames + length ds
unfolding retried
retried-frames p waits i [] st = omega arith
retried-frames p waits i (d ∷ ds) st =
    ground (arith, retried-frames p waits (i + 1) ds (timed p d (waits i) st))

retried-force_closed :
    (p : Packet) (waits : ℕ → Wait) (i : ℕ) (ds : List ℕ) (st : Sender)
    → (retried p waits i ds st).force_closed ≡ st.force_closed
unfolding retried
retried-force_closed p waits i [] st = refl
retried-force_closed p waits i (d ∷ ds) st =
    retried-force_closed p waits (i + 1) ds (timed p d (waits i) st)

abbrev pub rev_onto : List ℕ → List ℕ → List ℕ
rev_onto [] ys = ys
rev_onto (x ∷ xs) ys = rev_onto xs (x ∷ ys)

retried-timers :
    (p : Packet) (waits : ℕ → Wait) (i : ℕ) (ds : List ℕ) (st : Sender)
    → (retried p waits i ds st).timers ≡ rev_onto ds st.timers
unfolding retried
retried-timers p waits i [] st = refl
retried-timers p waits i (d ∷ ds) st = retried-timers p waits (i + 1) ds (timed p d (waits i) st)

retried-HasRoom :
    (c : Config) (p : Packet) (server : ℕ) (waits : ℕ → Wait) (i : ℕ) (ds : List ℕ) (st : Sender)
    → ((n : ℕ) → n < i + length ds → GoesOut c server timed_out (waits n))
    → HasRoom c server st.pending_acks
    → HasRoom c server (retried p waits i ds st).pending_acks
unfolding retried
retried-HasRoom c p server waits i [] st g r = r
retried-HasRoom c p server waits i (d ∷ ds) st g r =
    retried-HasRoom c p server waits (i + 1) ds (timed p d (waits i) st)
      (λ n h. g n (omega (arith, h)))
      (delete-HasRoom c server (waits i).pending_after p.packet_id (g i (omega arith)).room_after)

attempts_next :
    (c : Config) (p : Packet) (server : ℕ) (waits : ℕ → Wait) (i d : ℕ) (ds : List ℕ)
    (st st' : Sender)
    → attempt c p server d (waits i) st ≡ (st', retry)
    → attempts c p server waits i (d ∷ ds) st ≡ attempts c p server waits (i + 1) ds st'
unfolding attempts
attempts_next c p server waits i d ds st st' h =
    rw (attempts, h) (ap (λ r. attempts c p server waits (i + 1) ds r.0) h)

attempts_done :
    (c : Config) (p : Packet) (server : ℕ) (waits : ℕ → Wait) (i d : ℕ) (ds : List ℕ) (st : Sender)
    (b : Bool)
    → (attempt c p server d (waits i) st).1 ≡ done b
    → attempts c p server waits i (d ∷ ds) st ≡ ((attempt c p server d (waits i) st).0, b)
unfolding attempts
attempts_done c p server waits i d ds st b h = rw (attempts, h) refl

attempts-retried :
    (c : Config) (p : Packet) (server : ℕ) (waits : ℕ → Wait) (i : ℕ) (ds es : List ℕ) (st : Sender)
    → ((n : ℕ) → n < i + length ds → GoesOut c server timed_out (waits n))
    → HasRoom c server st.pending_acks
    → attempts c p server waits i (ds ++ es) st
      ≡ attempts c p server waits (i + length ds) es (retried p waits i ds st)
unfolding attempts retried
attempts-retried c p server waits i [] es st g r =
    ap (λ n. attempts c p server waits n es st) (omega arith)
attempts-retried c p server waits i (d ∷ ds) es st g r =
    attempts_next c p server waits i d (ds ++ es) st (timed p d (waits i) st)
      (attempt_silent c p server d (waits i) st r (g i (omega arith)))
    ∙ attempts-retried c p server waits (i + 1) ds es (timed p d (waits i) st)
        (λ n h. g n (omega (arith, h)))
        (delete-HasRoom c server (waits i).pending_after p.packet_id (g i (omega arith)).room_after)
    ∙ ap (λ n. attempts c p server waits n es (retried p waits (i + 1) ds (timed p d (waits i) st)))
        (omega arith)

send_with_ack_reliable :
    (c : Config) (p : Packet) (server : ℕ) (direct_ok : Bool) (waits : ℕ → Wait) (st : Sender)
    → p.is_ack_message ≡ false
    → p.require_delivery ≡ true
    → send_with_ack c p server direct_ok waits st
      ≡ attempts c p server waits 0 (c.ack_timeout ∷ c.ack_retry_delays) st
unfolding send_with_ack
send_with_ack_reliable c p server direct_ok waits st a q = ground (arith, a, q)

-- If the table has room and every attempt of a reliable send goes out and times out, then the
-- send answers false after one attempt more than there are retry delays, each with its own timer,
-- and closes the socket by force.
pub send_with_ack-exhausted :
    (c : Config) (p : Packet) (server : ℕ) (direct_ok : Bool) (waits : ℕ → Wait) (st : Sender)
    → p.is_ack_message ≡ false
    → p.require_delivery ≡ true
    → HasRoom c server st.pending_acks
    → ((n : ℕ) → GoesOut c server timed_out (waits n))
    → ((send_with_ack c p server direct_ok waits st).1 ≡ false)
      × ((send_with_ack c p server direct_ok waits st).0.frames
          ≡ st.frames + (1 + length c.ack_retry_delays))
      × ((send_with_ack c p server direct_ok waits st).0.timers
          ≡ rev_onto (c.ack_timeout ∷ c.ack_retry_delays) st.timers)
      × ((send_with_ack c p server direct_ok waits st).0.force_closed ≡ server ∷ st.force_closed)
unfolding attempts force_close
send_with_ack-exhausted c p server direct_ok waits st a q r g =
    let ds = c.ack_timeout ∷ c.ack_retry_delays in
    let end' = retried p waits 0 ds st in
    let whole : send_with_ack c p server direct_ok waits st ≡ (force_close server end', false) =
      send_with_ack_reliable c p server direct_ok waits st a q
      ∙ ap (λ l. attempts c p server waits 0 l st) (sym (append-nil ds))
      ∙ attempts-retried c p server waits 0 ds [] st (λ n _. g n) r in
    rw whole (
      refl,
      omega (arith, retried-frames p waits 0 ds st),
      retried-timers p waits 0 ds st,
      ap (◌∷◌ server) (retried-force_closed p waits 0 ds st),
    )

-- If the table has room, and the attempts of a reliable send go out and time out up to one that is
-- acknowledged, then the send answers true and has handed over no frame after that one.
pub send_with_ack-acknowledged :
    (c : Config) (p : Packet) (server : ℕ) (direct_ok : Bool) (waits : ℕ → Wait) (st : Sender)
    (before after : List ℕ) (delay : ℕ)
    → p.is_ack_message ≡ false
    → p.require_delivery ≡ true
    → HasRoom c server st.pending_acks
    → c.ack_timeout ∷ c.ack_retry_delays ≡ before ++ delay ∷ after
    → ((n : ℕ) → n < length before → GoesOut c server timed_out (waits n))
    → GoesOut c server acked (waits (length before))
    → ((send_with_ack c p server direct_ok waits st).1 ≡ true)
      × ((send_with_ack c p server direct_ok waits st).0.frames ≡ st.frames + (length before + 1))
send_with_ack-acknowledged c p server direct_ok waits st before after delay a q r split g last =
    let n = length before in
    let silent : (m : ℕ) → m < 0 + length before → GoesOut c server timed_out (waits m) =
      λ m h. g m (omega (arith, h)) in
    let there = retried p waits 0 before st in
    let answered =
      attempt_answered c p server delay (waits n) there
        (retried-HasRoom c p server waits 0 before st silent r) last in
    let whole : send_with_ack c p server direct_ok waits st
        ≡ ((attempt c p server delay (waits n) there).0, true) =
      send_with_ack_reliable c p server direct_ok waits st a q
      ∙ ap (λ l. attempts c p server waits 0 l st) split
      ∙ attempts-retried c p server waits 0 before (delay ∷ after) st silent r
      ∙ ap (λ m. attempts c p server waits m (delay ∷ after) there) (omega arith)
      ∙ attempts_done c p server waits n delay after there true answered.0 in
    rw whole (refl, omega (arith, answered.1, retried-frames p waits 0 before st))
