-- ===== src/Connection/Ready.antt =====
-- When a client router is ready, and that nobody waits then.
use perfect_ws.Base.{
  ℕ, ◌+◌, ◌<◌, ◌≡◌, refl, ◌∙◌, ◌≢◌, inl, inr, Bool, true, false, not, ◌&&◌, ◌||◌, Option, none,
  some, List, [], ◌∷◌, map, arith, ltb, if◌then◌else◌, Bool-cases, if_cases, keep_if, count_if, any,
  count_if-append, count_if-map, ◌==◌, nat_eq, string_eq,
}
use perfect_ws.Connection.{
  Connection, is, is_opened, connected_in, is_connected, shut, close, become_ready, server_open,
}

unfoldable pub waiting_count : ℕ → Connection → ℕ
waiting_count id c = count_if (λ i. i == id) c.waiters

unfoldable pub told_count : ℕ → Connection → ℕ
told_count id c = count_if (λ o. o.0 == id) c.told

-- A socket that has ended is not open, and the sockets are those that `_setServer` has brought.
pub record AreApart (opened ended : List ℕ) (next : ℕ) (server : Option ℕ) : Type 0 where
  pub apart : (id : ℕ) → any (λ s. s == id) ended ≡ true → any (λ s. s == id) opened ≡ false
  pub known : (id : ℕ) → any (λ s. s == id) ended ≡ true → id < next
  pub current : (id : ℕ) → is server id ≡ true → id < next

pub record IsServed (c : Connection) : Type 0 where
  -- while the router is ready and its server is open, nobody waits
  pub served : c.ready ≡ true → is_connected c ≡ true → c.waiters ≡ []
  -- the server of a router that is ready is open, or is closing or closed
  pub lost : c.ready ≡ true → (is_connected c || connected_in c.current c.ended) ≡ true
  pub gone : c.unregistered ≡ true → (c.current ≡ none) × ((c.waiters ≡ []) × (c.ready ≡ false))
  -- the handlers that are registered are those of the server
  pub same : c.attached ≡ c.current
  -- each one who asked waits or was told, and was told once
  pub once :
      (id : ℕ) → waiting_count id c + told_count id c ≡ (if ltb id c.next_waiter then 1 else 0)
  pub sockets : AreApart c.opened c.ended c.next_server c.current

any-keep :
    (s id : ℕ) (ss : List ℕ)
    → (s == id) ≡ false
    → any (λ j. j == s) (keep_if (λ j. not (j == id)) ss) ≡ any (λ j. j == s) ss
any-keep s id [] h = refl
any-keep s id (j ∷ ss) h =
    ground (
      arith,
      any-keep s id ss h,
      nat_eq.same_iff j id,
      nat_eq.same_iff j s,
      h,
      nat_eq.same_iff s id,
    )

any-keep_self :
    (id : ℕ) (ss : List ℕ) → any (λ j. j == id) (keep_if (λ j. not (j == id)) ss) ≡ false
any-keep_self id [] = refl
any-keep_self id (j ∷ ss) = ground (arith, any-keep_self id ss)

any-kept :
    (s id : ℕ) (ss : List ℕ)
    → any (λ j. j == s) (keep_if (λ j. not (j == id)) ss) ≡ true
    → any (λ j. j == s) ss ≡ true
any-kept s id [] h = h
any-kept s id (j ∷ ss) h = ground (arith, any-kept s id ss, h)

shut-connected :
    (x : Option ℕ) (id : ℕ) (ss : List ℕ)
    → connected_in x (keep_if (λ j. not (j == id)) ss) ≡ true
    → connected_in x ss ≡ true
unfolding connected_in
shut-connected none id ss h = h
shut-connected (some s) id ss h = any-kept s id ss h

-- The server that is shut is among those that have ended, and another one stays as it is.
shut-lost :
    (x : Option ℕ) (id : ℕ) (ss es : List ℕ)
    → (connected_in x ss || connected_in x es) ≡ true
    → (connected_in x (keep_if (λ j. not (j == id)) ss) || connected_in x (id ∷ es)) ≡ true
unfolding connected_in
shut-lost none id ss es h = h
shut-lost (some s) id ss es h = elim (Bool-cases (s == id)) [
  | inl e ↦ ground (arith, e, nat_eq.same_iff s id, nat_eq.same_iff id s)
  | inr e ↦ ground (arith, e, any-keep s id ss e, h)
]

not_connected : (x : Option ℕ) (ss : List ℕ) → x ≡ none → connected_in x ss ≢ true
unfolding connected_in
not_connected none ss e = λ p. cc p
not_connected (some s) ss e = λ p. cc e

pub open-connected :
    (x : Option ℕ) (id : ℕ) (ss : List ℕ)
    → is x id ≡ true
    → any (λ s. s == id) ss ≡ true
    → connected_in x ss ≡ true
unfolding connected_in is
open-connected none id ss e h = absurd (ground (arith, e))
open-connected (some s) id ss e h =
    let p : s ≡ id = ground (arith, e, nat_eq.same_iff s id) in rw p h

pub more-connected :
    (x : Option ℕ) (id : ℕ) (ss : List ℕ)
    → connected_in x ss ≡ true
    → connected_in x (id ∷ ss) ≡ true
unfolding connected_in
more-connected none id ss h = h
more-connected (some s) id ss h = ground (arith, h)

pub shut-AreApart :
    (id : ℕ) (opened ended : List ℕ) (next : ℕ) (server : Option ℕ)
    → id < next
    → AreApart opened ended next server
    → AreApart (keep_if (λ s. not (s == id)) opened) (id ∷ ended) next server
shut-AreApart id opened ended next server k h = record {
  apart = λ j e. elim (Bool-cases (j == id)) [
    | inl f ↦ rw ((nat_eq.same_iff j id).0 f) (any-keep_self id opened)
    | inr f ↦
        any-keep j id opened f
        ∙ h.apart j (ground (arith, e, f, nat_eq.same_iff id j, nat_eq.same_iff j id))
  ];
  known = λ j e. ground (arith, e, k, h.known j, nat_eq.same_iff id j);
  current = h.current;
}

pub shut-IsServed :
    (id : ℕ) (c : Connection) → id < c.next_server → IsServed c → IsServed (shut id c)
unfolding shut is_connected waiting_count told_count
shut-IsServed id c k h = record {
  served = λ r p. h.served r (shut-connected c.current id c.opened p);
  lost = λ r. shut-lost c.current id c.opened c.ended (h.lost r);
  gone = h.gone;
  same = h.same;
  once = h.once;
  sockets = shut-AreApart id c.opened c.ended c.next_server c.current k h.sockets;
}

pub close-IsServed :
    (id : ℕ) (c : Connection) → id < c.next_server → IsServed c → IsServed (close id c)
unfolding close is_connected waiting_count told_count
close-IsServed id c k h =
    let s = shut-IsServed id c k h in
    record {
      served = λ r p. s.served (ground (arith, r)) p;
      lost = λ r. s.lost (ground (arith, r));
      gone = λ u. let (n, (w, r)) = s.gone u in (n, (w, ground (arith, r)));
      same = s.same;
      once = s.once;
      sockets = s.sockets;
    }

pub become_ready-IsServed : (id : ℕ) (c : Connection) → IsServed c → IsServed (become_ready id c)
unfolding become_ready is_connected is_opened waiting_count told_count
become_ready-IsServed id c h =
    if_cases IsServed (is c.current id && is_opened id c) _ _
      (λ e.
        let k = open-connected c.current id c.opened (ground (arith, e)) (ground (arith, e)) in
        record {
          served = λ r p. refl;
          lost = λ r. ground (arith, k);
          gone = λ u. absurd (not_connected c.current c.opened (h.gone u).0 k);
          same = h.same;
          once = λ j.
              rw
                (
                  count_if-append (λ (p : ℕ × Bool). p.0 == j) (map (λ i. (i, true)) c.waiters)
                      c.told,
                  count_if-map (λ (i : ℕ). i == j) true c.waiters,
                )
                (ground (arith, h.once j));
          sockets = h.sockets;
        })
      (λ e. h)

pub server_open-IsServed : (c : Connection) → IsServed c → IsServed (server_open c)
unfolding server_open is_connected waiting_count told_count
server_open-IsServed c h =
    if_cases IsServed c.unregistered _ _
      (λ u. record {
        served = h.served;
        lost = h.lost;
        sockets = h.sockets;
        gone = h.gone;
        same = h.same;
        once = λ j. ground (arith, h.once j, nat_eq.same_iff c.next_waiter j);
      })
      (λ u.
        if_cases IsServed (c.ready && is_connected c) _ _
          (λ r. record {
            served = h.served;
            lost = h.lost;
            sockets = h.sockets;
            gone = h.gone;
            same = h.same;
            once = λ j. ground (arith, h.once j, nat_eq.same_iff c.next_waiter j);
          })
          (λ r. record {
            served = λ q p. absurd (ground (arith, q, r, p));
            lost = h.lost;
            sockets = h.sockets;
            gone = λ v. absurd (ground (arith, u, v));
            same = h.same;
            once = λ j.
                rw (count_if-append (λ (i : ℕ). i == j) c.waiters (c.next_waiter ∷ []))
                  (ground (arith, h.once j, nat_eq.same_iff c.next_waiter j));
          }))
