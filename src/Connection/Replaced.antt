-- ===== src/Connection/Replaced.antt =====
-- The replacement and the release of the server, and with them every event, keep what holds of a
-- connection.
use perfect_ws.Base.{
  subst, suc, not, ◌&&◌, ◌||◌, Option, some, any, Bool-cases, inl, inr, beq_refl, ℕ, ◌+◌, ◌≡◌, refl,
  sym, ◌∙◌, Bool, true, false, none, List, [], ◌∷◌, map, arith, ltb, if◌then◌else◌, if_both,
  if_cases, option_cases, count_if-append, count_if-map, ◌==◌, nat_eq, string_eq,
}
use perfect_ws.Connection.{
  shut, shuts, is_known, has_ended, connected_in, Connection, fresh, is, is_connected,
  unregister_server, close, close_current, release_all_channels, release, replace_server, on_open,
  set_server, open_socket, on_synced, Event, sets_server, opens, closes, syncs, asks, releases,
  step, run,
}
use perfect_ws.Connection.Ready.{
  AreApart, shut-AreApart, shut-IsServed, waiting_count, told_count, IsServed, close-IsServed,
  become_ready-IsServed, server_open-IsServed,
}

-- What holds while the old server is taken off.
record IsIdle (c : Connection) : Type 0 where
  still : c.ready ≡ false
  detached : c.attached ≡ none
  alone : c.unregistered ≡ true → (c.current ≡ none) × (c.waiters ≡ [])
  sockets : AreApart c.opened c.ended c.next_server c.current
  counted :
      (id : ℕ) → waiting_count id c + told_count id c ≡ (if ltb id c.next_waiter then 1 else 0)

detached-IsIdle : (c : Connection) → IsServed c → IsIdle (unregister_server c)
unfolding unregister_server waiting_count told_count
detached-IsIdle c h = record {
  still = refl;
  detached = refl;
  alone = λ u. let (n, (w, r)) = h.gone u in (n, w);
  counted = h.once;
  sockets = h.sockets;
}

close_current-IsIdle : (c : Connection) → IsIdle c → IsIdle (close_current c)
unfolding close_current close shut is waiting_count told_count
close_current-IsIdle c h =
    option_cases IsIdle c.current _ _ (λ e. h)
      (λ s e. record {
        still = rw h.still refl;
        detached = h.detached;
        alone = h.alone;
        counted = h.counted;
        sockets =
            shut-AreApart s c.opened c.ended c.next_server c.current
              (h.sockets.current s (rw e (beq_refl s))) h.sockets;
      })

release_all_channels-IsServed : (c : Connection) → IsIdle c → IsServed (release_all_channels c)
unfolding release_all_channels is waiting_count told_count
release_all_channels-IsServed c h =
    if_cases IsServed c.unregistered _ _
      (λ u. record {
        served = λ q p. absurd (ground (arith, q, h.still));
        lost = λ q. absurd (ground (arith, q, h.still));
        sockets = h.sockets;
        gone = λ v. ((h.alone u).0, ((h.alone u).1, h.still));
        same = h.detached ∙ sym (h.alone u).0;
        once = h.counted;
      })
      (λ u. record {
        served = λ q p. absurd (ground (arith, q, h.still));
        lost = λ q. absurd (ground (arith, q, h.still));
        sockets = record {
          apart = h.sockets.apart;
          known = h.sockets.known;
          current = λ j e. absurd (ground (arith, e));
        };
        gone = λ v. (refl, (refl, h.still));
        same = refl;
        once = λ j.
            rw
              (
                count_if-append (λ (p : ℕ × Bool). p.0 == j) (map (λ i. (i, false)) c.waiters)
                    c.told,
                count_if-map (λ (i : ℕ). i == j) false c.waiters,
              )
              (ground (arith, h.counted j));
      })

release-IsServed : (b : Bool) (c : Connection) → IsServed c → IsServed (release b c)
unfolding release
release-IsServed b c h =
    let i = detached-IsIdle c h in
    release_all_channels-IsServed _
      (if_both IsIdle b _ _ (close_current-IsIdle (unregister_server c) i) i)

close_current-unregistered : (c : Connection) → (close_current c).unregistered ≡ c.unregistered
unfolding close_current close
close_current-unregistered c = ground arith

brought-AreApart :
    (b : Bool) (opened ended : List ℕ) (next : ℕ) (server : Option ℕ)
    → AreApart opened ended next server
    → AreApart (if b then next ∷ opened else opened) ended (suc next) (some next)
unfolding is
brought-AreApart b opened ended next server h = record {
  apart = λ j e. ground (arith, e, h.known j, h.apart j, nat_eq.same_iff next j);
  known = λ j e. ground (arith, e, h.known j);
  current = λ j e. ground (arith, e, nat_eq.same_iff next j);
}

close_current-next_server : (c : Connection) → (close_current c).next_server ≡ c.next_server
unfolding close_current close shut
close_current-next_server c = ground arith

replace_server-IsServed :
    (b : Bool) (c : Connection)
    → c.unregistered ≡ false
    → IsServed c
    → IsServed (replace_server b c)
unfolding replace_server unregister_server waiting_count told_count
replace_server-IsServed b c u h =
    let closed = close_current (unregister_server c) in
    let i = close_current-IsIdle (unregister_server c) (detached-IsIdle c h) in
    record {
      served = λ r p. absurd (ground (arith, r));
      lost = λ r. absurd (ground (arith, r));
      sockets = brought-AreApart b closed.opened closed.ended c.next_server closed.current (
          subst (λ n. AreApart closed.opened closed.ended n closed.current)
            (close_current-next_server (unregister_server c)) i.sockets);
      gone = λ v.
          absurd (ground (arith, (sym (close_current-unregistered (unregister_server c)) ∙ v), u));
      same = refl;
      once = i.counted;
    }

opened-lost :
    (x : Option ℕ) (id : ℕ) (ss es : List ℕ)
    → (connected_in x ss || connected_in x es) ≡ true
    → (connected_in x (id ∷ ss) || connected_in x es) ≡ true
unfolding connected_in
opened-lost none id ss es h = h
opened-lost (some s) id ss es h = ground (arith, h)

-- A socket that opens while the router is ready is not its server, which is open or has ended.
opened-connected :
    (x : Option ℕ) (id : ℕ) (ss es : List ℕ)
    → any (λ s. s == id) es ≡ false
    → (connected_in x ss || connected_in x es) ≡ true
    → connected_in x (id ∷ ss) ≡ true
    → connected_in x ss ≡ true
unfolding connected_in
opened-connected none id ss es n l p = p
opened-connected (some s) id ss es n l p = elim (Bool-cases (id == s)) [
  | inl e ↦
      let q : id ≡ s = (nat_eq.same_iff id s).0 e in
      let m : any (λ j. j == s) es ≡ false = rw (← q) n in ground (arith, m, l)
  | inr e ↦ ground (arith, p, e)
]

module _ (sync : Bool) where
  on_open-IsServed : (id : ℕ) (c : Connection) → IsServed c → IsServed (on_open sync id c)
  unfolding on_open
  on_open-IsServed id c h = if_both IsServed sync _ _ h (become_ready-IsServed id c h)

  open_socket-IsServed :
      (id : ℕ) (c : Connection)
      → is_known id c ≡ true
      → has_ended id c ≡ false
      → IsServed c
      → IsServed (open_socket sync id c)
  unfolding open_socket is_connected waiting_count told_count
  open_socket-IsServed id c k n h =
      let o : Connection = record c { opened = id ∷ c.opened } in
      let q : IsServed o = record {
        served = λ r p. h.served r (opened-connected c.current id c.opened c.ended n (h.lost r) p);
        lost = λ r. opened-lost c.current id c.opened c.ended (h.lost r);
        sockets = record {
          apart = λ j e. ground (arith, e, n, h.sockets.apart j, nat_eq.same_iff id j);
          known = h.sockets.known;
          current = h.sockets.current;
        };
        gone = h.gone;
        same = h.same;
        once = h.once;
      } in
      if_both IsServed (is c.attached id) _ _ (on_open-IsServed id o q) q

  set_server-IsServed : (b : Bool) (c : Connection) → IsServed c → IsServed (set_server sync b c)
  unfolding set_server
  set_server-IsServed b c h =
      if_cases IsServed c.unregistered _ _ (λ u. h)
        (λ u.
          if_both IsServed b _ _
            (on_open-IsServed c.next_server (replace_server true c)
              (replace_server-IsServed true c u h))
            (replace_server-IsServed false c u h))

  step-IsServed : (e : Event) (c : Connection) → IsServed c → IsServed (step sync e c)
  unfolding step on_synced
  step-IsServed (sets_server b) c h = set_server-IsServed b c h
  step-IsServed (opens id) c h =
      if_cases IsServed (is_known id c && not (has_ended id c)) _ _
        (λ e. open_socket-IsServed id c (ground (arith, e)) (ground (arith, e)) h) (λ e. h)
  step-IsServed (shuts id) c h =
      if_cases IsServed (is_known id c) _ _ (λ e. shut-IsServed id c (ground (arith, e)) h) (λ e. h)
  step-IsServed (closes id) c h =
      if_cases IsServed (is_known id c) _ _ (λ e. close-IsServed id c (ground (arith, e)) h)
        (λ e. h)
  step-IsServed (syncs id ok) c h =
      if_cases IsServed (is_known id c) _ _
        (λ e.
          if_both IsServed ok _ _ (become_ready-IsServed id c h)
            (close-IsServed id c (ground (arith, e)) h))
        (λ e. h)
  step-IsServed asks c h = server_open-IsServed c h
  step-IsServed (releases b) c h = release-IsServed b c h

  pub runs-IsServed : (es : List Event) → IsServed (run sync es)
  unfolding run
  runs-IsServed [] =
      unfold fresh waiting_count told_count in
      record {
        served = λ r. absurd (ground (arith, r));
        lost = λ r. absurd (ground (arith, r));
        gone = λ u. absurd (ground (arith, u));
        same = refl;
        once = λ j. ground arith;
        sockets = record {
          apart = λ j e. absurd (ground (arith, e));
          known = λ j e. absurd (ground (arith, e));
          current = λ j e. unfold is in absurd (ground (arith, e));
        };
      }
  runs-IsServed (e ∷ es) = step-IsServed e (run sync es) (runs-IsServed es)
