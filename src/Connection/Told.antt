-- ===== src/Connection/Told.antt =====
-- Who waits for the server of a client router, and when one is told that it is there.
use perfect_ws.Connection.{
  Connection, is, is_opened, is_connected, unregister_server, shut, close, close_current,
  become_ready, server_open, release_all_channels, release, replace_server, on_open, set_server,
  open_socket, on_synced, Event, sets_server, opens, shuts, closes, syncs, asks, releases, is_known,
  has_ended, step, run,
}
use perfect_ws.Base.{
  ℕ, ◌≡◌, refl, ◌∙◌, ◌⊎◌, inl, inr, Bool, true, false, not, ◌&&◌, List, [], ◌∷◌, map, arith,
  if_both, if_cases, option_cases, count_if, count_if-append, nat_eq, string_eq,
}
use perfect_ws.Connection.Ready.{IsServed, open-connected}
use perfect_ws.Connection.Replaced.{runs-IsServed}

-- How many were told that a server is ready.
unfoldable pub ready_told : Connection → ℕ
ready_told c = count_if (λ o. o.1) c.told

-- Nobody is told so, or the server is open.
abbrev pub IsHonest : (c c' : Connection) → Type 0
IsHonest c c' = (ready_told c' ≡ ready_told c) ⊎ (is_connected c' ≡ true)

close-ready_told : (id : ℕ) (c : Connection) → ready_told (close id c) ≡ ready_told c
unfolding close shut ready_told
close-ready_told id c = refl

close_current-ready_told : (c : Connection) → ready_told (close_current c) ≡ ready_told c
unfolding close_current ready_told
close_current-ready_told c =
    option_cases (λ d. ready_told d ≡ ready_told c) c.current _ _ (λ e. refl)
      (λ s e. close-ready_told s c)

become_ready-IsHonest : (id : ℕ) (c : Connection) → IsHonest c (become_ready id c)
unfolding become_ready is_connected is_opened
become_ready-IsHonest id c =
    if_cases (IsHonest c) (is c.current id && is_opened id c) _ _
      (λ e. inr (open-connected c.current id c.opened (ground (arith, e)) (ground (arith, e))))
      (λ e. inl (ground arith))

server_open-IsHonest : (c : Connection) → IsHonest c (server_open c)
unfolding server_open ready_told is_connected
server_open-IsHonest c =
    if_cases (IsHonest c) c.unregistered _ _ (λ e. inl (ground arith))
      (λ e.
        if_cases (IsHonest c) (c.ready && is_connected c) _ _ (λ f. inr (ground (arith, f)))
          (λ f. inl refl))

none_told : (xs : List ℕ) → count_if (λ (o : ℕ × Bool). o.1) (map (λ i. (i, false)) xs) ≡ 0
none_told [] = refl
none_told (x ∷ xs) = omega (arith, none_told xs)

release_all_channels-ready_told :
    (c : Connection) → ready_told (release_all_channels c) ≡ ready_told c
unfolding release_all_channels ready_told
release_all_channels-ready_told c =
    if_both (λ d. ready_told d ≡ ready_told c) c.unregistered _ _ refl
      (ground (
        arith,
        count_if-append (λ (o : ℕ × Bool). o.1) (map (λ i. (i, false)) c.waiters) c.told,
        none_told c.waiters,
      ))

release-ready_told : (b : Bool) (c : Connection) → ready_told (release b c) ≡ ready_told c
unfolding release unregister_server ready_told
release-ready_told b c =
    release_all_channels-ready_told _
    ∙ if_both (λ d. ready_told d ≡ ready_told c) b _ _
        (close_current-ready_told (unregister_server c)) refl

replace_server-ready_told :
    (b : Bool) (c : Connection) → ready_told (replace_server b c) ≡ ready_told c
unfolding replace_server unregister_server ready_told
replace_server-ready_told b c = close_current-ready_told (unregister_server c)

same-IsHonest : (c d e : Connection) → ready_told d ≡ ready_told c → IsHonest d e → IsHonest c e
same-IsHonest c d e p (inl q) = inl (q ∙ p)
same-IsHonest c d e p (inr q) = inr q

module _ (sync : Bool) where
  on_open-IsHonest : (id : ℕ) (c : Connection) → IsHonest c (on_open sync id c)
  unfolding on_open
  on_open-IsHonest id c = if_both (IsHonest c) sync _ _ (inl refl) (become_ready-IsHonest id c)

  open_socket-IsHonest : (id : ℕ) (c : Connection) → IsHonest c (open_socket sync id c)
  unfolding open_socket
  open_socket-IsHonest id c =
      let o : Connection = record c { opened = id ∷ c.opened } in
      if_both (IsHonest c) (is c.attached id) _ _
        (same-IsHonest c o _ (unfold ready_told in refl) (on_open-IsHonest id o))
        (inl (unfold ready_told in refl))

  set_server-IsHonest : (b : Bool) (c : Connection) → IsHonest c (set_server sync b c)
  unfolding set_server
  set_server-IsHonest b c = if_both (IsHonest c) c.unregistered _ _ (inl refl) (
      if_both (IsHonest c) b _ _
        (same-IsHonest c (replace_server true c) _ (replace_server-ready_told true c)
          (on_open-IsHonest c.next_server (replace_server true c)))
        (inl (replace_server-ready_told false c)))

  step-IsHonest : (e : Event) (c : Connection) → IsHonest c (step sync e c)
  unfolding step on_synced shut
  step-IsHonest (sets_server b) c = set_server-IsHonest b c
  step-IsHonest (opens id) c =
      if_both (IsHonest c) (is_known id c && not (has_ended id c)) _ _ (open_socket-IsHonest id c)
        (inl refl)
  step-IsHonest (shuts id) c =
      if_both (IsHonest c) (is_known id c) _ _ (inl (unfold ready_told in refl)) (inl refl)
  step-IsHonest (closes id) c =
      if_both (IsHonest c) (is_known id c) _ _ (inl (close-ready_told id c)) (inl refl)
  step-IsHonest (syncs id ok) c =
      if_both (IsHonest c) (is_known id c) _ _
        (if_both (IsHonest c) ok _ _ (become_ready-IsHonest id c) (inl (close-ready_told id c)))
        (inl refl)
  step-IsHonest asks c = server_open-IsHonest c
  step-IsHonest (releases b) c = inl (release-ready_told b c)

  -- After any events, a socket of which may be closing before its close event: while the router is
  -- ready and its server is open nobody waits for it; the server of a router that is ready is open, or
  -- is closing or closed; a router that is gone has no server, is not ready, and nobody waits; the
  -- handlers that are registered are those of the server; each one who asked waits or was told, and was
  -- told at most once. And whatever event comes next, only if the server is open after it is anybody
  -- told by it that the server is ready.
  pub run-IsServed :
      (es : List Event)
      → IsServed (run sync es) × ((e : Event) → IsHonest (run sync es) (run sync (e ∷ es)))
  unfolding run
  run-IsServed es = (runs-IsServed sync es, λ e. step-IsHonest e (run sync es))
