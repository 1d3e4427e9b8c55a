-- ===== src/Callbacks/Owned/Tests.antt =====
-- Runs of one function: a rollback after the peer has given up what it has seen.
use perfect_ws.Base.{◌≡◌, refl, ◌⊎◌, true, none, some, List, [], ◌∷◌, All, nat_eq, string_eq}
use perfect_ws.Callbacks.Owned.{
  no_entry, fresh, max_of, release_owned, set_release_handler, identify, register, is_in_list,
  needs, registers, refuses, take_lease, pend, serialize,
}
use perfect_ws.Callbacks.Owned.Events.{
  is_of, withdraw_lease, is_overdue, rollback_lease, rollback_entry, rollback_one, rollback_each,
  is_in, rollback, release_seen, on_release, Event, sets_handler, serializes, rolls_back,
  peer_releases, step, run,
}
use perfect_ws.JsMap.{get, set, has, delete}
use perfect_ws.Callbacks.Owned.Seen.{peer_saw, id_of}
use perfect_ws.Callbacks.Owned.Accounted.{accounted}
use perfect_ws.Callbacks.Owned.Releases.{names_lease, step-release}

-- The peer has seen the first marker only, while the second is in an open transaction.
abbrev given_up : List Event
given_up = peer_releases 0 (some 1) ∷ serializes (some 7) ∷ serializes none ∷ sets_handler ∷ []

noted_release : id_of (run given_up).entry ≡ some 0
unfolding run step set_release_handler serialize register identify no_entry take_lease pend
    registers refuses needs is_in_list set get has on_release is_of release_seen fresh id_of
noted_release = refl

-- The rollback then takes the function away, and calls its release handler.
rolled_back_release : (run (rolls_back 7 ∷ given_up)).handled ≡ 1
unfolding run step set_release_handler serialize register identify no_entry take_lease pend
    registers refuses needs is_in_list set get has delete on_release is_of release_seen fresh
    rollback is_in rollback_each rollback_one rollback_lease rollback_entry withdraw_lease max_of
    is_overdue release_owned
rolled_back_release = refl

step-release_example :
    (id_of (step (rolls_back 7) (run given_up)).entry ≡ some 0)
    ⊎ All
        (λ m.
          accounted 0
            (peer_saw 0 (rolls_back 7 ∷ given_up))
            (step (rolls_back 7) (run given_up)).rolled_back
            m
          ≡ true)
        (run given_up).markers
step-release_example =
    step-release given_up (rolls_back 7) 0 (unfold names_lease in refl) noted_release
