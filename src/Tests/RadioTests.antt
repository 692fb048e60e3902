-- ===== src/Tests/RadioTests.antt =====
-- The persistent peripheral (crates/syauth-transport) at concrete inputs.
use syauth.Base.{
  Bytes, List, true, false, Text, text, get, bytes_eq, [], ◌∷◌, none, some, ok, ◌≡◌, refl,
}
use syauth.Transport.Peripheral.Persistent.{
  pair_service, peer_service, PeerCharSet, PersistentPeripheral, registered, rebuild_application,
  no_peripheral, send_response, waiting, drain, add_peer, remove_peer, notify_challenge,
  wait_for_response,
}
use syauth.Transport.Peripheral.Registered.{
  answer, first_of, add_peer-services, wait_for_response-notify_challenge,
}

-- the peripheral that `new` gives
fresh_services : (rebuild_application true [] no_peripheral).1.app_handle ≡ some (pair_service ∷ [])
unfolding rebuild_application registered
fresh_services = refl

abbrev started : PersistentPeripheral
started = record {
  app_handle = some (pair_service ∷ []);
  adv_slot = none;
  peers =
      (
        text "one",
        record { response_rx = (1 ∷ []) ∷ (2 ∷ []) ∷ []; blocked = none; notifier_slot = some 7 },
      )
      ∷ [];
}

removed : (remove_peer started (text "one")).1.app_handle ≡ none
unfolding remove_peer bytes_eq
removed = refl

add_peer-services_example :
    ((add_peer true started (text "two") (5 ∷ [])).0 ≡ ok tt)
    × ((add_peer true started (text "two") (5 ∷ [])).1.app_handle
        ≡ some (peer_service (5 ∷ []) ∷ []))
    × ((other : Text)
        → bytes_eq (text "two") other ≡ false
        → get other (add_peer true started (text "two") (5 ∷ [])).1.peers ≡ get other started.peers)
unfolding bytes_eq
add_peer-services_example = add_peer-services started (text "two") (5 ∷ []) refl

-- the full buffer of a peer, whose ninth response waits and enters after the drain
abbrev backlog : List Bytes
backlog = (1 ∷ []) ∷ (2 ∷ []) ∷ (3 ∷ []) ∷ (4 ∷ []) ∷ (5 ∷ []) ∷ (6 ∷ []) ∷ (7 ∷ []) ∷ (8 ∷ []) ∷ []

held_back :
    (drain false (
      send_response
        (9 ∷ [])
        (record { response_rx = backlog; blocked = none; notifier_slot = some 7 }))).response_rx
    ≡ (9 ∷ []) ∷ []
unfolding drain send_response waiting
held_back = refl

-- the peer with that backlog and a ninth response that waits
abbrev full : PeerCharSet
full = record { response_rx = backlog; blocked = some (9 ∷ []); notifier_slot = some 7 }

abbrev flooded : PersistentPeripheral
flooded = record {
  app_handle = some (pair_service ∷ []);
  adv_slot = none;
  peers = (text "one", full) ∷ [];
}

wait_for_response-notify_challenge_example :
    (wait_for_response 1200
      (notify_challenge true false flooded (text "one")).1
      (text "one")
      (some (10 ∷ []))).0
    ≡ answer (text "one") 1200 (first_of (some (9 ∷ [])) (some (10 ∷ [])))
unfolding bytes_eq
wait_for_response-notify_challenge_example =
    wait_for_response-notify_challenge flooded (text "one") (5 ∷ []) true false 1200
      (some (10 ∷ [])) full refl
