-- ===== src/Transport/Peripheral/Registered.antt =====
-- Which peers of `PersistentPeripheral` (crates/syauth-transport/src/peripheral.rs) have a service.
use syauth.Base.{
  ℕ, Bool, true, false, List, Bytes, Text, get, get-insert, bytes_eq, bytes_eq_refl, [], ◌∷◌,
  Option, none, some, Result, ok, err, ◌≡◌, refl, ◌∙◌, if◌then◌else◌,
}
use syauth.Transport.Peripheral.{PeripheralError, response_timeout}
use syauth.Transport.Peripheral.Notification.{NotificationChannel, SendError, send_on}
use syauth.Transport.Peripheral.Persistent.{
  peer_service, PeerCharSet, PersistentPeripheral, waiting, drain, after_registration,
  build_and_register_peer, registered, after_send, add_peer, notify_challenge, take_response,
  wait_for_response,
}

-- what the wait for a response to a new challenge gives, of the response that arrives
unfoldable pub answer : Text → ℕ → Option Bytes → Result Bytes PeripheralError
answer peer_id deadline none = err (response_timeout peer_id deadline)
answer peer_id deadline (some bytes) = ok bytes

-- the first of the responses that reach a channel: the one that was held up, or one that arrives
unfoldable pub first_of : Option Bytes → Option Bytes → Option Bytes
first_of (some held) arriving = some held
first_of none arriving = arriving

get-after_send :
    (p : PersistentPeripheral) (peer_id : Text) (peer : PeerCharSet)
    (sent : Result (Unit {0}) SendError × NotificationChannel)
    → get peer_id (after_send p peer_id peer sent).1.peers
      ≡ some (record peer { notifier_slot = sent.1 })
unfolding after_send
get-after_send p peer_id peer (ok _, slot) =
    get-insert peer_id peer_id _ p.peers ∙ rw (bytes_eq_refl peer_id) refl
get-after_send p peer_id peer (err _, slot) =
    get-insert peer_id peer_id _ p.peers ∙ rw (bytes_eq_refl peer_id) refl

take_response-drained :
    (deadline : ℕ) (peer_id : Text) (arriving : Option Bytes) (before_the_last : Bool)
    (p : PersistentPeripheral) (rx : List Bytes) (blocked : Option Bytes)
    (slot old : NotificationChannel)
    → (take_response deadline peer_id arriving p
        (record (drain before_the_last
          (record { response_rx = rx; blocked = blocked; notifier_slot = old })) {
            notifier_slot = slot;
          })).0
      ≡ answer peer_id deadline (first_of (if before_the_last then none else blocked) arriving)
unfolding answer first_of drain waiting
take_response-drained deadline peer_id none true p rx blocked slot old = refl
take_response-drained deadline peer_id (some bytes) true p rx blocked slot old = refl
take_response-drained deadline peer_id none false p rx none slot old = refl
take_response-drained deadline peer_id (some bytes) false p rx none slot old = refl
take_response-drained deadline peer_id arriving false p rx (some held) slot old = refl

module _ (p : PersistentPeripheral) (peer_id : Text) (key : Bytes) where
  -- Adding a peer that BlueZ accepts leaves one service in the live application, the peer's own: the
  -- pair-mode service and the services of the peers before it are gone, though those stay in the map.
  pub add_peer-services :
      get peer_id p.peers ≡ none
      → ((add_peer true p peer_id key).0 ≡ ok tt)
        × ((add_peer true p peer_id key).1.app_handle ≡ some (peer_service key ∷ []))
        × ((other : Text)
            → bytes_eq peer_id other ≡ false
            → get other (add_peer true p peer_id key).1.peers ≡ get other p.peers)
  unfolding add_peer after_registration build_and_register_peer registered
  add_peer-services h =
      (rw h refl, rw h refl, λ other d. rw h (get-insert peer_id other _ p.peers ∙ rw d refl))

  -- For a peer of the map, whether or not `notify_challenge` sends its frame, the wait after it
  -- returns no response that was buffered when `notify_challenge` began. It returns the response
  -- whose write waited for room in the full buffer then, where that enters after the buffer was
  -- drained; without one it returns the first response that arrives within the deadline, whichever
  -- challenge that answers; and where none arrives it times out.
  pub wait_for_response-notify_challenge :
      (sent before_the_last : Bool) (deadline : ℕ) (arriving : Option Bytes) (peer : PeerCharSet)
      → get peer_id p.peers ≡ some peer
      → (wait_for_response deadline
          (notify_challenge sent before_the_last p peer_id).1
          peer_id
          arriving).0
        ≡ answer peer_id deadline
            (first_of (if before_the_last then none else peer.blocked) arriving)
  unfolding wait_for_response notify_challenge answer
  wait_for_response-notify_challenge sent before_the_last deadline arriving peer h =
      rw
        (
          wait_for_response,
          notify_challenge,
          h,
          get-after_send p peer_id (drain before_the_last peer)
              (send_on sent peer.notifier_slot peer.notifier_slot),
        )
        (take_response-drained deadline peer_id arriving before_the_last _ peer.response_rx
          peer.blocked (send_on sent peer.notifier_slot peer.notifier_slot).1 peer.notifier_slot)
