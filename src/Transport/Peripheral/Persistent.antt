-- ===== src/Transport/Peripheral/Persistent.antt =====
-- `PersistentPeripheral` of crates/syauth-transport/src/peripheral.rs: its peers, the services of the
-- live GATT application and the advertised UUIDs. What BlueZ answers is an argument.
use syauth.Base.{
  ℕ, Bool, true, false, Bytes, Text, Dict, get, insert, erase, is_some, List, [], ◌∷◌, Option, none,
  some, Result, ok, err, if◌then◌else◌, ltb, length, ◌++◌,
}
use syauth.Transport.Peripheral.{
  PeripheralError, unknown_peer, peer_already_added, backend, response_timeout,
}
use syauth.Transport.Peripheral.Notification.{NotificationChannel, SendError, send_on}

-- A service of the application: the pair-mode service, or that of a peer by its bond key.
pub data GattService : Type 0 where
  pair_service : GattService
  peer_service : Bytes → GattService

-- `RESPONSE_BUFFER_DEPTH`
abbrev pub response_buffer_depth : ℕ
response_buffer_depth = 8

pub record PeerCharSet : Type 0 where
  -- the responses that are buffered, at most `response_buffer_depth`
  pub response_rx : List Bytes
  -- the response whose `send` waits for room: there is one task for the writes of a peer
  pub blocked : Option Bytes
  pub notifier_slot : NotificationChannel

pub record PersistentPeripheral : Type 0 where
  -- the services of the live registration; `none` is no registration
  pub app_handle : Option (List GattService)
  pub adv_slot : Option (List Bytes)
  pub peers : Dict PeerCharSet

-- `serve_gatt_application`: the live registration is replaced where BlueZ accepts
abbrev pub serve : Bool → List GattService → PersistentPeripheral → Bool × PersistentPeripheral
serve accepts services p =
    if accepts
    then (true, record p { app_handle = some services })
    else (false, record p { app_handle = none })

unfoldable pub registered :
    Bool × PersistentPeripheral → Result (Unit {0}) PeripheralError × PersistentPeripheral
registered (true, p) = (ok tt, p)
registered (false, p) = (err backend, p)

-- `rebuild_application`, whose only call is that of `new`, without peers
unfoldable pub rebuild_application :
    Bool
    → List GattService
    → PersistentPeripheral
    → Result (Unit {0}) PeripheralError × PersistentPeripheral
unfolding registered
rebuild_application accepts peer_services p =
    registered (serve accepts (pair_service ∷ peer_services) p)

-- the task's `send` of a response on the channel, which waits where the channel is full
unfoldable pub send_response : Bytes → PeerCharSet → PeerCharSet
send_response bytes peer =
    if ltb (length peer.response_rx) response_buffer_depth
    then record peer { response_rx = peer.response_rx ++ (bytes ∷ []) }
    else record peer { blocked = some bytes }

unfoldable pub waiting : Option Bytes → List Bytes
waiting none = []
waiting (some bytes) = bytes ∷ []

-- The loop of `try_recv` in `notify_challenge`. It takes what is buffered, which makes room for the
-- response that waits; that one is dropped too where its task runs before the last `try_recv`, and
-- is buffered afterwards where it does not.
unfoldable pub drain : Bool → PeerCharSet → PeerCharSet
unfolding waiting
drain before_the_last peer = record peer {
  response_rx = if before_the_last then [] else waiting peer.blocked;
  blocked = none;
}

-- the channel after a response was taken, into which the response that waited goes
unfoldable pub refill : List Bytes → PeerCharSet → PeerCharSet
unfolding waiting
refill rest peer = record peer { response_rx = rest ++ waiting peer.blocked; blocked = none }

abbrev pub no_peripheral : PersistentPeripheral
no_peripheral = record { app_handle = none; adv_slot = none; peers = [] }

-- the peer that `add_peer` puts into the map, where BlueZ accepted its service
unfoldable pub after_registration :
    Text
    → Result (Unit {0}) PeripheralError × PersistentPeripheral
    → Result (Unit {0}) PeripheralError × PersistentPeripheral
after_registration peer_id (ok _, p) = (
  ok tt,
  record p {
    peers =
        insert peer_id (record { response_rx = []; blocked = none; notifier_slot = none }) p.peers;
  },
)
after_registration peer_id (err e, p) = (err e, p)

unfoldable pub build_and_register_peer :
    Bool → Bytes → PersistentPeripheral → Result (Unit {0}) PeripheralError × PersistentPeripheral
unfolding registered
build_and_register_peer accepts bond_key p =
    registered (serve accepts (peer_service bond_key ∷ []) p)

unfoldable pub add_peer :
    Bool
    → PersistentPeripheral
    → Text
    → Bytes
    → Result (Unit {0}) PeripheralError × PersistentPeripheral
unfolding after_registration build_and_register_peer
add_peer accepts p peer_id bond_key =
    if is_some (get peer_id p.peers)
    then (err (peer_already_added peer_id), p)
    else after_registration peer_id
        (build_and_register_peer accepts bond_key (record p { app_handle = none }))

unfoldable pub remove_peer :
    PersistentPeripheral → Text → Result (Unit {0}) PeripheralError × PersistentPeripheral
remove_peer p peer_id =
    if is_some (get peer_id p.peers)
    then (ok tt, record p { app_handle = none; peers = erase peer_id p.peers })
    else (err (unknown_peer peer_id), p)

unfoldable pub set_session_uuids :
    Bool
    → PersistentPeripheral
    → List Bytes
    → Result (Unit {0}) PeripheralError × PersistentPeripheral
set_session_uuids accepts p uuids =
    if accepts
    then (ok tt, record p { adv_slot = some uuids })
    else (err backend, record p { adv_slot = none })

unfoldable pub after_send :
    PersistentPeripheral
    → Text
    → PeerCharSet
    → Result (Unit {0}) SendError × NotificationChannel
    → Result (Unit {0}) PeripheralError × PersistentPeripheral
after_send p peer_id peer (ok _, slot) =
    (ok tt, record p { peers = insert peer_id (record peer { notifier_slot = slot }) p.peers })
after_send p peer_id peer (err _, slot) = (
  err backend,
  record p { peers = insert peer_id (record peer { notifier_slot = slot }) p.peers },
)

-- `notify_challenge`: the buffered responses are drained before the frame is sent; a session that fails
-- to send is cleared. No session is installed while the frame is sent.
unfoldable pub notify_challenge :
    Bool
    → Bool
    → PersistentPeripheral
    → Text
    → Result (Unit {0}) PeripheralError × PersistentPeripheral
unfolding send_on after_send drain
notify_challenge sent before_the_last p peer_id = elim (get peer_id p.peers) [
  | none ↦ (err (unknown_peer peer_id), p)
  | some peer ↦
      after_send p peer_id (drain before_the_last peer)
        (send_on sent peer.notifier_slot peer.notifier_slot)
]

-- what the wait finds: a response that is buffered, or one that arrives before the deadline
abbrev pub take_response :
    ℕ
    → Text
    → Option Bytes
    → PersistentPeripheral
    → PeerCharSet
    → Result Bytes PeripheralError × PersistentPeripheral
take_response deadline_ms peer_id arriving p peer = elim peer.response_rx [
  | bytes ∷ rest ↦ (ok bytes, record p { peers = insert peer_id (refill rest peer) p.peers })
  | [] ↦ elim arriving [
    | some bytes ↦ (ok bytes, p)
    | none ↦ (err (response_timeout peer_id deadline_ms), p)
  ]
]

unfoldable pub wait_for_response :
    ℕ
    → PersistentPeripheral
    → Text
    → Option Bytes
    → Result Bytes PeripheralError × PersistentPeripheral
wait_for_response deadline_ms p peer_id arriving = elim (get peer_id p.peers) [
  | none ↦ (err (unknown_peer peer_id), p)
  | some peer ↦ take_response deadline_ms peer_id arriving p peer
]
