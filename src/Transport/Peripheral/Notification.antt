-- ===== src/Transport/Peripheral/Notification.antt =====
-- crates/syauth-transport/src/peripheral/notification.rs: the notification session of one peer. A
-- session is its number, which stands for the address that `Arc::ptr_eq` compares.
use syauth.Base.{
  ℕ, Bool, true, false, Option, none, some, Result, ok, err, ◌==◌, if◌then◌else◌, ◌≡◌, ◌≢◌, arith,
}

pub data SendError : Type 0 where
  not_connected send_failed : SendError

-- The slot of `NotificationChannel`.
abbrev pub NotificationChannel : Type 0
NotificationChannel = Option ℕ

unfoldable pub clear_if_current : ℕ → NotificationChannel → NotificationChannel
clear_if_current writer none = none
clear_if_current writer (some active) = if active == writer then none else some active

abbrev pub install_sink : ℕ → NotificationChannel → NotificationChannel
install_sink writer current = some writer

-- `send`, with what the session answers and with the slot as it is by the time of the answer: another
-- task may have installed a session meanwhile.
unfoldable pub send_on :
    Bool
    → NotificationChannel
    → NotificationChannel
    → Result (Unit {0}) SendError × NotificationChannel
unfolding clear_if_current
send_on sent none later = (err not_connected, later)
send_on sent (some writer) later =
    if sent then (ok tt, later) else (err send_failed, clear_if_current writer later)

-- the end of `wait_closed`: the session that was waited for has closed
unfoldable pub closed : ℕ → NotificationChannel → NotificationChannel
unfolding clear_if_current
closed writer later = clear_if_current writer later

-- The end of an old session never takes away the session that replaced it, and a session that failed
-- to send or closed is not used again: the slot is empty unless another session was installed.
pub sessions :
    (writer other : ℕ)
    → writer ≢ other
    → (closed writer (install_sink other (some writer)) ≡ some other)
      × ((send_on false (some writer) (install_sink other (some writer))).1 ≡ some other)
      × (closed writer (some writer) ≡ none)
      × ((send_on false (some writer) (some writer)).1 ≡ none)
      × ((send_on true (closed writer (some writer)) none).0 ≡ err not_connected)
unfolding closed send_on clear_if_current
sessions writer other h = (ground arith, ground arith, ground arith, ground arith, ground arith)
