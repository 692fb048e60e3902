-- ===== src/Presence/Lock.antt =====
-- crates/syauth-presenced/src/lock.rs: the pid file, whose lock a single daemon is to hold. A process
-- and an inode are numbers; the body of the file, its mode and the failures of calls other than the
-- lock are left out.
pub mod Single
pub mod DropFree
use syauth.Base.{ℕ, suc, Option, none, some, ◌==◌, if◌then◌else◌, ◌≡◌}

-- How far a process is: `opened` after `open_pidfile`, `held` with a `PidFileLock`, `unlinked` within
-- its drop, after `fs::remove_file` and before the file is closed.
pub data Stage : Type 0 where
  idle : Stage
  opened held unlinked : ℕ → Stage

pub record Pidfile : Type 0 where
  -- the inode that the path names, and the first number that no inode has
  pub at_path : Option ℕ
  pub fresh : ℕ
  -- the process that has the lock of an inode
  pub holder : ℕ → Option ℕ
  pub stage : ℕ → Stage

-- a function with one value replaced
unfoldable pub set {ℓ} : {A : Type ℓ} → ℕ → A → (ℕ → A) → ℕ → A
set k a f j = if j == k then a else f j

-- `open` with `create`: the inode at the path, or a new one
abbrev pub open_at : ℕ → Pidfile → Option ℕ → Pidfile
open_at i s (some n) = record s { stage = set i (opened n) s.stage }
open_at i s none = record s {
  at_path = some s.fresh;
  fresh = suc s.fresh;
  stage = set i (opened s.fresh) s.stage;
}

unfoldable pub open_pidfile : ℕ → Pidfile → Pidfile
open_pidfile i s = open_at i s s.at_path

-- `F_OFD_SETLK` does not wait: where another process has the lock, `acquire` returns
-- `AlreadyRunning` and its file is closed.
abbrev pub lock_at : ℕ → ℕ → Pidfile → Option ℕ → Pidfile
lock_at i n s (some j) = record s { stage = set i idle s.stage }
lock_at i n s none = record s { holder = set n (some i) s.holder; stage = set i (held n) s.stage }

unfoldable pub try_lock_exclusive : ℕ → ℕ → Pidfile → Pidfile
try_lock_exclusive i n s = lock_at i n s (s.holder n)

-- `drop`: the path is removed, whatever it names, and then the file is closed, which gives the lock
-- back.
unfoldable pub remove_file : ℕ → ℕ → Pidfile → Pidfile
remove_file i n s = record s { at_path = none; stage = set i (unlinked n) s.stage }

unfoldable pub close_file : ℕ → ℕ → Pidfile → Pidfile
close_file i n s = record s { holder = set n none s.holder; stage = set i idle s.stage }

-- What the processes do, in any order. A process that is killed closes its file without the drop.
infix 4 ◌⟶◌
pub data ◌⟶◌ : Pidfile → Pidfile → Type 0 where
  opens : {s : Pidfile} (i : ℕ) → s.stage i ≡ idle → s ⟶ open_pidfile i s
  locks : {s : Pidfile} (i n : ℕ) → s.stage i ≡ opened n → s ⟶ try_lock_exclusive i n s
  drops : {s : Pidfile} (i n : ℕ) → s.stage i ≡ held n → s ⟶ remove_file i n s
  closes : {s : Pidfile} (i n : ℕ) → s.stage i ≡ unlinked n → s ⟶ close_file i n s
  dies : {s : Pidfile} (i n : ℕ) → s.stage i ≡ held n → s ⟶ close_file i n s

infix 4 ◌⟶*◌
pub data ◌⟶*◌ : Pidfile → Pidfile → Type 0 where
  start : {s : Pidfile} → s ⟶* s
  then_step : {s t u : Pidfile} → s ⟶* t → t ⟶ u → s ⟶* u

-- before the first daemon
abbrev pub no_daemon : Pidfile
no_daemon = record { at_path = none; fresh = 0; holder = λ n. none; stage = λ i. idle }
