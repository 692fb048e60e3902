-- ===== src/Tests/LockTests.antt =====
-- The pid file of crates/syauth-presenced in concrete runs.
use syauth.Base.{ℕ, ◌≡◌, refl}
use syauth.Presence.Lock.{
  Pidfile, held, set, open_pidfile, try_lock_exclusive, remove_file, close_file, ◌⟶*◌, opens, locks,
  drops, closes, start, then_step, no_daemon,
}
use syauth.Presence.Lock.DropFree.{drop_free, held_alone}

-- Two processes open the file, and the second loses the race for the lock.
abbrev raced : Pidfile
raced = try_lock_exclusive 2 0 (try_lock_exclusive 1 0 (open_pidfile 2 (open_pidfile 1 no_daemon)))

raced_run : no_daemon ⟶* raced
unfolding open_pidfile try_lock_exclusive set
raced_run =
    then_step
      (then_step (then_step (then_step start (opens 1 refl)) (opens 2 refl)) (locks 1 0 refl))
      (locks 2 0 refl)

held_alone_example : ◌≡◌ {A = ℕ} 1 1
unfolding open_pidfile try_lock_exclusive set raced_run drop_free
held_alone_example = held_alone raced 1 1 0 0 raced_run refl refl refl

-- The first removes the file within its drop, which the second has opened already; after that the
-- second locks what was removed, and the third a new file.
abbrev both : Pidfile
both = try_lock_exclusive 3 1 (
    open_pidfile 3 (
      try_lock_exclusive 2 0 (
        close_file 1 0
          (remove_file 1 0 (open_pidfile 2 (try_lock_exclusive 1 0 (open_pidfile 1 no_daemon)))))))

both_run : no_daemon ⟶* both
unfolding open_pidfile try_lock_exclusive remove_file close_file set
both_run =
    then_step
      (then_step
        (then_step
          (then_step
            (then_step
              (then_step (then_step (then_step start (opens 1 refl)) (locks 1 0 refl))
                (opens 2 refl))
              (drops 1 0 refl))
            (closes 1 0 refl))
          (locks 2 0 refl))
        (opens 3 refl))
      (locks 3 1 refl)

-- two daemons at once
two_daemons : (both.stage 2 ≡ held 0) × (both.stage 3 ≡ held 1)
unfolding open_pidfile try_lock_exclusive remove_file close_file set
two_daemons = (refl, refl)
