-- ===== src/Presence/Lock/DropFree.antt =====
-- Where only one daemon of crates/syauth-presenced/src/lock.rs runs.
use syauth.Base.{
  ℕ, Bool, true, false, Option, none, some, ◌==◌, ==_iff, ◌≡◌, ◌≢◌, refl, sym, ap, ◌∙◌, subst,
  Bool-cases, inl, inr,
}
use syauth.Presence.Lock.{
  Stage, idle, opened, held, unlinked, Pidfile, set, open_at, open_pidfile, lock_at,
  try_lock_exclusive, close_file, opens, locks, drops, closes, dies, ◌⟶*◌, start, then_step,
  no_daemon,
}
use syauth.Presence.Lock.Single.{set-same, set-other, same_number, no_number, held_once}

-- No `PidFileLock` is dropped in this run.
unfoldable pub drop_free : {s t : Pidfile} → s ⟶* t → Bool
drop_free start = true
drop_free (then_step run (opens i h)) = drop_free run
drop_free (then_step run (locks i n h)) = drop_free run
drop_free (then_step run (drops i n h)) = false
drop_free (then_step run (closes i n h)) = drop_free run
drop_free (then_step run (dies i n h)) = drop_free run

-- A process at this stage has the inode open, and the path was not removed for it.
abbrev pub Uses : Stage → ℕ → Type 0
Uses idle m = ⊥
Uses (opened n) m = n ≡ m
Uses (held n) m = n ≡ m
Uses (unlinked n) m = ⊥

-- All processes use the file at the path.
abbrev pub Named : (ℕ → Stage) → Option ℕ → Type 0
Named stage at_path = (j m : ℕ) → Uses (stage j) m → at_path ≡ some m

Named-set :
    (stage : ℕ → Stage) (at_path : Option ℕ) (i : ℕ) (st : Stage)
    → ((m : ℕ) → Uses st m → at_path ≡ some m)
    → Named stage at_path
    → Named (set i st stage) at_path
Named-set stage at_path i st mine others j m h = elim (Bool-cases (j == i)) [
  | inl e ↦ mine m (
      subst (λ (t : Stage). Uses t m)
        (ap (λ (k : ℕ). set i st stage k) ((==_iff j i).0 e) ∙ set-same i st stage) h)
  | inr e ↦ others j m (subst (λ (t : Stage). Uses t m) (set-other i j st stage e) h)
]

module _ (s : Pidfile) (o : Named s.stage s.at_path) where
  idles : (i : ℕ) → Named (set i idle s.stage) s.at_path
  idles i = Named-set s.stage s.at_path i idle (λ m h. absurd h) o

  open-Named :
      (i : ℕ) (p : Option ℕ) → s.at_path ≡ p → Named (open_at i s p).stage (open_at i s p).at_path
  open-Named i none f =
      Named-set s.stage (some s.fresh) i (opened s.fresh) (λ m e. ap some e)
        (λ j m h. absurd (no_number (sym f ∙ o j m h)))
  open-Named i (some n) f = Named-set s.stage s.at_path i (opened n) (λ m e. f ∙ ap some e) o

  lock-Named :
      (i n : ℕ) (p : Option ℕ)
      → s.stage i ≡ opened n
      → Named (lock_at i n s p).stage (lock_at i n s p).at_path
  lock-Named i n (some k) h = idles i
  lock-Named i n none h =
      Named-set s.stage s.at_path i (held n)
        (λ m e. o i m (subst (λ (t : Stage). Uses t m) (sym h) e)) o

Named-steps :
    (s t : Pidfile) (run : s ⟶* t)
    → drop_free run ≡ true
    → Named s.stage s.at_path
    → Named t.stage t.at_path
unfolding drop_free open_pidfile try_lock_exclusive close_file
Named-steps s t start f o = o
Named-steps s t (then_step {t = r} run (opens i h)) f o =
    open-Named r (Named-steps s r run f o) i r.at_path refl
Named-steps s t (then_step {t = r} run (locks i n h)) f o =
    lock-Named r (Named-steps s r run f o) i n (r.holder n) h
Named-steps s t (then_step {t = r} run (drops i n h)) f o = absurd (apart f)
  where
    apart : ◌≢◌ {A = Bool} false true
    apart q = cc
Named-steps s t (then_step {t = r} run (closes i n h)) f o = idles r (Named-steps s r run f o) i
Named-steps s t (then_step {t = r} run (dies i n h)) f o = idles r (Named-steps s r run f o) i

-- While no lock was dropped, whatever processes started, lost the race for the lock or were killed, at
-- most one of them holds a `PidFileLock`.
pub held_alone :
    (s : Pidfile) (i j n m : ℕ) (run : no_daemon ⟶* s)
    → drop_free run ≡ true
    → s.stage i ≡ held n
    → s.stage j ≡ held m
    → i ≡ j
held_alone s i j n m run f a b =
    let o = Named-steps no_daemon s run f (λ k l h. absurd h) in
    let same : n ≡ m = same_number (sym (o i n (uses i n a)) ∙ o j m (uses j m b)) in
    held_once s i j m run (a ∙ ap held same) b
  where
    uses : (k l : ℕ) → s.stage k ≡ held l → Uses (s.stage k) l
    uses k l h = subst (λ (t : Stage). Uses t l) (sym h) refl
