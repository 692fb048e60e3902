-- ===== src/Presence/Lock/Single.antt =====
-- Who has the lock of crates/syauth-presenced/src/lock.rs.
use syauth.Base.{
  ℕ, Bool, true, false, Option, none, some, ◌==◌, ==_iff, ◌≡◌, ◌≢◌, refl, sym, ap, ◌∙◌, subst,
  arith, Bool-cases, inl, inr,
}
use syauth.Presence.Lock.{
  Stage, idle, opened, held, unlinked, Pidfile, set, open_at, open_pidfile, lock_at,
  try_lock_exclusive, remove_file, close_file, ◌⟶◌, opens, locks, drops, closes, dies, ◌⟶*◌, start,
  then_step, no_daemon,
}

-- A process at this stage has the lock of the inode.
abbrev pub Holds : Stage → ℕ → Type 0
Holds idle m = ⊥
Holds (opened n) m = ⊥
Holds (held n) m = n ≡ m
Holds (unlinked n) m = n ≡ m

-- The kernel has a process for the owner of each inode that it holds.
abbrev pub Owned : (ℕ → Stage) → (ℕ → Option ℕ) → Type 0
Owned stage holder = (j m : ℕ) → Holds (stage j) m → holder m ≡ some j

pub same_number : {x y : ℕ} → ◌≡◌ {A = Option ℕ} (some x) (some y) → x ≡ y
same_number h = cc

pub no_number : {x : ℕ} → ◌≢◌ {A = Option ℕ} none (some x)
no_number h = cc

pub set-same : {A : Type 0} (k : ℕ) (a : A) (f : ℕ → A) → set k a f k ≡ a
unfolding set
set-same k a f = ground arith

pub set-other : {A : Type 0} (k j : ℕ) (a : A) (f : ℕ → A) → (j == k) ≡ false → set k a f j ≡ f j
unfolding set
set-other k j a f h = rw h refl

-- One process moves to another stage.
Owned-set :
    (stage : ℕ → Stage) (holder : ℕ → Option ℕ) (i : ℕ) (st : Stage)
    → ((m : ℕ) → Holds st m → holder m ≡ some i)
    → ((j m : ℕ) → (j == i) ≡ false → Holds (stage j) m → holder m ≡ some j)
    → Owned (set i st stage) holder
Owned-set stage holder i st mine others j m h = elim (Bool-cases (j == i)) [
  | inl e ↦
      let same = (==_iff j i).0 e in
      mine m (
        subst (λ (t : Stage). Holds t m)
          (ap (λ (k : ℕ). set i st stage k) same ∙ set-same i st stage) h)
      ∙ ap some (sym same)
  | inr e ↦ others j m e (subst (λ (t : Stage). Holds t m) (set-other i j st stage e) h)
]

module _ (s : Pidfile) (o : Owned s.stage s.holder) where
  idles : (i : ℕ) → Owned (set i idle s.stage) s.holder
  idles i = Owned-set s.stage s.holder i idle (λ m h. absurd h) (λ j m e h. o j m h)

  open-Owned : (i : ℕ) (p : Option ℕ) → Owned (open_at i s p).stage (open_at i s p).holder
  open-Owned i none =
      Owned-set s.stage s.holder i (opened s.fresh) (λ m h. absurd h) (λ j m e h. o j m h)
  open-Owned i (some n) =
      Owned-set s.stage s.holder i (opened n) (λ m h. absurd h) (λ j m e h. o j m h)

  -- an inode that nobody has
  taken :
      (i n j m : ℕ) → s.holder n ≡ none → s.holder m ≡ some j → set n (some i) s.holder m ≡ some j
  taken i n j m f h = elim (Bool-cases (m == n)) [
    | inl e ↦ absurd (no_number (sym f ∙ ap s.holder (sym ((==_iff m n).0 e)) ∙ h))
    | inr e ↦ set-other n m (some i) s.holder e ∙ h
  ]

  lock-Owned :
      (i n : ℕ) (p : Option ℕ)
      → s.holder n ≡ p
      → Owned (lock_at i n s p).stage (lock_at i n s p).holder
  lock-Owned i n (some k) f = idles i
  lock-Owned i n none f =
      Owned-set s.stage (set n (some i) s.holder) i (held n)
        (λ m e. ap (set n (some i) s.holder) (sym e) ∙ set-same n (some i) s.holder)
        (λ j m e h. taken i n j m f (o j m h))

  -- the lock of another process stays
  released :
      (i n j m : ℕ)
      → s.holder n ≡ some i
      → (j == i) ≡ false
      → s.holder m ≡ some j
      → set n none s.holder m ≡ some j
  released i n j m f d h = elim (Bool-cases (m == n)) [
    | inl e ↦
        let same : j ≡ i = same_number (sym h ∙ ap s.holder ((==_iff m n).0 e) ∙ f) in
        absurd (apart (sym d ∙ (==_iff j i).1 same))
    | inr e ↦ set-other n m none s.holder e ∙ h
  ]
    where
      apart : ◌≢◌ {A = Bool} false true
      apart q = cc

  close-Owned :
      (i n : ℕ) → Holds (s.stage i) n → Owned (close_file i n s).stage (close_file i n s).holder
  unfolding close_file
  close-Owned i n h =
      Owned-set s.stage (set n none s.holder) i idle (λ m q. absurd q)
        (λ j m e q. released i n j m (o i n h) e (o j m q))

  remove-Owned :
      (i n : ℕ) → Holds (s.stage i) n → Owned (remove_file i n s).stage (remove_file i n s).holder
  unfolding remove_file
  remove-Owned i n h =
      Owned-set s.stage s.holder i (unlinked n)
        (λ m e. subst (λ (k : ℕ). s.holder k ≡ some i) e (o i n h)) (λ j m e q. o j m q)

Holds-held : (st : Stage) (n : ℕ) → st ≡ held n → Holds st n
Holds-held st n h = subst (λ (t : Stage). Holds t n) (sym h) refl

Holds-unlinked : (st : Stage) (n : ℕ) → st ≡ unlinked n → Holds st n
Holds-unlinked st n h = subst (λ (t : Stage). Holds t n) (sym h) refl

Owned-step : (s t : Pidfile) → s ⟶ t → Owned s.stage s.holder → Owned t.stage t.holder
unfolding open_pidfile try_lock_exclusive
Owned-step s t (opens i h) o = open-Owned s o i s.at_path
Owned-step s t (locks i n h) o = lock-Owned s o i n (s.holder n) refl
Owned-step s t (drops i n h) o = remove-Owned s o i n (Holds-held (s.stage i) n h)
Owned-step s t (closes i n h) o = close-Owned s o i n (Holds-unlinked (s.stage i) n h)
Owned-step s t (dies i n h) o = close-Owned s o i n (Holds-held (s.stage i) n h)

Owned-steps : (s t : Pidfile) → s ⟶* t → Owned s.stage s.holder → Owned t.stage t.holder
Owned-steps s t start o = o
Owned-steps s t (then_step {t = r} rs step) o = Owned-step r t step (Owned-steps s r rs o)

-- However the processes run, two that hold a `PidFileLock` of one inode at once are one process.
pub held_once :
    (s : Pidfile) (i j n : ℕ) → no_daemon ⟶* s → s.stage i ≡ held n → s.stage j ≡ held n → i ≡ j
held_once s i j n run a b =
    let o = Owned-steps no_daemon s run (λ k m h. absurd h) in
    same_number (sym (o i n (Holds-held (s.stage i) n a)) ∙ o j n (Holds-held (s.stage j) n b))
