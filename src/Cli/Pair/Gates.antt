-- ===== src/Cli/Pair/Gates.antt =====
-- The gates of the pairing flow (crates/syauth-cli/src/pair.rs): what has to hold before it changes a
-- file.
use syauth.Base.{
  ℕ, zero, suc, Bool, true, false, Bytes, Text, text, List, [], ◌∷◌, ◌++◌, Option, none, some,
  Result, ok, err, if◌then◌else◌, ◌≡◌, ◌≢◌, refl, ◌∙◌, subst,
}
use syauth.Core.Crypto.{Primitives}
use syauth.Core.Bond.{Bond, BondStore, BondError, already_bonded, Update, add}
use syauth.Cli.Oob.{Expand}
use syauth.Cli.Pair.{
  PairOpts, PairCandidate, LescOutcome, phase_bonded, PairError, pair_io, OobConfirmation, accept,
  reject, TextOps, build_bond_with_time,
}
use syauth.Cli.Pair.Flow.{
  PairBackend, PairIo, PairRun, M, after, ◌>>=◌, ◌>>◌, lift, put_line, writeln, write_words,
  load_answer, save_answer, write_answer, read_oob_confirmation, select_peer, negotiate, confirm,
  replace_existing, on_add, load_bonds, write_pam_bond_key, persist, conclude, run_pair_with_io,
  no_directory, no_file, torn, mode_refused, all_written, KeyWrite,
}

-- The bond file and the key files are what they were.
abbrev pub Untouched : PairRun → PairRun → Type 0
Untouched s t = (t.bonds ≡ s.bonds) × (t.keys ≡ s.keys)

abbrev pub Frames : {A : Type 0} → M A → Type 0
Frames m = (s : PairRun) → Untouched s (m s).1

pub Untouched-trans : (s t u : PairRun) → Untouched s t → Untouched t u → Untouched s u
Untouched-trans s t u p q = (q.0 ∙ p.0, q.1 ∙ p.1)

Frames-lift : {A : Type 0} (r : Result A PairError) → Frames (lift r)
Frames-lift r s = (refl, refl)

Frames-put_line : (line : Text) (n : ℕ) → Frames (put_line line n)
Frames-put_line line zero s = (refl, refl)
Frames-put_line line (suc n) s = (refl, refl)

pub Frames-writeln : (line : Text) → Frames (writeln line)
unfolding writeln
Frames-writeln line s = Frames-put_line line s.room s

Frames-after :
    {A B : Type 0} (s : PairRun) (f : A → M B) (r : Result A PairError × PairRun)
    → Untouched s r.1
    → ((a : A) → Frames (f a))
    → Untouched s (after f r).1
Frames-after s f (ok a, t) u h = Untouched-trans s t (f a t).1 u (h a t)
Frames-after s f (err e, t) u h = u

pub Frames-bind :
    {A B : Type 0} (m : M A) (f : A → M B) → Frames m → ((a : A) → Frames (f a)) → Frames (m >>= f)
Frames-bind m f h k s = Frames-after s f (m s) (h s) k

Frames-then : {A B : Type 0} (m : M A) (k : M B) → Frames m → Frames k → Frames (m >> k)
Frames-then m k h g = Frames-bind m (λ _. k) h (λ _. g)

Frames-write_words : (ws : List Text) → Frames (write_words ws)
unfolding write_words
Frames-write_words [] s = (refl, refl)
Frames-write_words (w ∷ ws) s =
    Frames-after s (λ _. write_words ws) (writeln (text "  " ++ w) s) (Frames-writeln _ s)
      (λ _. Frames-write_words ws)

Frames-if : {A : Type 0} (b : Bool) (m k : M A) → Frames m → Frames k → Frames (if b then m else k)
Frames-if true m k h g = h
Frames-if false m k h g = g

ruleset frames =
    (Frames-lift, Frames-writeln, Frames-bind, Frames-then, Frames-write_words, Frames-if)

-- An error other than one of I/O comes with both files as they were.
abbrev Clean : {A : Type 0} → PairRun → Result A PairError × PairRun → Type 0
Clean s (ok a, t) = Unit
Clean s (err e, t) = e ≢ pair_io → Untouched s t

Clean-from :
    {A : Type 0} (s t : PairRun) (r : Result A PairError × PairRun)
    → Untouched s t
    → Clean t r
    → Clean s r
Clean-from s t (ok a, v) u h = tt
Clean-from s t (err e, v) u h = λ n. Untouched-trans s t v u (h n)

Clean-after :
    {A B : Type 0} (s : PairRun) (f : A → M B) (r : Result A PairError × PairRun)
    → Untouched s r.1
    → ((a : A) (t : PairRun) → Clean t (f a t))
    → Clean s (after f r)
Clean-after s f (ok a, t) u h = Clean-from s t (f a t) u (h a t)
Clean-after s f (err e, t) u h = λ _. u

abbrev IsClean : {A : Type 0} → M A → Type 0
IsClean m = (s : PairRun) → Clean s (m s)

IsClean-bind :
    {A B : Type 0} (m : M A) (f : A → M B)
    → Frames m
    → ((a : A) → IsClean (f a))
    → IsClean (m >>= f)
IsClean-bind m f h k s = Clean-after s f (m s) (h s) k

abbrev FailsByIo : {A : Type 0} → Result A PairError × PairRun → Type 0
FailsByIo (ok a, t) = Unit
FailsByIo (err e, t) = e ≡ pair_io

FailsByIo-Clean :
    {A : Type 0} (s : PairRun) (r : Result A PairError × PairRun) → FailsByIo r → Clean s r
FailsByIo-Clean s (ok a, t) h = tt
FailsByIo-Clean s (err e, t) h = λ n. absurd (n h)

FailsByIo-put_line : (line : Text) (n : ℕ) (s : PairRun) → FailsByIo (put_line line n s)
FailsByIo-put_line line zero s = refl
FailsByIo-put_line line (suc n) s = tt

FailsByIo-after :
    {A B : Type 0} (f : A → M B) (r : Result A PairError × PairRun)
    → FailsByIo r
    → ((a : A) (t : PairRun) → FailsByIo (f a t))
    → FailsByIo (after f r)
FailsByIo-after f (ok a, t) h k = k a t
FailsByIo-after f (err e, t) h k = h

FailsByIo-writeln : (line : Text) (s : PairRun) → FailsByIo (writeln line s)
unfolding writeln
FailsByIo-writeln line s = FailsByIo-put_line line s.room s

FailsByIo-write :
    (w : KeyWrite) (id : Text) (key : Bytes) (s : PairRun) → FailsByIo (write_answer w id key s)
FailsByIo-write no_directory id key s = refl
FailsByIo-write no_file id key s = refl
FailsByIo-write (torn n) id key s = refl
FailsByIo-write mode_refused id key s = refl
FailsByIo-write all_written id key s = tt

Frames-load : (r : Result BondStore BondError) → Frames (load_answer r)
Frames-load (ok store) s = (refl, refl)
Frames-load (err e) s = (refl, refl)

-- nothing but I/O errors after a save
IsClean-save :
    {B : Type 0} (o : Option BondError) (store : BondStore) (k : M B)
    → ((v : PairRun) → FailsByIo (k v))
    → IsClean (save_answer o store >> k)
IsClean-save (some e) store k h s = λ _. (refl, refl)
IsClean-save none store k h s =
    let t : PairRun = record s { bonds = ok store } in FailsByIo-Clean s (k t) (h t)

module _ (p : Primitives) (ops : TextOps) (hkdf : Expand) (backend : PairBackend) (io : PairIo)
    (opts : PairOpts) where
  Frames-read :
      (code : List Text) (auto : Bool)
      → Frames (read_oob_confirmation p ops hkdf backend io opts code auto)
  unfolding read_oob_confirmation
  Frames-read code auto = search (frames) depth 16

  pub Frames-select : Frames (select_peer p ops hkdf backend io opts)
  unfolding select_peer
  Frames-select = search (frames) depth 24

  pub Frames-negotiate : (c : PairCandidate) → Frames (negotiate p ops hkdf backend io opts c)
  unfolding negotiate
  Frames-negotiate c = search (frames) depth 16

  pub Frames-confirm : (o : LescOutcome) → Frames (confirm p ops hkdf backend io opts o)
  unfolding confirm
  Frames-confirm o = search (frames, Frames-read) depth 16

  pub Frames-on_add : (bond : Bond) (u : Update) → Frames (on_add p ops hkdf backend io opts bond u)
  unfolding on_add replace_existing
  Frames-on_add bond (ok _, store) = search frames
  Frames-on_add bond (err (already_bonded existing), store) = search frames depth 16
  Frames-on_add bond (err _, store) = search frames

  FailsByIo-finish :
      (line id : Text) (key : Bytes)
      → (s : PairRun)
      → FailsByIo (
          (write_pam_bond_key p ops hkdf backend io opts id key
              >> (writeln line >> lift (ok phase_bonded)))
            s)
  FailsByIo-finish line id key s =
      FailsByIo-after _ (write_answer io.write_key id key s) (FailsByIo-write io.write_key id key s)
        (λ _ t.
          FailsByIo-after (λ _. lift (ok phase_bonded)) (writeln line t) (FailsByIo-writeln line t)
            (λ _ _. tt))

  pub Frames-load_bonds : Frames (load_bonds p ops hkdf backend io opts)
  Frames-load_bonds s = Frames-load s.bonds s

  IsClean-persist :
      (c : PairCandidate) (o : LescOutcome) → IsClean (persist p ops hkdf backend io opts c o)
  unfolding persist
  IsClean-persist c o =
      IsClean-bind (load_bonds p ops hkdf backend io opts) _ Frames-load_bonds (λ loaded.
        IsClean-bind (on_add p ops hkdf backend io opts bond (add loaded bond)) _
          (Frames-on_add bond (add loaded bond))
          (λ store.
            IsClean-save io.save_error store _ (FailsByIo-finish _ bond.peer_id o.bond_key)))
    where
      bond : Bond
      bond = build_bond_with_time p o c io.now_utc

  IsClean-conclude :
      (c : PairCandidate) (o : LescOutcome) (a : OobConfirmation)
      → IsClean (conclude p ops hkdf backend io opts c o a)
  unfolding conclude
  IsClean-conclude c o reject s = λ _. (refl, refl)
  IsClean-conclude c o accept s = IsClean-persist c o s

  IsClean-run : IsClean (run_pair_with_io p ops hkdf backend io opts)
  unfolding run_pair_with_io
  IsClean-run = IsClean-bind (select_peer p ops hkdf backend io opts) _ Frames-select (λ c.
      IsClean-bind (negotiate p ops hkdf backend io opts c) _ (Frames-negotiate c) (λ o.
        IsClean-bind (confirm p ops hkdf backend io opts o) _ (Frames-confirm o)
          (λ a. IsClean-conclude c o a)))

  -- A run that ends in an error other than one of I/O leaves the bond file and the key files as they
  -- were, whatever the adapter, the phone and the operator answer.
  pub run_pair_with_io-Untouched :
      (s t : PairRun) (e : PairError)
      → run_pair_with_io p ops hkdf backend io opts s ≡ (err e, t)
      → e ≢ pair_io
      → Untouched s t
  run_pair_with_io-Untouched s t e q = subst (Clean s) q (IsClean-run s)
