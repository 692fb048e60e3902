-- ===== src/Cli/Pair/Stored.antt =====
-- What the last phase of crates/syauth-cli/src/pair.rs leaves in the bond file and the key file.
use syauth.Base.{
  Bytes, Text, get, insert, get-insert, bytes_eq_refl, Option, none, some, Result, ok, err, ◌≡◌,
  ◌≢◌, refl, sym, ap, ◌∙◌, Option-cases, inl, inr,
}
use syauth.Core.Bond.{Bond, BondStore, BondError, already_bonded, Update, add}
use syauth.Core.Bond.View.{view, view-add}
use syauth.Cli.Pair.{PairingPhase, phase_bonded, PairError, bond_error}
use syauth.Cli.Pair.Flow.{
  PairRun, ◌>>◌, lift, writeln, of_update, save_answer, write_answer, KeyWrite, no_directory,
  no_file, torn, mode_refused, all_written,
}
use syauth.Cli.Pair.Ensures.{Post, Ensures, Post-seq}
use syauth.Cli.Pair.Gates.{Untouched, Frames-writeln}

-- The store holds the bond under its id, and the key file of that id the key.
abbrev pub Stored : Bond → Bytes → PairRun → Type 0
Stored bond key t =
    (store : BondStore) × (t.bonds ≡ ok store)
    × (view store bond.peer_id ≡ some bond)
    × (get bond.peer_id t.keys ≡ some key)

module _ (bond : Bond) (key : Bytes) (line : Text) where
  writeln-Stored :
      (store : BondStore)
      → view store bond.peer_id ≡ some bond
      → (s : PairRun) → s.bonds ≡ ok store
      → get bond.peer_id s.keys ≡ some key
      → Post {A = PairingPhase}
          (λ _ t. Stored bond key t)
          ((writeln line >> lift (ok phase_bonded)) s)
  unfolding Post
  writeln-Stored store v s e g =
      Post-seq (λ _ t. Stored bond key t) _ _ (writeln line s)
        (kept (writeln line s) (Frames-writeln line s)) (λ _ t stored. stored)
    where
      kept :
          (r : Result (Unit {0}) PairError × PairRun)
          → Untouched s r.1
          → Post (λ _ t. Stored bond key t) r
      kept (ok a, t) u = (store, u.0 ∙ e, v, ap (get bond.peer_id) u.1 ∙ g)
      kept (err e, t) u = tt

  write_Stored :
      (w : KeyWrite) (store : BondStore)
      → view store bond.peer_id ≡ some bond
      → (s : PairRun) → s.bonds ≡ ok store
      → Post
          (λ _ t. Stored bond key t)
          ((write_answer w bond.peer_id key >> (writeln line >> lift (ok phase_bonded))) s)
  unfolding Post
  write_Stored no_directory store v s e = tt
  write_Stored no_file store v s e = tt
  write_Stored (torn n) store v s e = tt
  write_Stored mode_refused store v s e = tt
  write_Stored all_written store v s e =
      writeln-Stored store v (record s { keys = insert bond.peer_id key s.keys }) e
        (get-insert bond.peer_id bond.peer_id key s.keys ∙ rw (bytes_eq_refl bond.peer_id))

  pub save_Stored :
      (o : Option BondError) (w : KeyWrite) (store : BondStore)
      → view store bond.peer_id ≡ some bond
      → Ensures
          (save_answer o store
            >> (write_answer w bond.peer_id key >> (writeln line >> lift (ok phase_bonded))))
          (λ _ t. Stored bond key t)
  unfolding Post Ensures
  save_Stored (some e) w store v s = tt
  save_Stored none w store v s = write_Stored w store v (record s { bonds = ok store }) refl

store_of : (u : Update) (t : BondStore) → of_update u ≡ ok t → u.1 ≡ t
store_of (ok _, s) t h = cc
store_of (err e, s) t h = cc

pub view-of_update :
    (s t : BondStore) (b : Bond) → of_update (add s b) ≡ ok t → view t b.peer_id ≡ some b
view-of_update s t b h = elim (Option-cases (view s b.peer_id)) [
  | inl e ↦
      ap (λ (v : BondStore). view v b.peer_id) (sym (store_of (add s b) t h))
      ∙ (view-add s b b.peer_id).1
      ∙ rw (e, bytes_eq_refl b.peer_id)
  | inr (x, e) ↦ absurd (refused (sym h ∙ ap of_update (present x e)))
]
  where
    present : (x : Bond) → view s b.peer_id ≡ some x → add s b ≡ (err (already_bonded b.peer_id), s)
    present x e = (view-add s b b.peer_id).0 ∙ rw e

    refused :
        ◌≢◌ {A = Result BondStore PairError} (ok t) (err (bond_error (already_bonded b.peer_id)))
    refused q = cc
