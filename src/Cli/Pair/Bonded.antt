-- ===== src/Cli/Pair/Bonded.antt =====
-- What a completed pairing rests on, and what it leaves on disk (crates/syauth-cli/src/pair.rs).
use syauth.Base.{
  false, ◌≢◌, Bool, true, ◌||◌, Text, text, ◌++◌, List, [], ◌∷◌, Option, none, some, is_some,
  Result, ok, err, ◌≡◌, ◌≢◌, ◌⊎◌, refl, sym, ap, ◌∙◌, subst, arith, inl, inr,
}
use syauth.Core.Crypto.{Primitives}
use syauth.Core.Bond.{Bond, BondStore, already_bonded, Update, add, remove}
use syauth.Core.Bond.View.{view}
use syauth.Cli.Oob.{Expand}
use syauth.Cli.Pair.{
  PairOpts, PairCandidate, LescOutcome, AdapterInfo, from_opts, PairingPhase, PairError,
  OobConfirmation, accept, reject, TextOps, parse_yes_no, filter_candidates, pick_unambiguous,
  build_bond_with_time,
}
use syauth.Cli.Pair.Flow.{
  after, PairBackend, PairIo, PairRun, M, ◌>>=◌, ◌>>◌, lift, writeln, write_words, within_deadline,
  of_update, read_answer, select_peer, negotiate, confirm, read_oob_confirmation, check_adapter,
  found, on_add, replace_existing, persist, conclude, run_pair_with_io,
}
use syauth.Cli.Pair.Ensures.{
  Post, Ensures, ensures_bind, ensures_seq, ensures_then, ensures_lift, ensures_ok, ensures_err,
  ensures_if, ensures_weaken,
}
use syauth.Cli.Pair.Picked.{name_fits, IsOnlyFit, pick_unambiguous-IsOnlyFit}
use syauth.Cli.Pair.Stored.{Stored, save_Stored, view-of_update}
use syauth.Cli.Pair.Gates.{Untouched, Frames-bind, Frames-select, Frames-negotiate, Frames-confirm}

line_read : (o : Option Text) (l : Text) → read_answer o ≡ ok l → o ≡ some l
line_read none l h = cc
line_read (some m) l h = cc

module _ (p : Primitives) (ops : TextOps) (hkdf : Expand) (backend : PairBackend) (io : PairIo)
    (opts : PairOpts) where
  abbrev unattended : Bool
  unattended = opts.yes_flag || is_some opts.scripted_oob

  -- The operator waived the prompt, or answered it with yes.
  abbrev pub Confirmed : Type 0
  Confirmed =
      (unattended ≡ true)
      ⊎ ((line : Text) × (io.line ≡ some line) × (parse_yes_no ops line ≡ accept))

  pub record Selected (chosen : PairCandidate) : Type 0 where
    pub info : AdapterInfo
    pub candidates : List PairCandidate
    pub known : backend.adapter_info opts.adapter ≡ ok info
    pub lesc : info.supports_lesc ≡ true
    pub scanned : backend.scan_peers (from_opts opts) ≡ ok candidates
    pub picked : IsOnlyFit (name_fits ops opts.peer) candidates chosen

  adapter_passes :
      (info : AdapterInfo) (u : Unit {0})
      → check_adapter p ops hkdf backend io opts info ≡ ok u
      → info.supports_lesc ≡ true
  unfolding check_adapter
  adapter_passes info u h = ground arith

  found_same : (cs ds : List PairCandidate) → found p ops hkdf backend io opts cs ≡ ok ds → cs ≡ ds
  unfolding found
  found_same [] ds h = cc
  found_same (c ∷ cs) ds h = cc

  select_Selected : Ensures (select_peer p ops hkdf backend io opts) (λ c _. Selected c)
  unfolding select_peer
  select_Selected = ensures_lift _ _ _ (λ info known. ensures_then _ _ _ (
      ensures_lift _ _ _ (λ u passes. ensures_lift _ _ _ (λ cs scanned.
        ensures_lift _ _ _ (λ ds same. ensures_lift _ _ _ (λ c picked. ensures_then _ _ _ (
          ensures_ok _ c (λ _. record {
            info = info;
            candidates = cs;
            known = known;
            lesc = adapter_passes info u passes;
            scanned = scanned;
            picked =
                pick_unambiguous-IsOnlyFit ops cs opts.peer opts.yes_flag c
                  (subst (picks c) (sym (found_same cs ds same)) picked);
          }))))))))
    where
      picks : PairCandidate → List PairCandidate → Type 0
      picks c cs = pick_unambiguous (filter_candidates ops cs opts.peer) opts.yes_flag ≡ ok c

  abbrev Negotiated : PairCandidate → LescOutcome → Type 0
  Negotiated c o =
      within_deadline (backend.initiate_lesc_with_peer (from_opts opts) c opts.timeout_secs) ≡ ok o

  negotiate-Negotiated :
      (c : PairCandidate) → Ensures (negotiate p ops hkdf backend io opts c) (λ o _. Negotiated c o)
  unfolding negotiate
  negotiate-Negotiated c =
      ensures_then _ _ _
        (ensures_lift _ _ _ (λ o done. ensures_then _ _ _ (ensures_ok _ o (λ _. done))))

  read_Confirmed :
      (code : List Text)
      → Ensures
          (read_oob_confirmation p ops hkdf backend io opts code unattended)
          (λ a _. a ≡ accept → Confirmed)
  unfolding read_oob_confirmation
  read_Confirmed code =
      ensures_then _ (writeln (text "app-level OOB code (must match the phone):")) _ (
        ensures_then _ (write_words code) _ (
          ensures_then _ (writeln (text "OOB matches your phone? [y/N]: ")) _ (
            ensures_if _ unattended (writeln (text "y (--yes)") >> lift (ok accept))
              (lift (read_answer io.line) >>= answered)
              (λ waived.
                ensures_then _ (writeln (text "y (--yes)")) _
                  (ensures_ok _ accept (λ _ _. inl waived)))
              (λ _. ensures_lift _ (read_answer io.line) answered (λ l given.
                ensures_ok _ (parse_yes_no ops l)
                  (λ _ e. inr (l, line_read io.line l given, e)))))))
    where
      answered : Text → M OobConfirmation
      answered line = lift (ok (parse_yes_no ops line))

  confirm_Confirmed :
      (o : LescOutcome)
      → Ensures (confirm p ops hkdf backend io opts o) (λ a _. a ≡ accept → Confirmed)
  unfolding confirm
  confirm_Confirmed o = ensures_then _ _ _ (read_Confirmed _)

  abbrev bond_of : PairCandidate → LescOutcome → Bond
  bond_of c o = build_bond_with_time p o c io.now_utc

  replaced_view :
      (bond : Bond) (store : BondStore) (existing : Text)
      → Ensures
          (replace_existing p ops hkdf backend io opts store bond existing)
          (λ t _. view t bond.peer_id ≡ some bond)
  unfolding replace_existing
  replaced_view bond store existing =
      ensures_lift _ (of_update (remove store existing)) _ (λ without _.
        ensures_lift _ (of_update (add without bond)) told (λ t added.
          ensures_then _ (writeln line) _
            (ensures_ok _ t (λ _. view-of_update without t bond added))))
    where
      line : Text
      line = text "replaced existing bond peer_id=" ++ existing

      told : BondStore → M BondStore
      told replaced = writeln line >> lift (ok replaced)

  on_add-view :
      (bond : Bond) (u : Update) (s : BondStore)
      → u ≡ add s bond
      → Ensures
          (on_add p ops hkdf backend io opts bond u)
          (λ store _. view store bond.peer_id ≡ some bond)
  unfolding on_add
  on_add-view bond (ok _, store) s h =
      ensures_ok _ store (λ _. view-of_update s store bond (ap of_update (sym h)))
  on_add-view bond (err (already_bonded existing), store) s h =
      ensures_if _ opts.force _ _ (λ _. replaced_view bond store existing) (λ _. ensures_err _ _)
  on_add-view bond (err _, store) s h = ensures_err _ _

  persist_Stored :
      (c : PairCandidate) (o : LescOutcome)
      → Ensures (persist p ops hkdf backend io opts c o) (λ _ t. Stored (bond_of c o) o.bond_key t)
  unfolding persist
  persist_Stored c o = ensures_bind _ _ _ (λ loaded.
      ensures_seq _ _ _ _ (on_add-view (bond_of c o) (add loaded (bond_of c o)) loaded refl)
        (λ store _ v. save_Stored (bond_of c o) o.bond_key _ io.save_error io.write_key store v))

  -- What a completed run rests on: the adapter, the phone that was picked, the negotiation and the
  -- operator's answer, with what it leaves on disk.
  pub record Paired (t : PairRun) : Type 0 where
    pub chosen : PairCandidate
    pub outcome : LescOutcome
    pub selected : Selected chosen
    pub negotiated : Negotiated chosen outcome
    pub confirmed : Confirmed
    pub stored : Stored (bond_of chosen outcome) outcome.bond_key t

  conclude-Paired :
      (c : PairCandidate) (o : LescOutcome) (a : OobConfirmation)
      → Selected c
      → Negotiated c o
      → (a ≡ accept → Confirmed)
      → Ensures (conclude p ops hkdf backend io opts c o a) (λ _ t. Paired t)
  unfolding conclude
  conclude-Paired c o reject g n h = ensures_err _ _
  conclude-Paired c o accept g n h =
      ensures_weaken _ (λ _ t. Paired t) _ (persist_Stored c o)
        (λ _ t stored. record {
          chosen = c;
          outcome = o;
          selected = g;
          negotiated = n;
          confirmed = h refl;
          stored = stored;
        })

  run_Paired : Ensures (run_pair_with_io p ops hkdf backend io opts) (λ _ t. Paired t)
  unfolding run_pair_with_io
  run_Paired = ensures_seq _ _ _ _ select_Selected (λ c _ g.
      ensures_seq _ _ _ _ (negotiate-Negotiated c)
        (λ o _ n. ensures_seq _ _ _ _ (confirm_Confirmed o) (λ a _ h. conclude-Paired c o a g n h)))

  -- The operator neither waived the prompt nor answered with yes.
  abbrev pub Declined : Type 0
  Declined =
      (unattended ≡ false) × ((line : Text) → io.line ≡ some line → parse_yes_no ops line ≡ reject)

  declined_Confirmed : Declined → Confirmed → ⊥
  declined_Confirmed d (inl waived) = absurd (apart (sym d.0 ∙ waived))
    where
      apart : ◌≢◌ {A = Bool} false true
      apart q = cc
  declined_Confirmed d (inr (line, given, answer)) = never (sym (d.1 line given) ∙ answer)
    where
      never : reject ≢ accept
      never q = cc

  frames_declined :
      Declined
      → (c : PairCandidate) (o : LescOutcome) (s : PairRun)
        (r : Result OobConfirmation PairError × PairRun)
      → Untouched s r.1
      → Post (λ a _. a ≡ accept → Confirmed) r
      → Untouched s (after (conclude p ops hkdf backend io opts c o) r).1
  unfolding conclude Post
  frames_declined d c o s (err e, t) u h = u
  frames_declined d c o s (ok reject, t) u h = u
  frames_declined d c o s (ok accept, t) u h = absurd (declined_Confirmed d (h refl))

  -- A run whose prompt is neither waived nor answered with yes leaves the bond file and the key files
  -- as they were, and never completes.
  pub run_pair_with_io-Declined :
      (s : PairRun)
      → Declined
      → Untouched s (run_pair_with_io p ops hkdf backend io opts s).1
        × ((phase : PairingPhase) → (run_pair_with_io p ops hkdf backend io opts s).0 ≢ ok phase)
  unfolding run_pair_with_io Ensures Post
  run_pair_with_io-Declined s d = (
    Frames-bind (select_peer p ops hkdf backend io opts) _
        (Frames-select p ops hkdf backend io opts)
        (λ c.
          Frames-bind (negotiate p ops hkdf backend io opts c) _
            (Frames-negotiate p ops hkdf backend io opts c)
            (λ o t.
              frames_declined d c o t (confirm p ops hkdf backend io opts o t)
                (Frames-confirm p ops hkdf backend io opts o t) (confirm_Confirmed o t)))
        s,
    λ phase h.
        declined_Confirmed d
          (completed (run_pair_with_io p ops hkdf backend io opts s) phase (run_Paired s) h),
  )
    where
      completed :
          (r : Result PairingPhase PairError × PairRun) (phase : PairingPhase)
          → Post (λ _ t. Paired t) r
          → r.0 ≡ ok phase
          → Confirmed
      completed (ok x, t) phase g h = g.confirmed
      completed (err e, t) phase g h = cc
