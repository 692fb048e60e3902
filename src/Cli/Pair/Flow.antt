-- ===== src/Cli/Pair/Flow.antt =====
-- `read_oob_confirmation`, `write_pam_bond_key` and `run_pair_with_io` of
-- crates/syauth-cli/src/pair.rs, in its four phases. The state is the bond file, the key files and
-- the terminal.
use syauth.Base.{
  ℕ, zero, suc, ◌-◌, ◌==◌, Bool, ◌||◌, Bytes, Text, text, Dict, insert, List, [], ◌∷◌, ◌++◌, Option,
  none, some, is_some, Result, ok, err, take, length, replicate, if◌then◌else◌,
}
use syauth.Core.Crypto.{Primitives}
use syauth.Core.Bond.{Bond, BondStore, BondError, already_bonded, Update, add, remove}
use syauth.Presence.Audit.{decimal}
use syauth.Cli.Oob.{Expand, oob_code_for_bond}
use syauth.Cli.Pair.{
  PairOpts, PairCandidate, LescOutcome, AdapterInfo, ConfirmSource, from_opts, timeout,
  operator_reject, PairingPhase, phase_bonded, PairError, lesc_unsupported, no_peers, pair_revoked,
  bond_error, peer_already_bonded, pair_io, lesc_unsupported_hint, numeric_code_not_observed,
  OobConfirmation, accept, reject, TextOps, parse_yes_no, filter_candidates, pick_unambiguous,
  build_bond_with_time,
}

-- What the radio answers. The agent has the surface that `install_os_confirm` gave it by the time of
-- the scan and of the negotiation; `none` is a negotiation that outlasts the deadline.
pub record PairBackend : Type 0 where
  pub adapter_info : Text → Result AdapterInfo PairError
  pub scan_peers : ConfirmSource → Result (List PairCandidate) PairError
  pub initiate_lesc_with_peer :
      ConfirmSource → PairCandidate → ℕ → Option (Result LescOutcome PairError)

-- What the calls of `write_pam_bond_key` do: where it stops, with what a torn write leaves.
pub data KeyWrite : Type 0 where
  no_directory no_file : KeyWrite
  torn : ℕ → KeyWrite
  mode_refused all_written : KeyWrite

pub record PairIo : Type 0 where
  -- `reader.read_line`; `none` is its error
  pub line : Option Text
  -- `store.save`; `none` is success, and a failed save leaves the file as it was
  pub save_error : Option BondError
  pub write_key : KeyWrite
  pub now_utc : ℕ

pub record PairRun : Type 0 where
  -- what `BondStore::load` answers
  pub bonds : Result BondStore BondError
  pub keys : Dict Bytes
  pub terminal : List Text
  -- how many writes to the terminal still succeed
  pub room : ℕ

abbrev pub M {ℓ} : Type ℓ → Type ℓ
M A = PairRun → Result A PairError × PairRun

abbrev pub after {ℓ κ} :
    {A : Type ℓ} {B : Type κ}
    → (A → M B)
    → Result A PairError × PairRun
    → Result B PairError × PairRun
after f (ok a, s) = f a s
after f (err e, s) = (err e, s)

infixl 5 ◌>>=◌ ◌>>◌
abbrev pub ◌>>=◌ {ℓ κ} : {A : Type ℓ} {B : Type κ} → M A → (A → M B) → M B
◌>>=◌ m f s = after f (m s)

abbrev pub ◌>>◌ {ℓ κ} : {A : Type ℓ} {B : Type κ} → M A → M B → M B
m >> k = m >>= (λ _. k)

abbrev pub lift {ℓ} : {A : Type ℓ} → Result A PairError → M A
lift r s = (r, s)

-- `writeln!(writer, …)?`
abbrev pub put_line : Text → ℕ → M (Unit {0})
put_line line zero s = (err pair_io, s)
put_line line (suc n) s = (ok tt, record s { terminal = s.terminal ++ line ∷ []; room = n })

unfoldable pub writeln : Text → M (Unit {0})
writeln line s = put_line line s.room s

unfoldable pub write_words : List Text → M (Unit {0})
write_words [] s = (ok tt, s)
write_words (w ∷ ws) s = after (λ _. write_words ws) (writeln (text "  " ++ w) s)

abbrev pub pad_six : Text → Text
pad_six digits = replicate (6 - length digits) b'0' ++ digits

abbrev pub within_deadline : Option (Result LescOutcome PairError) → Result LescOutcome PairError
within_deadline none = err (pair_revoked timeout)
within_deadline (some r) = r

abbrev pub read_answer : Option Text → Result Text PairError
read_answer none = err pair_io
read_answer (some line) = ok line

-- `store.add(…)?` and `store.remove(…)?`
abbrev pub of_update : Update → Result BondStore PairError
of_update (ok _, store) = ok store
of_update (err e, store) = err (bond_error e)

abbrev pub load_answer : Result BondStore BondError → M BondStore
load_answer (err e) s = (err (bond_error e), s)
load_answer (ok store) s = (ok store, s)

abbrev pub save_answer : Option BondError → BondStore → M (Unit {0})
save_answer (some e) store s = (err (bond_error e), s)
save_answer none store s = (ok tt, record s { bonds = ok store })

abbrev pub write_answer : KeyWrite → Text → Bytes → M (Unit {0})
write_answer no_directory peer_id key s = (err pair_io, s)
write_answer no_file peer_id key s = (err pair_io, s)
write_answer (torn n) peer_id key s =
    (err pair_io, record s { keys = insert peer_id (take n key) s.keys })
write_answer mode_refused peer_id key s =
    (err pair_io, record s { keys = insert peer_id key s.keys })
write_answer all_written peer_id key s = (ok tt, record s { keys = insert peer_id key s.keys })

module _ (p : Primitives) (ops : TextOps) (hkdf : Expand) (backend : PairBackend) (io : PairIo)
    (opts : PairOpts) where
  abbrev pub read_line : M Text
  read_line = lift (read_answer io.line)

  unfoldable pub read_oob_confirmation : List Text → Bool → M OobConfirmation
  read_oob_confirmation code auto_accept = do
    writeln (text "app-level OOB code (must match the phone):")
    write_words code
    writeln (text "OOB matches your phone? [y/N]: ")
    if auto_accept
        then (do writeln (text "y (--yes)"); lift (ok accept))
        else (do line ← read_line; lift (ok (parse_yes_no ops line)))

  unfoldable pub check_adapter : AdapterInfo → Result (Unit {0}) PairError
  check_adapter info =
      if info.supports_lesc then ok tt else err (lesc_unsupported info.name lesc_unsupported_hint)

  unfoldable pub found : List PairCandidate → Result (List PairCandidate) PairError
  found [] = err no_peers
  found candidates = ok candidates

  unfoldable pub select_peer : M PairCandidate
  select_peer = do
    info ← lift (backend.adapter_info opts.adapter)
    writeln (
        text "adapter "
        ++ (info.name
            ++ (text " ready (LE Secure Connections: "
                ++ ((if info.supports_lesc then text "yes" else text "no") ++ text ")"))))
    lift (check_adapter info)
    candidates ← lift (backend.scan_peers (from_opts opts))
    candidates ← lift (found candidates)
    chosen ← lift (pick_unambiguous (filter_candidates ops candidates opts.peer) opts.yes_flag)
    writeln (text "selected " ++ (chosen.name ++ (text " (" ++ (chosen.address ++ text ")"))))
    lift (ok chosen)

  unfoldable pub negotiate : PairCandidate → M LescOutcome
  negotiate chosen = do
    writeln (text "initiating LE Secure Connections...")
    outcome ← lift (
        within_deadline (backend.initiate_lesc_with_peer (from_opts opts) chosen opts.timeout_secs))
    writeln (
        if outcome.numeric_code == numeric_code_not_observed
        then text "BT numeric comparison confirmed (code not reported by the agent)"
        else text "BT numeric code: "
          ++ (pad_six (decimal outcome.numeric_code) ++ text "   confirm on both devices"))
    lift (ok outcome)

  abbrev pub scripted_warning : Text
  scripted_warning =
      text
        "warning: scripted-oob in effect; interactive OOB confirmation bypassed (S-019 e2e harness)"

  unfoldable pub confirm : LescOutcome → M OobConfirmation
  confirm outcome = do
    if is_some opts.scripted_oob then writeln scripted_warning else lift (ok tt)
    read_oob_confirmation (oob_code_for_bond hkdf outcome.bond_key)
        (opts.yes_flag || is_some opts.scripted_oob)

  unfoldable pub replace_existing : BondStore → Bond → Text → M BondStore
  replace_existing store bond existing = do
    without ← lift (of_update (remove store existing))
    replaced ← lift (of_update (add without bond))
    writeln (text "replaced existing bond peer_id=" ++ existing)
    lift (ok replaced)

  -- the `match` on `store.add(bond.clone())`
  unfoldable pub on_add : Bond → Update → M BondStore
  unfolding replace_existing
  on_add bond (ok _, store) = lift (ok store)
  on_add bond (err (already_bonded existing), store) =
      if opts.force
      then replace_existing store bond existing
      else lift (err (peer_already_bonded existing))
  on_add bond (err e, store) = lift (err (bond_error e))

  abbrev pub load_bonds : M BondStore
  load_bonds s = load_answer s.bonds s

  abbrev pub save_bonds : BondStore → M (Unit {0})
  save_bonds = save_answer io.save_error

  abbrev pub write_pam_bond_key : Text → Bytes → M (Unit {0})
  write_pam_bond_key = write_answer io.write_key

  -- the last phase
  unfoldable pub persist : PairCandidate → LescOutcome → M PairingPhase
  unfolding on_add build_bond_with_time
  persist chosen outcome = do
    let bond = build_bond_with_time p outcome chosen io.now_utc
    loaded ← load_bonds
    store ← on_add bond (add loaded bond)
    save_bonds store
    write_pam_bond_key bond.peer_id outcome.bond_key
    writeln (
        text "bonded "
        ++ (chosen.name ++ (text " id=" ++ (bond.peer_id ++ text "; run `syauth list` to verify"))))
    lift (ok phase_bonded)

  unfoldable pub conclude : PairCandidate → LescOutcome → OobConfirmation → M PairingPhase
  unfolding persist
  conclude chosen outcome reject = lift (err (pair_revoked operator_reject))
  conclude chosen outcome accept = persist chosen outcome

  unfoldable pub run_pair_with_io : M PairingPhase
  unfolding select_peer negotiate confirm conclude
  run_pair_with_io = do
    chosen ← select_peer
    outcome ← negotiate chosen
    answer ← confirm outcome
    conclude chosen outcome answer
