-- ===== src/Tests/CliTests.antt =====
-- The pairing flow and its words (crates/syauth-cli) at concrete inputs.
use syauth.Base.{
  bytes_eq, true, false, Text, text, [], ◌∷◌, Option, none, some, ok, err, ◌≡◌, ◌≢◌, refl, subst,
}
use syauth.Core.Bond.{empty, add, find_index, peer_id_from_pubkey}
use syauth.Cli.Oob.{Expand, oob_indices, oob_code_for_bond}
use syauth.Cli.Pair.{
  PairOpts, PairCandidate, PairError, lesc_unsupported, lesc_unsupported_hint, PairingPhase,
  TextOps, parse_yes_no, reject, filter_candidates, pick_unambiguous, build_bond_with_time,
}
use syauth.Cli.Pair.Flow.{
  PairBackend, PairIo, PairRun, all_written, writeln, write_words, read_oob_confirmation,
  check_adapter, found, on_add, run_pair_with_io,
}
use syauth.Cli.Pair.Gates.{Untouched, run_pair_with_io-Untouched}
use syauth.Cli.Pair.Bonded.{Declined, run_pair_with_io-Declined}
use syauth.Tests.CoreTests.{toy}

abbrev expand : Expand
expand = λ key info. some (1 ∷ 2 ∷ 3 ∷ 4 ∷ [])

abbrev ops : TextOps
ops = record { trimmed_lowercase = λ t. t; contains = λ a b. true }

abbrev pixel : PairCandidate
pixel = record { name = text "pixel"; address = text "00:11" }

abbrev radio : PairBackend
radio = record {
  adapter_info = λ name. ok (record { name = name; supports_lesc = true });
  scan_peers = λ source. ok (pixel ∷ []);
  initiate_lesc_with_peer = λ source peer secs.
      some (ok (record { peer_pubkey = 9 ∷ []; bond_key = 5 ∷ []; numeric_code = 0 }));
}

abbrev old_radio : PairBackend
old_radio = record radio {
  adapter_info = λ name. ok (record { name = name; supports_lesc = false });
}

abbrev typed : Text → PairIo
typed answer = record {
  line = some answer;
  save_error = none;
  write_key = all_written;
  now_utc = 100;
}

abbrev opts : PairOpts
opts = record {
  adapter = text "hci0";
  peer = none;
  timeout_secs = 60;
  yes_flag = false;
  waybar = false;
  force = false;
  scripted_oob = none;
}

abbrev start : PairRun
start = record { bonds = ok empty; keys = []; terminal = []; room = 100 }

no_answer : Declined toy ops expand radio (typed (text "n")) opts
unfolding parse_yes_no bytes_eq
no_answer = (refl, λ line e. subst (λ (l : Text). parse_yes_no ops l ≡ reject) (same line e) refl)
  where
    same : (line : Text) → ◌≡◌ {A = Option Text} (some (text "n")) (some line) → text "n" ≡ line
    same line q = cc

run_pair_with_io-Declined_example :
    Untouched start (run_pair_with_io toy ops expand radio (typed (text "n")) opts start).1
    × ((phase : PairingPhase)
        → (run_pair_with_io toy ops expand radio (typed (text "n")) opts start).0 ≢ ok phase)
run_pair_with_io-Declined_example =
    run_pair_with_io-Declined toy ops expand radio (typed (text "n")) opts start no_answer

abbrev refused : PairError
refused = lesc_unsupported (text "hci0") lesc_unsupported_hint

refuses :
    run_pair_with_io toy ops expand old_radio (typed (text "y")) opts start
    ≡ (err refused, (run_pair_with_io toy ops expand old_radio (typed (text "y")) opts start).1)
unfolding run_pair_with_io writeln write_words read_oob_confirmation check_adapter found
    filter_candidates pick_unambiguous parse_yes_no bytes_eq oob_code_for_bond oob_indices on_add
    build_bond_with_time peer_id_from_pubkey add find_index
refuses = refl

run_pair_with_io-Untouched_example :
    Untouched start (run_pair_with_io toy ops expand old_radio (typed (text "y")) opts start).1
run_pair_with_io-Untouched_example =
    run_pair_with_io-Untouched toy ops expand old_radio (typed (text "y")) opts start
      (run_pair_with_io toy ops expand old_radio (typed (text "y")) opts start).1 refused refuses
      (λ q. cc)
