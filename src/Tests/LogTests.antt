-- ===== src/Tests/LogTests.antt =====
-- The log of the last unlock (crates/syauth-cli/src/status.rs) at concrete inputs.
use syauth.Base.{
  ◌≤◌, true, Bool, length, Text, text, [], ◌++◌, replicate, ok, split_inclusive, ◌≡◌, refl, arith,
  inl, inr,
}
use syauth.Presence.Audit.{AuditRecord, format_record}
use syauth.Pam.Auth.{AuthOutcome, success, last_log_line}
use syauth.Cli.Status.{entry, unparseable, log_text, read_last_unlock}
use syauth.Cli.Status.LastUnlock.{read_last_unlock-capped}
use syauth.Cli.Status.Writers.{IsShort, told, read_last_unlock-last_log_line}
use syauth.Cli.Status.AuditLines.{IsPlain, read_last_unlock-format_record}

abbrev any_text : Text → Bool
any_text t = true

abbrev sixty_four : Text
sixty_four = replicate 64 b'\n'

sixty_four_lines : 64 ≤ length (split_inclusive sixty_four)
unfolding split_inclusive
sixty_four_lines = omega arith

read_last_unlock-capped_example :
    read_last_unlock any_text any_text (log_text (sixty_four ++ text "x y z\n"))
    ≡ read_last_unlock any_text any_text (log_text sixty_four)
read_last_unlock-capped_example =
    read_last_unlock-capped any_text any_text sixty_four (text "x y z\n")
      (inr (replicate 63 b'\n', refl)) sixty_four_lines

no_lines : IsShort any_text any_text []
unfolding split_inclusive
no_lines = record { ended = inl refl; short = omega arith; readable = refl }

abbrev granted : AuthOutcome
granted = success (text "ab")

read_last_unlock-last_log_line_example :
    read_last_unlock any_text any_text (log_text ([] ++ last_log_line (text "t") granted))
    ≡ ok (entry (told any_text any_text (text "t") granted))
read_last_unlock-last_log_line_example =
    read_last_unlock-last_log_line any_text any_text [] (text "t") granted no_lines refl
      ((λ q. cc), refl) refl ((λ q. cc), refl)

abbrev audited : AuditRecord
audited = record {
  peer_id = text "ab";
  nonce_hex = text "00";
  t_start_ms = 1;
  t_end_ms = 2;
  outcome = text "ok";
  reason = text "ok";
}

audited-IsPlain : IsPlain audited
audited-IsPlain = record { peer = ((λ q. cc), refl); nonce = refl; outcome = refl; reason = refl }

read_last_unlock-format_record_example :
    (line : Text) × (format_record audited ≡ line ++ text "\n")
    × (read_last_unlock any_text any_text (log_text ([] ++ format_record audited))
        ≡ ok (unparseable line))
read_last_unlock-format_record_example =
    read_last_unlock-format_record any_text any_text [] audited no_lines refl audited-IsPlain
