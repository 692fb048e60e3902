-- ===== src/Transport/Reassembly.antt =====
-- `reassemble`, `scan_window_for` and `run_suspend_resume_loop` of crates/syauth-transport/src/bluez.rs.
pub mod Fragments
use syauth.Base.{
  ℕ, suc, ◌+◌, ◌-◌, ◌/◌, ◌%◌, Bool, true, false, not, ◌&&◌, Bytes, List, [], ◌∷◌, ◌++◌, Result, ok,
  err, ltb, ◌==◌, length, drop, get_or, if◌then◌else◌,
}
use Prim.Native.Nat.{min, max}

abbrev pub fragment_header_len : ℕ
fragment_header_len = 1

-- the bit `0x80` of a byte
abbrev pub has_more_bit : ℕ → Bool
has_more_bit header = not (header / 128 % 2 == 0)

-- `TransportError::IncompleteReassembly` is the one error here.
pub data ReassemblyError : Type 0 where
  incomplete_reassembly : ReassemblyError

-- the loop over `segments.iter().enumerate()`; `seg[0]` is in bounds after the first guard
unfoldable pub join_segments : ℕ → ℕ → List Bytes → Bytes → Result Bytes ReassemblyError
join_segments last_idx idx [] out = ok out
join_segments last_idx idx (seg ∷ segs) out =
    let rest = join_segments last_idx (suc idx) segs (out ++ drop fragment_header_len seg) in
    if ltb (length seg) fragment_header_len
    then err incomplete_reassembly
    else if (idx == last_idx) && has_more_bit (get_or seg 0 0)
    then err incomplete_reassembly
    else if not (idx == last_idx) && not (has_more_bit (get_or seg 0 0))
    then err incomplete_reassembly
    else rest

unfoldable pub reassemble : List Bytes → Result Bytes ReassemblyError
unfolding join_segments
reassemble segments =
    if length segments == 0
    then err incomplete_reassembly
    else join_segments (length segments - 1) 0 segments []

-- in milliseconds
abbrev pub default_scan_window : ℕ
default_scan_window = 8000

abbrev pub min_scan_window : ℕ
min_scan_window = 1000

abbrev pub scan_window_for : ℕ → ℕ
scan_window_for total = min (max (total / 2) min_scan_window) default_scan_window

-- the restarts that `run_suspend_resume_loop` records over the events of its channel
unfoldable pub suspend_resume_from : Bool → List Bool → ℕ → ℕ
suspend_resume_from last_was_true [] restart_count = restart_count
suspend_resume_from last_was_true (event ∷ events) restart_count =
    suspend_resume_from event events
      (if last_was_true && not event then restart_count + 1 else restart_count)

unfoldable pub run_suspend_resume_loop : List Bool → ℕ → ℕ
unfolding suspend_resume_from
run_suspend_resume_loop events restart_count = suspend_resume_from false events restart_count
