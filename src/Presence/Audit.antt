-- ===== src/Presence/Audit.antt =====
-- crates/syauth-presenced/src/audit.rs: the append-only audit log. The file is its bytes; whether a
-- write or an fsync succeeds is an argument.
use syauth.Base.{
  ℕ, zero, suc, ◌+◌, ◌%◌, ◌^◌, Bool, true, false, Bytes, Text, text, [], ◌∷◌, ◌++◌, Option, none,
  some, ◌==◌, ◌/◌, ltb, if◌then◌else◌, take,
}

abbrev pub audit_fsync_every : ℕ
audit_fsync_every = 32

abbrev pub audit_field_separator : Text
audit_field_separator = text ","

pub record AuditRecord : Type 0 where
  pub peer_id : Text
  pub nonce_hex : Text
  pub t_start_ms : ℕ
  pub t_end_ms : ℕ
  pub outcome : Text
  pub reason : Text

pub record AuditLog : Type 0 where
  pub file : Bytes
  pub appended_since_fsync : ℕ

-- What the file system answers to one append: how many bytes a failing `write_all` has written, and
-- whether `sync_all` succeeds.
pub record FileAnswers : Type 0 where
  pub write_all : Option ℕ
  pub sync_all : Bool

-- The decimal digits of a number, as `format!` writes them, on `fuel` for their count.
abbrev pub digits : ℕ → ℕ → Text → Text
digits zero n rest = rest
digits (suc fuel) n rest =
    let more = digits fuel (n / 10) ((48 + n % 10) ∷ rest) in
    if ltb n 10 then (48 + n % 10) ∷ rest else more

-- A `u128` has at most 39 digits.
abbrev pub decimal : ℕ → Text
decimal n = digits 39 n []

unfoldable pub format_record : AuditRecord → Text
format_record r =
    r.peer_id
    ++ (audit_field_separator
        ++ (r.nonce_hex
            ++ (audit_field_separator
                ++ (decimal r.t_start_ms
                    ++ (audit_field_separator
                        ++ (decimal r.t_end_ms
                            ++ (audit_field_separator
                                ++ (r.outcome
                                    ++ (audit_field_separator ++ (r.reason ++ text "\n"))))))))))

-- `append`, and whether it returned `Ok`
unfoldable pub append : FileAnswers → AuditLog → AuditRecord → Bool × AuditLog
append io log r = elim io.write_all [
  | some written ↦ (false, record log { file = log.file ++ take written (format_record r) })
  | none ↦
      let count = (log.appended_since_fsync + 1) % 2 ^ 64 in
      let log' : AuditLog = record {
        file = log.file ++ format_record r;
        appended_since_fsync = count;
      } in
      if count % audit_fsync_every == 0 then (io.sync_all, log') else (true, log')
]
