-- ===== src/Pam/Reasons.antt =====
-- The table of reasons of crates/syauth-pam/src/auth.rs.
use syauth.Base.{
  ℕ, Bool, true, false, not, ◌&&◌, Text, text, bytes_eq, bytes_eq_iff, eq_of-bytes_eq, List, [],
  ◌∷◌, drop, ◌==◌, ◌≡◌, ◌≢◌, ◌↔◌, refl, sym, ap, ◌∙◌, arith, Bool-cases, inl, inr,
}
use syauth.Presence.Challenge.{outcome_reason_ok}
use syauth.Pam.Auth.{pam_success, pam_auth_err, match_reason, reason_arms, outcome_reason_to_pam}

-- No arm of the list is a success.
abbrev none_succeeds : List (Text × (ℕ × Text)) → Bool
none_succeeds [] = true
none_succeeds (arm ∷ arms) = not (arm.1.0 == pam_success) && none_succeeds arms

match_reason-none_succeeds :
    (arms : List (Text × (ℕ × Text))) (other : ℕ × Text) (reason : Text)
    → none_succeeds arms ≡ true
    → other.0 ≢ pam_success
    → (match_reason arms other reason).0 ≢ pam_success
match_reason-none_succeeds [] other reason h ne q = ne q
match_reason-none_succeeds (arm ∷ arms) other reason h ne q =
    elim (Bool-cases (bytes_eq reason arm.0)) [
      | inl e ↦ ground (arith, rw e at q)
      | inr e ↦ match_reason-none_succeeds arms other reason (ground arith) ne (rw e at q)
    ]

match_reason-tail :
    (arm : Text × (ℕ × Text)) (arms : List (Text × (ℕ × Text))) (other : ℕ × Text) (reason : Text)
    → bytes_eq reason arm.0 ≡ false
    → match_reason (arm ∷ arms) other reason ≡ match_reason arms other reason
match_reason-tail arm arms other reason h = rw h refl

match_reason-head :
    (arm : Text × (ℕ × Text)) (arms : List (Text × (ℕ × Text))) (other : ℕ × Text) (reason : Text)
    → bytes_eq reason arm.0 ≡ true
    → match_reason (arm ∷ arms) other reason ≡ arm.1
match_reason-head arm arms other reason h = rw h refl

pub auth_err≢success : pam_auth_err ≢ pam_success
auth_err≢success q = omega arith

abbrev unknown_reason : ℕ × Text
unknown_reason = (pam_auth_err, text "unknown-reason")

-- The success code is for the reason `ok` alone: a reason that the table does not know fails closed.
pub outcome_reason_to_pam-success :
    (reason : Text)
    → ((outcome_reason_to_pam reason).0 ≡ pam_success) ↔ (reason ≡ outcome_reason_ok)
unfolding outcome_reason_to_pam
outcome_reason_to_pam-success reason = (only_ok, of_ok)
  where
    of_ok : reason ≡ outcome_reason_ok → (outcome_reason_to_pam reason).0 ≡ pam_success
    of_ok q =
        ap (λ (r : ℕ × Text). r.0)
          (match_reason-head (outcome_reason_ok, (pam_success, outcome_reason_ok))
            (drop 1 reason_arms) unknown_reason reason
            ((bytes_eq_iff reason outcome_reason_ok).1 q))

    only_ok : (outcome_reason_to_pam reason).0 ≡ pam_success → reason ≡ outcome_reason_ok
    only_ok q = elim (Bool-cases (bytes_eq reason outcome_reason_ok)) [
      | inl e ↦ eq_of-bytes_eq reason outcome_reason_ok e
      | inr e ↦ absurd (
          match_reason-none_succeeds (drop 1 reason_arms) unknown_reason reason refl
            auth_err≢success
            (ap (λ (r : ℕ × Text). r.0)
                (sym (
                  match_reason-tail (outcome_reason_ok, (pam_success, outcome_reason_ok))
                    (drop 1 reason_arms) unknown_reason reason e))
              ∙ q))
    ]
