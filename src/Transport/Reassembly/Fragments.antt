-- ===== src/Transport/Reassembly/Fragments.antt =====
-- Which fragments crates/syauth-transport/src/bluez.rs joins.
use syauth.Base.{
  ℕ, suc, ◌+◌, ◌-◌, Bool, true, false, not, ◌&&◌, Bytes, List, [], ◌∷◌, ◌++◌, Option, none, some,
  Result, ok, err, ltb, ◌==◌, length, if◌then◌else◌, ◌≡◌, refl, ap, ◌∙◌, arith, Bool-cases, inl,
  inr,
}
use mathlib.Core.Option
use mathlib.Core.List.{append_assoc}
use syauth.Transport.Reassembly.{
  ReassemblyError, incomplete_reassembly, fragment_header_len, has_more_bit, join_segments,
  reassemble,
}

-- The payload of a sequence of fragments: each has a header, the last one has the bit clear, and the
-- others have it set.
unfoldable pub payload_of : List Bytes → Option Bytes
payload_of [] = none
payload_of ([] ∷ segs) = none
payload_of ((header ∷ body) ∷ []) = if has_more_bit header then none else some body
payload_of ((header ∷ body) ∷ seg ∷ segs) =
    let rest = payload_of (seg ∷ segs) in
    if has_more_bit header then Option.map (◌++◌ body) rest else none

abbrev pub behind : Bytes → Option Bytes → Result Bytes ReassemblyError
behind out none = err incomplete_reassembly
behind out (some payload) = ok (out ++ payload)

behind-map :
    (out body : Bytes) (o : Option Bytes)
    → behind (out ++ body) o ≡ behind out (Option.map (◌++◌ body) o)
behind-map out body none = refl
behind-map out body (some rest) = ap ok (append_assoc out body rest)

long_enough : (k : ℕ) → ltb (suc k) fragment_header_len ≡ false
long_enough k = ground arith

-- one turn of the loop, on a segment with a header
turn :
    (last_idx idx header : ℕ) (body out : Bytes) (segs : List Bytes) (b m : Bool)
    → (idx == last_idx) ≡ b
    → has_more_bit header ≡ m
    → join_segments last_idx idx ((header ∷ body) ∷ segs) out ≡ (
        if b && m
        then err incomplete_reassembly
        else if not b && not m
        then err incomplete_reassembly
        else join_segments last_idx (suc idx) segs (out ++ body))
unfolding join_segments
turn last_idx idx header body out segs b m p q = rw (long_enough (length body), p, q) refl

no_header :
    (segs : List Bytes) (last_idx idx : ℕ) (out : Bytes)
    → join_segments last_idx idx ([] ∷ segs) out ≡ err incomplete_reassembly
unfolding join_segments
no_header segs last_idx idx out = refl

done : (last_idx idx : ℕ) (out : Bytes) → join_segments last_idx idx [] out ≡ ok out
unfolding join_segments
done last_idx idx out = refl

some_segments : (k : ℕ) → (suc k == 0) ≡ false
some_segments k = ground arith

joins :
    (segs : List Bytes) (seg out : Bytes) (idx last_idx : ℕ)
    → idx + length segs ≡ last_idx
    → join_segments last_idx idx (seg ∷ segs) out ≡ behind out (payload_of (seg ∷ segs))
unfolding payload_of
joins [] [] out idx last_idx e = no_header [] last_idx idx out
joins (s ∷ segs) [] out idx last_idx e = no_header (s ∷ segs) last_idx idx out
joins [] (header ∷ body) out idx last_idx e = elim (Bool-cases (has_more_bit header)) [
  | inl h ↦ turn last_idx idx header body out [] true true (ground arith) h ∙ rw h refl
  | inr h ↦
      turn last_idx idx header body out [] true false (ground arith) h
      ∙ done last_idx (suc idx) (out ++ body)
      ∙ rw h refl
]
joins (s ∷ segs) (header ∷ body) out idx last_idx e = elim (Bool-cases (has_more_bit header)) [
  | inl h ↦
      turn last_idx idx header body out (s ∷ segs) false true (ground arith) h
      ∙ joins segs s (out ++ body) (suc idx) last_idx (omega arith)
      ∙ behind-map out body (payload_of (s ∷ segs))
      ∙ rw h refl
  | inr h ↦ turn last_idx idx header body out (s ∷ segs) false false (ground arith) h ∙ rw h refl
]

-- `reassemble` gives the payload of a well-formed sequence of fragments, and the error for any other.
pub reassemble-payload_of : (segs : List Bytes) → reassemble segs ≡ behind [] (payload_of segs)
unfolding reassemble payload_of
reassemble-payload_of [] = refl
reassemble-payload_of (seg ∷ segs) =
    rw (some_segments (length segs)) (joins segs seg [] 0 (suc (length segs) - 1) (omega arith))
