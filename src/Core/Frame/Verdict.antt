-- ===== src/Core/Frame/Verdict.antt =====
-- What `decode` of crates/syauth-core/src/frame.rs answers on each input.
use syauth.Base.{
  ℕ, ◌+◌, ◌≤◌, ◌<◌, Bytes, Result, ok, err, some, ◌++◌, ◌∷◌, [], length, ◌≡◌, ◌≢◌, refl, sym, ap,
  arith, Bool-cases, inl, inr, ltb, ◌∙◌, subst,
}
use mathlib.Core.List.{append_assoc}
use native.Mathlib.Decide.{dec_lt, ℕ_discrete}
use syauth.Core.Frame.{
  Frame, IsTyped, FrameError, too_short, bad_version, bad_length, encode, body_bytes, decode,
  max_payload_len, min_frame_len, syauth_wire_version_v1,
}
use syauth.Core.Frame.RoundTrip.{wire, decode-wire, frame_of, encode-wire}

-- The verdict on an input, in the order of the guards.
pub data Verdict (w : Bytes) : Type 0 where
  short :
      length w < min_frame_len
      → decode w ≡ some (err (too_short min_frame_len (length w)))
      → Verdict w
  alien :
      (b : ℕ) (rest : Bytes)
      → w ≡ b ∷ rest
      → min_frame_len ≤ length w
      → b ≢ syauth_wire_version_v1
      → decode w ≡ some (err (bad_version b))
      → Verdict w
  long :
      (rest : Bytes)
      → w ≡ syauth_wire_version_v1 ∷ rest
      → min_frame_len + max_payload_len < length w
      → decode w ≡ some (err bad_length)
      → Verdict w
  accepted :
      (f : Frame)
      → w ≡ wire f
      → IsTyped f
      → f.version ≡ syauth_wire_version_v1
      → length f.payload ≤ max_payload_len
      → decode w ≡ some (ok f)
      → Verdict w

decode-alien :
    (b : ℕ) (rest : Bytes)
    → 32 ≤ length rest
    → b ≢ 1
    → decode (b ∷ rest) ≡ some (err (bad_version b))
unfolding decode
decode-alien b rest lo ne = ground arith

decode-long :
    (b : ℕ) (rest : Bytes)
    → b ≡ 1
    → 32 + max_payload_len < length rest
    → decode (b ∷ rest) ≡ some (err bad_length)
unfolding decode
decode-long b rest e hi = ground arith

decode-short :
    (w : Bytes)
    → length w < min_frame_len
    → decode w ≡ some (err (too_short min_frame_len (length w)))
unfolding decode
decode-short w h = ground arith

judge_fields :
    (b : ℕ) (rest : Bytes)
    → b ≡ 1
    → 32 ≤ length rest
    → length rest ≤ 32 + max_payload_len
    → Verdict (b ∷ rest)
judge_fields b rest e lo hi =
    let (f, same, v, typed, fits) = frame_of b rest lo hi in
    accepted f (sym same) typed (v ∙ e) fits (rw (← same) (decode-wire f typed (v ∙ e) fits))

judge_sized : (b : ℕ) (rest : Bytes) → 32 ≤ length rest → Verdict (b ∷ rest)
judge_sized b rest lo = elim (ℕ_discrete b 1) [
  | yes e ↦ elim (dec_lt (32 + max_payload_len) (length rest)) [
    | yes hi ↦ long rest (ap (λ c. c ∷ rest) e) (omega arith) (decode-long b rest e hi)
    | no hi ↦ judge_fields b rest e lo (omega arith)
  ]
  | no ne ↦ alien b rest refl (omega arith) ne (decode-alien b rest lo ne)
]

-- Every input falls under one of the four verdicts, each with its condition on the input and the
-- answer that `decode` gives under it.
pub judge : (w : Bytes) → Verdict w
judge [] = short (omega arith) (decode-short [] (omega arith))
judge (b ∷ rest) = elim (dec_lt (length rest) 32) [
  | yes lo ↦ short (omega arith) (decode-short (b ∷ rest) (omega arith))
  | no lo ↦ judge_sized b rest (omega arith)
]

-- `decode` never panics: it returns a frame or an error on every input.
pub decode_total : (w : Bytes) → (r : Result Frame FrameError) × (decode w ≡ some r)
decode_total w = elim (judge w) [
  | short h e ↦ (err (too_short min_frame_len (length w)), e)
  | alien b rest p h ne e ↦ (err (bad_version b), e)
  | long rest p h e ↦ (err bad_length, e)
  | accepted f p t v h e ↦ (ok f, e)
]

accepted_frame :
    {w : Bytes} (f : Frame)
    → Verdict w
    → decode w ≡ some (ok f)
    → (w ≡ wire f)
      × IsTyped f
      × (f.version ≡ syauth_wire_version_v1)
      × (length f.payload ≤ max_payload_len)
accepted_frame f (short h e) d = cc
accepted_frame f (alien b rest p h ne e) d = cc
accepted_frame f (long rest p h e) d = cc
accepted_frame {w} f (accepted g p t v h e) d =
    let same : g ≡ f = cc in
    subst
      (λ k.
        (w ≡ wire k)
        × IsTyped k
        × (k.version ≡ syauth_wire_version_v1)
        × (length k.payload ≤ max_payload_len))
      same (p, t, v, h)

-- An accepted input is the encoding of the frame that `decode` returns, which is of the v1 version,
-- has fields of the declared widths and a payload within the limit.
pub encode-decode :
    (w : Bytes) (f : Frame) (buf : Bytes)
    → decode w ≡ some (ok f)
    → (encode f buf ≡ (ok tt, buf ++ w))
      × IsTyped f
      × (f.version ≡ syauth_wire_version_v1)
      × (length f.payload ≤ max_payload_len)
encode-decode w f buf h =
    let (same, typed, v, fits) = accepted_frame f (judge w) h in
    (rw same (encode-wire f buf fits), typed, v, fits)

abbrev pub with_tag : Result Bytes FrameError → Frame → Bytes → Result (Unit {0}) FrameError × Bytes
with_tag (ok body) f buf = (ok tt, buf ++ (body ++ f.tag))
with_tag (err e) f buf = (err e, buf)

-- `encode` and `body_bytes` fail on the same frames with the same error, on which the buffer is left
-- as it was; on the others `encode` appends exactly the body bytes and then the tag.
pub encode-body_bytes : (f : Frame) (buf : Bytes) → encode f buf ≡ with_tag (body_bytes f) f buf
unfolding encode body_bytes
encode-body_bytes f buf = elim (Bool-cases (ltb max_payload_len (length f.payload))) [
  | inl e ↦ rw e
  | inr e ↦ rw (e, ← append_assoc f.nonce f.payload f.tag)
]
