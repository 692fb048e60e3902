-- ===== src/Presence/Rpc/RoundTrip.antt =====
-- The frames of crates/syauth-presenced/src/rpc.rs are read back.
use syauth.Base.{
  ℕ, ◌+◌, ◌≤◌, ◌<◌, Bytes, ◌++◌, some, Result, ok, err, ltb, ltb-false→le, le→leb, le→ltb-false,
  lt→ltb, length, length-append, take-append, drop-append, ◌≡◌, ◌≢◌, refl, sym, ap, ◌∙◌, arith,
  Bool-cases, Option-cases, inl, inr,
}
use mathlib.Core.List.{append_assoc}
use syauth.Presence.Rpc.{
  RpcError, too_large, Cbor, max_frame_len, length_prefix_bytes, to_be_bytes, from_be_bytes,
  read_exact, encode_frame, decode_frame, read_announced, read_prefixed, read_frame,
}

from-to_be_bytes : (n : ℕ) → n < 4294967296 → from_be_bytes (to_be_bytes n) ≡ n
from-to_be_bytes n h = omega arith

read_exact-append :
    (xs ys : Bytes) (n : ℕ) → length xs ≡ n → read_exact n (xs ++ ys) ≡ (some xs, ys)
unfolding read_exact
read_exact-append xs ys n h =
    rw
      (
        le→leb n (length (xs ++ ys)) (omega (arith, length-append xs ys)),
        take-append xs ys n h,
        drop-append xs ys n h,
      )
      refl

module _ {ℓ} {A : Type ℓ} (cbor : Cbor A) where
  ok_inj : {x y : Bytes} → ◌≡◌ {A = Result Bytes RpcError} (ok x) (ok y) → x ≡ y
  ok_inj q = cc

  err≢ok : {e : RpcError} {x : Bytes} → ◌≢◌ {A = Result Bytes RpcError} (err e) (ok x)
  err≢ok q = cc

  -- What a frame that was encoded is made of.
  record IsFramed (value : A) (framed : Bytes) : Type ℓ where
    payload : Bytes
    written : cbor.into_writer value ≡ some payload
    fits : length payload ≤ max_frame_len
    made : framed ≡ to_be_bytes (length payload) ++ payload

  encode_inv :
      (value : A) (framed : Bytes) → encode_frame cbor value ≡ ok framed → IsFramed value framed
  unfolding encode_frame
  encode_inv value framed q = elim (Option-cases (cbor.into_writer value)) [
    | inl n ↦ absurd (err≢ok (rw (n, encode_frame) at q))
    | inr (payload, n) ↦ elim (Bool-cases (ltb max_frame_len (length payload))) [
      | inl big ↦ absurd (err≢ok (rw (n, encode_frame, big) at q))
      | inr small ↦ record {
        payload = payload;
        written = n;
        fits = ltb-false→le max_frame_len (length payload) small;
        made = sym (ok_inj (rw (n, encode_frame, small) at q));
      }
    ]
  ]

  -- A frame that `encode_frame` made is read back by `read_frame` with what stands behind it left in
  -- the stream, and its payload is within the limit, where the decoder reads back what the encoder
  -- wrote for the value.
  pub read_frame-encode_frame :
      (value : A) (framed rest : Bytes)
      → ((payload : Bytes)
          → cbor.into_writer value ≡ some payload
          → cbor.from_reader payload ≡ some value)
      → encode_frame cbor value ≡ ok framed
      → (read_frame cbor (framed ++ rest) ≡ (ok value, rest))
        × (length framed ≤ length_prefix_bytes + max_frame_len)
  unfolding read_frame decode_frame
  read_frame-encode_frame value framed rest round q =
      let f = encode_inv value framed q in
      (
        ap (λ (s : Bytes). read_frame cbor (s ++ rest)) f.made
            ∙ ap (read_frame cbor) (append_assoc (to_be_bytes (length f.payload)) f.payload rest)
            ∙ ap (read_prefixed cbor) (
                read_exact-append (to_be_bytes (length f.payload)) (f.payload ++ rest)
                  length_prefix_bytes refl)
            ∙ ap (λ (n : ℕ). read_announced cbor n (f.payload ++ rest))
                (from-to_be_bytes (length f.payload) (omega (arith, f.fits)))
            ∙ announced f.payload f.fits (round f.payload f.written),
        rw f.made (omega (arith, f.fits)),
      )
    where
      announced :
          (payload : Bytes)
          → length payload ≤ max_frame_len
          → cbor.from_reader payload ≡ some value
          → read_announced cbor (length payload) (payload ++ rest) ≡ (ok value, rest)
      announced payload small there =
          rw
            (
              le→ltb-false max_frame_len (length payload) small,
              read_exact-append payload rest (length payload) refl,
              le→ltb-false max_frame_len (length payload) small,
              there,
              decode_frame,
            )
            refl

  -- A prefix that announces more than 64 KiB is refused before anything of the payload is read.
  pub read_frame-too_large :
      (len_buf rest : Bytes)
      → length len_buf ≡ length_prefix_bytes
      → max_frame_len < from_be_bytes len_buf
      → read_frame cbor (len_buf ++ rest)
        ≡ (err (too_large (from_be_bytes len_buf) max_frame_len), rest)
  unfolding read_frame
  read_frame-too_large len_buf rest w big =
      ap (read_prefixed cbor) (read_exact-append len_buf rest length_prefix_bytes w) ∙ refused
    where
      refused :
          read_announced cbor (from_be_bytes len_buf) rest
          ≡ (err (too_large (from_be_bytes len_buf) max_frame_len), rest)
      refused = rw (lt→ltb max_frame_len (from_be_bytes len_buf) big) refl
