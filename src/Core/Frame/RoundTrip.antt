-- ===== src/Core/Frame/RoundTrip.antt =====
-- Encoding and decoding of crates/syauth-core/src/frame.rs undo each other.
use syauth.Base.{
  ℕ, ◌+◌, ◌-◌, ◌≤◌, Bytes, ok, some, ◌++◌, ◌∷◌, [], List, length, take, drop, slice, ◌≡◌, refl, ap,
  arith, length-append, take-append, drop-append, le→leb, ◌∙◌, sym, le→ltb-false, take-append-drop,
  length-take, length-drop,
}
use mathlib.Core.List.{append_assoc, append-nil}
use syauth.Core.Frame.{
  Frame, IsTyped, encode, decode, decode_fields, max_payload_len, min_frame_len, tag_len,
  syauth_wire_version_v1,
}

slice-append {ℓ} :
    {A : Type ℓ} (xs ys zs : List A) (a b : ℕ)
    → length xs ≡ a
    → a + length ys ≡ b
    → slice (xs ++ (ys ++ zs)) a b ≡ some ys
unfolding slice
slice-append xs ys zs a b p q = rw (
  drop-append xs (ys ++ zs) a p,
  take-append ys zs (b - a) (omega arith),
  le→leb a b (omega arith),
  le→leb b (length (xs ++ (ys ++ zs)))
      (omega (arith, length-append xs (ys ++ zs), length-append ys zs)),
)

-- version, nonce, payload and tag in the order of the wire
abbrev pub wire : Frame → Bytes
wire f = f.version ∷ (f.nonce ++ (f.payload ++ f.tag))

module _ (f : Frame) (typed : IsTyped f) where
  pub length-wire : length (wire f) ≡ min_frame_len + length f.payload
  length-wire = omega (
    arith,
    length-append f.nonce (f.payload ++ f.tag),
    length-append f.payload f.tag,
    typed.nonce_width,
    typed.tag_width,
  )

  -- where the payload ends
  cut : 17 + (length (wire f) - min_frame_len) ≡ 17 + length f.payload
  cut = omega (arith, length-wire)

  slice-nonce : slice (wire f) 1 17 ≡ some f.nonce
  slice-nonce =
      slice-append (f.version ∷ []) f.nonce (f.payload ++ f.tag) 1 17 refl
        (omega (arith, typed.nonce_width))

  slice-payload : slice (wire f) 17 (17 + (length (wire f) - min_frame_len)) ≡ some f.payload
  slice-payload = rw (cut) (
      slice-append (f.version ∷ f.nonce) f.payload f.tag 17 (17 + length f.payload)
        (omega (arith, typed.nonce_width)) refl)

  slice-tag :
      slice
        (wire f)
        (17 + (length (wire f) - min_frame_len))
        (17 + (length (wire f) - min_frame_len) + tag_len)
      ≡ some f.tag
  slice-tag =
      rw (cut, ← append-nil f.tag, ← append_assoc f.nonce f.payload (f.tag ++ []))
        (slice-append (f.version ∷ (f.nonce ++ f.payload)) f.tag [] (17 + length f.payload)
            (17 + length f.payload + tag_len)
            (omega (arith, length-append f.nonce f.payload, typed.nonce_width))
            (omega (arith, typed.tag_width))
          ∙ ap some (sym (append-nil f.tag)))

parts_of_slices :
    (v : ℕ) (input nonce payload tag : Bytes)
    → slice input 1 17 ≡ some nonce
    → slice input 17 (17 + (length input - min_frame_len)) ≡ some payload
    → slice input
        (17 + (length input - min_frame_len))
        (17 + (length input - min_frame_len) + tag_len)
      ≡ some tag
    → decode_fields v input
      ≡ some (ok (record { version = v; nonce = nonce; payload = payload; tag = tag }))
unfolding decode_fields
parts_of_slices v input nonce payload tag p q r = rw (p, q, r)

decode_fields-wire : (f : Frame) → IsTyped f → decode_fields f.version (wire f) ≡ some (ok f)
decode_fields-wire f typed =
    parts_of_slices f.version (wire f) f.nonce f.payload f.tag (slice-nonce f typed)
      (slice-payload f typed) (slice-tag f typed)

pub decode-wire :
    (f : Frame)
    → IsTyped f
    → f.version ≡ syauth_wire_version_v1
    → length f.payload ≤ max_payload_len
    → decode (wire f) ≡ some (ok f)
unfolding decode
decode-wire f typed v bounded = ground (arith, decode_fields-wire f typed, length-wire f typed)

pub encode-wire :
    (f : Frame) (buf : Bytes)
    → length f.payload ≤ max_payload_len
    → encode f buf ≡ (ok tt, buf ++ wire f)
unfolding encode
encode-wire f buf bounded = rw (le→ltb-false max_payload_len (length f.payload) bounded)

-- A frame is rebuilt from any input that passes the three guards of `decode`.
pub frame_of :
    (b : ℕ) (rest : Bytes)
    → 32 ≤ length rest
    → length rest ≤ 32 + max_payload_len
    → (f : Frame) × (wire f ≡ b ∷ rest)
      × (f.version ≡ b)
      × IsTyped f
      × (length f.payload ≤ max_payload_len)
frame_of b rest lo hi = (
  record {
    version = b;
    nonce = take 16 rest;
    payload = take (length rest - 32) (drop 16 rest);
    tag = drop (length rest - 32) (drop 16 rest);
  },
  rw (take-append-drop (length rest - 32) (drop 16 rest), take-append-drop 16 rest),
  refl,
  record {
    nonce_width = omega (arith, length-take 16 rest);
    tag_width = omega (arith, length-drop (length rest - 32) (drop 16 rest), length-drop 16 rest);
  },
  omega (arith, length-take (length rest - 32) (drop 16 rest)),
)

-- For every frame of the v1 version whose payload fits, `encode` succeeds, appends the frame's wire
-- bytes to the buffer, and `decode` of what was appended gives the frame back without a panic.
pub decode-encode :
    (f : Frame) (buf : Bytes)
    → IsTyped f
    → f.version ≡ syauth_wire_version_v1
    → length f.payload ≤ max_payload_len
    → (w : Bytes) × (encode f buf ≡ (ok tt, buf ++ w))
      × (decode w ≡ some (ok f))
      × (length w ≡ min_frame_len + length f.payload)
decode-encode f buf typed v bounded =
    (wire f, encode-wire f buf bounded, decode-wire f typed v bounded, length-wire f typed)
