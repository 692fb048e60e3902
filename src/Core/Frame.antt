-- ===== src/Core/Frame.antt =====
-- crates/syauth-core/src/frame.rs: the v1 wire frame.
pub mod RoundTrip
pub mod Verdict
use syauth.Base.{
  ℕ, ◌+◌, ◌-◌, not, Bytes, Result, ok, err, Option, some, ◌>>=◌, ◌++◌, ◌∷◌, ltb, ◌==◌, length,
  get_elem?, slice, if◌then◌else◌, ◌≡◌,
}

abbrev pub syauth_wire_version_v1 : ℕ
syauth_wire_version_v1 = 1

abbrev pub version_len : ℕ
version_len = 1

abbrev pub nonce_len : ℕ
nonce_len = 16

abbrev pub tag_len : ℕ
tag_len = 16

abbrev pub version_offset : ℕ
version_offset = 0

abbrev pub nonce_offset : ℕ
nonce_offset = version_offset + version_len

abbrev pub payload_offset : ℕ
payload_offset = nonce_offset + nonce_len

abbrev pub header_len : ℕ
header_len = version_len + nonce_len

abbrev pub min_frame_len : ℕ
min_frame_len = header_len + tag_len

abbrev pub max_payload_len : ℕ
max_payload_len = 4096

abbrev pub max_frame_len : ℕ
max_frame_len = min_frame_len + max_payload_len

pub record Frame : Type 0 where
  pub version : ℕ
  pub nonce : Bytes
  pub payload : Bytes
  pub tag : Bytes

-- What the types `[u8; NONCE_LEN]` and `[u8; TAG_LEN]` of the fields say.
pub record IsTyped (f : Frame) : Type 0 where
  pub nonce_width : length f.nonce ≡ nonce_len
  pub tag_width : length f.tag ≡ tag_len

pub data FrameError : Type 0 where
  too_short : ℕ → ℕ → FrameError
  bad_version : ℕ → FrameError
  bad_length : FrameError

-- `&mut Vec<u8>` is the buffer before and after the call.
unfoldable pub encode : Frame → Bytes → Result (Unit {0}) FrameError × Bytes
encode f buf =
    if ltb max_payload_len (length f.payload)
    then (err bad_length, buf)
    else (ok tt, buf ++ (f.version ∷ (f.nonce ++ (f.payload ++ f.tag))))

unfoldable pub body_bytes : Frame → Result Bytes FrameError
body_bytes f =
    if ltb max_payload_len (length f.payload)
    then err bad_length
    else ok (f.version ∷ (f.nonce ++ f.payload))

-- The copies that follow the three guards of `decode`. `none` is the panic of an index or a range
-- out of bounds.
unfoldable pub decode_fields : ℕ → Bytes → Option (Result Frame FrameError)
decode_fields version input = do
  let payload_len = length input - min_frame_len
  nonce ← slice input nonce_offset (nonce_offset + nonce_len)
  let payload_end = payload_offset + payload_len
  payload ← slice input payload_offset payload_end
  tag ← slice input payload_end (payload_end + tag_len)
  some (ok (record { version = version; nonce = nonce; payload = payload; tag = tag }))

unfoldable pub decode : Bytes → Option (Result Frame FrameError)
decode input =
    if ltb (length input) min_frame_len
    then some (err (too_short min_frame_len (length input)))
    else do
      version ← get_elem? input version_offset
      if not (version == syauth_wire_version_v1)
          then some (err (bad_version version))
          else if ltb max_payload_len (length input - min_frame_len)
          then some (err bad_length)
          else decode_fields version input
