-- ===== src/Presence/Rpc.antt =====
-- crates/syauth-presenced/src/rpc.rs: the messages of the daemon's socket and their length-prefixed
-- frames. `ciborium` is a parameter; a stream is the bytes that are still to be read, and an attempt
-- to read more of them is an I/O error.
pub mod RoundTrip
use syauth.Base.{
  ℕ, ◌+◌, ◌-◌, ◌*◌, ◌/◌, ◌%◌, ◌^◌, Bool, true, false, Bytes, Text, List, [], ◌∷◌, ◌++◌, Option,
  none, some, Result, ok, err, ltb, leb, length, take, drop, if◌then◌else◌,
}

abbrev pub max_frame_len : ℕ
max_frame_len = 64 * 1024

abbrev pub length_prefix_bytes : ℕ
length_prefix_bytes = 4

abbrev pub u32_max : ℕ
u32_max = 2 ^ 32 - 1

pub record PeerStatus : Type 0 where
  pub peer_id : Text
  pub last_challenge_ms_ago : Option ℕ
  pub last_connect_ms_ago : Option ℕ
  pub current_session_uuid : Bytes
  pub in_flight_challenges : ℕ

pub data Request : Type 0 where
  challenge : Text → Bytes → Request
  reload status : Request

-- `Response::Challenge { ok, signature, reason }`, `Response::Reload { ok }` and
-- `Response::Status { peers, started_at }`
pub data Response : Type 0 where
  challenge_response : Bool → Option Bytes → Text → Response
  reload_response : Bool → Response
  status_response : List PeerStatus → ℕ → Response

pub data RpcError : Type 0 where
  io decode encode : RpcError
  too_large : ℕ → ℕ → RpcError

-- `into_writer` and `from_reader` at the type of a message; `none` is their error.
pub record Cbor {ℓ} (A : Type ℓ) : Type ℓ where
  pub into_writer : A → Option Bytes
  pub from_reader : Bytes → Option A

-- `u32::to_be_bytes` and `u32::from_be_bytes`
abbrev pub to_be_bytes : ℕ → Bytes
to_be_bytes n = n / 16777216 % 256 ∷ n / 65536 % 256 ∷ n / 256 % 256 ∷ n % 256 ∷ []

abbrev pub from_be_bytes : Bytes → ℕ
from_be_bytes (a ∷ b ∷ c ∷ d ∷ _) = ((a * 256 + b) * 256 + c) * 256 + d
from_be_bytes _ = 0

-- `u32::try_from(len).unwrap_or(u32::MAX)`
abbrev pub clamp_u32 : ℕ → ℕ
clamp_u32 len = if ltb u32_max len then u32_max else len

-- `reader.read_exact` of `n` bytes, and the stream after it
unfoldable pub read_exact : ℕ → Bytes → Option Bytes × Bytes
read_exact n stream =
    if leb n (length stream) then (some (take n stream), drop n stream) else (none, [])

module _ {ℓ} {A : Type ℓ} (cbor : Cbor A) where
  abbrev pub frame_payload : Bytes → Result Bytes RpcError
  frame_payload payload =
      if ltb max_frame_len (length payload)
      then err (too_large (clamp_u32 (length payload)) max_frame_len)
      else ok (to_be_bytes (length payload) ++ payload)

  unfoldable pub encode_frame : A → Result Bytes RpcError
  encode_frame value = elim (cbor.into_writer value) [
    | none ↦ err encode
    | some payload ↦ frame_payload payload
  ]

  unfoldable pub decode_frame : Bytes → Result A RpcError
  decode_frame bytes =
      if ltb max_frame_len (length bytes)
      then err (too_large (clamp_u32 (length bytes)) max_frame_len)
      else elim (cbor.from_reader bytes) [ none ↦ err decode | some value ↦ ok value ]

  abbrev pub read_payload : Option Bytes × Bytes → Result A RpcError × Bytes
  unfolding decode_frame
  read_payload (none, rest) = (err io, rest)
  read_payload (some payload, rest) = (decode_frame payload, rest)

  -- after the length prefix
  abbrev pub read_announced : ℕ → Bytes → Result A RpcError × Bytes
  unfolding read_exact
  read_announced announced_len rest =
      if ltb max_frame_len announced_len
      then (err (too_large announced_len max_frame_len), rest)
      else read_payload (read_exact announced_len rest)

  abbrev pub read_prefixed : Option Bytes × Bytes → Result A RpcError × Bytes
  read_prefixed (none, rest) = (err io, rest)
  read_prefixed (some len_buf, rest) = read_announced (from_be_bytes len_buf) rest

  -- `read_frame` and `read_frame_blocking`, with the stream after the call
  unfoldable pub read_frame : Bytes → Result A RpcError × Bytes
  unfolding read_exact
  read_frame stream = read_prefixed (read_exact length_prefix_bytes stream)
