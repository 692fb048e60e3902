-- ===== src/Tests/CoreTests.antt =====
-- The components of crates/syauth-core at concrete inputs.
use syauth.Base.{
  none, ◌+◌, true, Bytes, Text, text, bytes_eq, slice, ◌≤◌, [], ◌∷◌, ◌++◌, replicate, some, is_some,
  ok, err, length, if◌then◌else◌, ◌≡◌, refl, arith,
}
use mathlib.Core.Option
use syauth.Core.Frame.{
  Frame, IsTyped, encode, decode, decode_fields, max_payload_len, min_frame_len,
  syauth_wire_version_v1,
}
use syauth.Core.Frame.RoundTrip.{decode-encode}
use syauth.Core.Frame.Verdict.{encode-decode}
use syauth.Core.Crypto.{Primitives}
use syauth.Core.Replay.{replayed, ReplayCache, evict_expired, trim, admit, observe, observe_all}
use syauth.Core.Replay.Window.{observe-window}
use syauth.Core.Replay.Expiry.{IsWindow}
use syauth.Core.Bond.{Bond, BondStore, bonded, add, remove, mark_revoked, unknown_peer}
use syauth.Core.Bond.{hex_lowercase}
use syauth.Core.Bond.Hex.{
  hex_digit, from_str_radix, is_continuation, parse_pairs, deserialize, AreBytes,
  deserialize-hex_lowercase,
}
use syauth.Core.Bond.View.{Unique, view, with_revocation, view-mark_revoked}
use syauth.Core.Bond.Unique.{updates-Unique}

abbrev pub small_frame : Frame
small_frame = record {
  version = 1;
  nonce = replicate 16 7;
  payload = 1 ∷ 2 ∷ [];
  tag = replicate 16 9;
}

small_frame-IsTyped : IsTyped small_frame
small_frame-IsTyped = record { nonce_width = refl; tag_width = refl }

decode-encode_example :
    (w : Bytes) × (encode small_frame (5 ∷ []) ≡ (ok tt, (5 ∷ []) ++ w))
    × (decode w ≡ some (ok small_frame))
    × (length w ≡ min_frame_len + length small_frame.payload)
decode-encode_example = decode-encode small_frame (5 ∷ []) small_frame-IsTyped refl (omega arith)

abbrev two_bytes : Bytes
two_bytes = 1 ∷ 2 ∷ []

abbrev small_wire : Bytes
small_wire = 1 ∷ (replicate 16 7 ++ (1 ∷ 2 ∷ replicate 16 9))

decode-small_wire : decode small_wire ≡ some (ok small_frame)
unfolding decode decode_fields slice
decode-small_wire = refl

encode-decode_example :
    (encode small_frame [] ≡ (ok tt, [] ++ small_wire))
    × IsTyped small_frame
    × (small_frame.version ≡ syauth_wire_version_v1)
    × (length small_frame.payload ≤ max_payload_len)
encode-decode_example = encode-decode small_wire small_frame [] decode-small_wire

-- A signature scheme for the tests: a signature repeats the length of the message.
abbrev pub toy : Primitives
toy = record {
  hash = λ b. replicate 32 (length b);
  keyed_hash = λ key body. replicate 32 (length body);
  sign = λ key message. replicate 64 (length message);
  is_point = λ key. true;
  is_signature = λ s. true;
  verify_strict = λ key message s. bytes_eq s (replicate 64 (length message));
}

abbrev small_cache : ReplayCache
small_cache = record { cap = 2; ttl = 10; entries = (3 ∷ [], 5) ∷ [] }

observe-window_example :
    (observe
      (observe_all (observe small_cache (4 ∷ []) 6).1 ((3 ∷ [], 7) ∷ (5 ∷ [], 8) ∷ [])).1
      (4 ∷ [])
      9).0
    ≡ replayed
unfolding observe observe_all admit trim evict_expired bytes_eq
observe-window_example =
    observe-window small_cache (4 ∷ []) 6 ((3 ∷ [], 7) ∷ (5 ∷ [], 8) ∷ []) 9 refl
      (omega arith, (omega arith, tt)) (omega arith) (omega arith)

small_cache-IsWindow : IsWindow small_cache 5
small_cache-IsWindow = record {
  ordered = (omega arith, omega arith);
  bounded = omega arith;
  distinct = (tt, tt);
}

abbrev pub phone : Text → Bond
phone id = record {
  peer_id = id;
  pubkey = replicate 32 1;
  name = text "phone";
  created_at = 0;
  status = bonded;
}

abbrev pub two_phones : BondStore
two_phones = record { bonds = phone (text "a") ∷ phone (text "b") ∷ [] }

pub two_phones-Unique : Unique two_phones.bonds
unfolding bytes_eq
two_phones-Unique = (refl, (refl, tt))

view-mark_revoked_example :
    ((mark_revoked two_phones (text "a") (text "lost")).0
      ≡ (if is_some (view two_phones (text "a")) then ok tt else err (unknown_peer (text "a"))))
    × (view (mark_revoked two_phones (text "a") (text "lost")).1 (text "a") ≡ (
        if bytes_eq (text "a") (text "a")
        then Option.map (with_revocation (text "lost")) (view two_phones (text "a"))
        else view two_phones (text "a")))
view-mark_revoked_example = view-mark_revoked two_phones (text "a") (text "lost") (text "a")

updates-Unique_example :
    Unique (add two_phones (phone (text "c"))).1.bonds
    × Unique (remove two_phones (text "a")).1.bonds
    × Unique (mark_revoked two_phones (text "a") (text "lost")).1.bonds
updates-Unique_example =
    updates-Unique two_phones (phone (text "c")) (text "a") (text "lost") two_phones-Unique

-- a key that ends in the highest byte
abbrev some_key : Bytes
some_key = replicate 31 200 ++ 255 ∷ []

some_key-AreBytes : AreBytes some_key
some_key-AreBytes = omega arith

deserialize-hex_lowercase_example : deserialize (hex_lowercase some_key) ≡ some (ok some_key)
deserialize-hex_lowercase_example = deserialize-hex_lowercase some_key refl some_key-AreBytes

-- 64 bytes with a character of two bytes across the second offset: the slice panics
panicked : deserialize (text "a" ++ (195 ∷ 169 ∷ replicate 61 b'a')) ≡ none
unfolding deserialize parse_pairs is_continuation
panicked = refl

-- a sign is taken for a digit
signed_byte : from_str_radix b'+' b'5' ≡ some 5
unfolding from_str_radix hex_digit
signed_byte = refl
