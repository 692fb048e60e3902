-- ===== src/Core/Bond/Hex.antt =====
-- The module `hex_pubkey` of crates/syauth-core/src/bond.rs: a public key as 64 characters.
use syauth.Base.{
  ℕ, zero, suc, ◌+◌, ◌-◌, ◌*◌, ◌/◌, ◌%◌, ◌<◌, Bool, false, not, ◌&&◌, ◌||◌, leb, ltb, Bytes, Text,
  [], ◌∷◌, Option, none, some, Result, ok, err, ◌==◌, length, get_or, if◌then◌else◌, ◌≡◌, refl, ap,
  subst, arith,
}
use syauth.Core.Bond.{pubkey_len, hex_chars, hex_lowercase}

-- `char::to_digit(16)`
unfoldable pub hex_digit : ℕ → Option ℕ
hex_digit c =
    if leb b'0' c && leb c b'9'
    then some (c - b'0')
    else if leb b'a' c && leb c b'f'
    then some (c - b'a' + 10)
    else if leb b'A' c && leb c b'F'
    then some (c - b'A' + 10)
    else none

abbrev pub two_digits : Option ℕ → Option ℕ → Option ℕ
two_digits (some high) (some low) = some (16 * high + low)
two_digits high low = none

-- `u8::from_str_radix` of two characters in base 16, which takes a plus sign
unfoldable pub from_str_radix : ℕ → ℕ → Option ℕ
from_str_radix a b = if a == b'+' then hex_digit b else two_digits (hex_digit a) (hex_digit b)

-- A byte within a character, at which a string is not sliced.
unfoldable pub is_continuation : ℕ → Bool
is_continuation c = leb 128 c && ltb c 192

abbrev pub starts_inside : Text → Bool
starts_inside [] = false
starts_inside (c ∷ cs) = is_continuation c

abbrev pub push_byte : ℕ → Option (Result Bytes (Unit {0})) → Option (Result Bytes (Unit {0}))
push_byte byte none = none
push_byte byte (some (err e)) = some (err e)
push_byte byte (some (ok out)) = some (ok (byte ∷ out))

-- One round of the loop and those after it; `none` is a panic of the slice.
abbrev pub push_parsed :
    Option ℕ → Option (Result Bytes (Unit {0})) → Option (Result Bytes (Unit {0}))
push_parsed none rest = some (err tt)
push_parsed (some byte) rest = push_byte byte rest

unfoldable pub parse_pairs : ℕ → Text → Option (Result Bytes (Unit {0}))
parse_pairs zero raw = some (ok [])
parse_pairs (suc n) [] = none
parse_pairs (suc n) (a ∷ []) = none
parse_pairs (suc n) (a ∷ b ∷ raw) =
    let rest = parse_pairs n raw in
    if is_continuation a || starts_inside raw then none else push_parsed (from_str_radix a b) rest

unfoldable pub deserialize : Text → Option (Result Bytes (Unit {0}))
deserialize raw =
    if not (length raw == pubkey_len * 2) then some (err tt) else parse_pairs pubkey_len raw

abbrev pub digit : ℕ → ℕ
digit k = get_or hex_chars k 0

abbrev IsDigit : ℕ → ℕ → Type 0
IsDigit k c = (hex_digit c ≡ some k) × (is_continuation c ≡ false) × ((c == b'+') ≡ false)

digit-IsDigit : (k : ℕ) → k < 16 → IsDigit k (digit k)
unfolding hex_digit is_continuation
digit-IsDigit zero h = (refl, refl, refl)
digit-IsDigit (suc zero) h = (refl, refl, refl)
digit-IsDigit (suc (suc zero)) h = (refl, refl, refl)
digit-IsDigit (suc (suc (suc zero))) h = (refl, refl, refl)
digit-IsDigit (suc (suc (suc (suc zero)))) h = (refl, refl, refl)
digit-IsDigit (suc (suc (suc (suc (suc zero))))) h = (refl, refl, refl)
digit-IsDigit (suc (suc (suc (suc (suc (suc zero)))))) h = (refl, refl, refl)
digit-IsDigit (suc (suc (suc (suc (suc (suc (suc zero))))))) h = (refl, refl, refl)
digit-IsDigit (suc (suc (suc (suc (suc (suc (suc (suc zero)))))))) h = (refl, refl, refl)
digit-IsDigit (suc (suc (suc (suc (suc (suc (suc (suc (suc zero))))))))) h = (refl, refl, refl)
digit-IsDigit (suc (suc (suc (suc (suc (suc (suc (suc (suc (suc zero)))))))))) h =
    (refl, refl, refl)
digit-IsDigit (suc (suc (suc (suc (suc (suc (suc (suc (suc (suc (suc zero))))))))))) h =
    (refl, refl, refl)
digit-IsDigit (suc (suc (suc (suc (suc (suc (suc (suc (suc (suc (suc (suc zero)))))))))))) h =
    (refl, refl, refl)
digit-IsDigit (suc (suc (suc (suc (suc (suc (suc (suc (suc (suc (suc (suc (suc zero))))))))))))) h =
    (refl, refl, refl)
digit-IsDigit
      (suc (suc (suc (suc (suc (suc (suc (suc (suc (suc (suc (suc (suc (suc zero)))))))))))))) h =
    (refl, refl, refl)
digit-IsDigit
      (suc (suc (suc (suc (suc (suc (suc (suc (suc (suc (suc (suc (suc (suc (suc zero)))))))))))))))
      h =
    (refl, refl, refl)
digit-IsDigit
      (suc
        (suc (suc (suc (suc (suc (suc (suc (suc (suc (suc (suc (suc (suc (suc (suc k))))))))))))))))
      h =
    absurd (omega arith)

abbrev pub AreBytes : Bytes → Type 0
AreBytes [] = Unit {0}
AreBytes (b ∷ bs) = (b < 256) × AreBytes bs

-- the string of a key starts at a character
hex-boundary : (bs : Bytes) → AreBytes bs → starts_inside (hex_lowercase bs) ≡ false
unfolding hex_lowercase
hex-boundary [] h = refl
hex-boundary (b ∷ bs) (h, hs) = (digit-IsDigit (b / 16) (omega arith)).1

from_str_radix-digit : (b : ℕ) → b < 256 → from_str_radix (digit (b / 16)) (digit (b % 16)) ≡ some b
unfolding from_str_radix
from_str_radix-digit b h =
    let (high, _, plain) = digit-IsDigit (b / 16) (omega arith) in
    let (low, _, _) = digit-IsDigit (b % 16) (omega arith) in
    rw (plain, high, low) (ap some (omega arith))

parse_pairs-hex_lowercase :
    (bs : Bytes) → AreBytes bs → parse_pairs (length bs) (hex_lowercase bs) ≡ some (ok bs)
unfolding parse_pairs hex_lowercase
parse_pairs-hex_lowercase [] h = refl
parse_pairs-hex_lowercase (b ∷ bs) (h, hs) =
    let (_, inside, _) = digit-IsDigit (b / 16) (omega arith) in
    rw (inside, hex-boundary bs hs, from_str_radix-digit b h)
      (ap (push_byte b) (parse_pairs-hex_lowercase bs hs))

length-hex_lowercase : (bs : Bytes) → length (hex_lowercase bs) ≡ 2 * length bs
unfolding hex_lowercase
length-hex_lowercase [] = refl
length-hex_lowercase (b ∷ bs) = omega (arith, length-hex_lowercase bs)

-- A public key of 32 bytes that is written as 64 hexadecimal characters is read back.
pub deserialize-hex_lowercase :
    (key : Bytes) → length key ≡ 32 → AreBytes key → deserialize (hex_lowercase key) ≡ some (ok key)
unfolding deserialize
deserialize-hex_lowercase key w h =
    rw (length-hex_lowercase key, w)
      (subst (λ (n : ℕ). parse_pairs n (hex_lowercase key) ≡ some (ok key)) w
        (parse_pairs-hex_lowercase key h))
