-- ===== src/Cli/Oob.antt =====
-- crates/syauth-cli/src/oob.rs: the four words that the operator compares with the phone. HKDF is a
-- parameter.
pub mod Words
pub mod Distinct
use syauth.Base.{ℕ, Bytes, Text, text, List, [], ◌∷◌, Option, none, some, get_or, replicate, map}
use syauth.Cli.Oob.Words.{oob_words}

abbrev pub hkdf_info_oob_v1 : Bytes
hkdf_info_oob_v1 = text "syauth-oob-v1"

abbrev pub oob_word_count : ℕ
oob_word_count = 4

abbrev pub oob_bond_key_bytes : ℕ
oob_bond_key_bytes = 32

-- The output of `expand` to four bytes for the key and the info; `none` is its error.
abbrev pub Expand : Type 0
Expand = Bytes → Bytes → Option Bytes

unfoldable pub oob_indices : Expand → Bytes → Bytes
oob_indices hkdf bond_key = elim (hkdf bond_key hkdf_info_oob_v1) [
  | some out ↦ out
  | none ↦ replicate oob_word_count 0
]

-- `OOB_WORDS[out[i]]` for the four bytes
unfoldable pub oob_code_for_bond : Expand → Bytes → List Text
unfolding oob_indices
oob_code_for_bond hkdf bond_key = map (λ (i : ℕ). get_or oob_words i []) (oob_indices hkdf bond_key)
