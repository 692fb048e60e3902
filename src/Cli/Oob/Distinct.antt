-- ===== src/Cli/Oob/Distinct.antt =====
-- The table of crates/syauth-cli/src/oob.rs has 256 different words, so four bytes give four words.
use syauth.Base.{
  ℕ, zero, suc, ◌<◌, Bool, true, false, not, ◌&&◌, Bytes, Text, bytes_eq, List, [], ◌∷◌, get_or,
  length, any, ◌≡◌, refl, sym, ap, arith, ◌≢◌, ◌↔◌, bytes_eq_iff, inl, inr, Option-cases, some, map,
}
use syauth.Cli.Oob.Words.{oob_words}
use syauth.Cli.Oob.{Expand, hkdf_info_oob_v1, oob_indices, oob_code_for_bond}

distinct : List Text → Bool
distinct [] = true
distinct (w ∷ ws) = not (any (bytes_eq w) ws) && distinct ws

oob_words_distinct : distinct oob_words ≡ true
unfolding distinct oob_words bytes_eq
oob_words_distinct = refl

-- The bytes of an array are below 256.
abbrev pub AreBytes : Bytes → Type 0
AreBytes [] = Unit
AreBytes (b ∷ bs) = (b < 256) × AreBytes bs

abbrev word : List Text → ℕ → Text
word ws i = get_or ws i []

any-word :
    (w : Text) (ws : List Text) (i : ℕ)
    → any (bytes_eq w) ws ≡ false
    → i < length ws
    → w ≢ word ws i
any-word w [] i h l = absurd (omega arith)
any-word w (v ∷ ws) zero h l = λ e. ground (arith, bytes_eq_iff w v)
any-word w (v ∷ ws) (suc i) h l = any-word w ws i (ground arith) (omega arith)

word_inj :
    (ws : List Text) (i j : ℕ)
    → distinct ws ≡ true
    → i < length ws
    → j < length ws
    → word ws i ≡ word ws j
    → i ≡ j
unfolding distinct
word_inj [] i j d li lj e = absurd (omega arith)
word_inj (w ∷ ws) zero zero d li lj e = refl
word_inj (w ∷ ws) zero (suc j) d li lj e = absurd (any-word w ws j (ground arith) (omega arith) e)
word_inj (w ∷ ws) (suc i) zero d li lj e =
    absurd (any-word w ws i (ground arith) (omega arith) (sym e))
word_inj (w ∷ ws) (suc i) (suc j) d li lj e =
    ap suc (word_inj ws i j (ground arith) (omega arith) (omega arith) e)

words_inj :
    (ws : List Text) (xs ys : Bytes)
    → distinct ws ≡ true
    → length ws ≡ 256
    → AreBytes xs
    → AreBytes ys
    → map (word ws) xs ≡ map (word ws) ys
    → xs ≡ ys
words_inj ws [] [] d l bx by e = refl
words_inj ws [] (y ∷ ys) d l bx by e = cc
words_inj ws (x ∷ xs) [] d l bx by e = cc
words_inj ws (x ∷ xs) (y ∷ ys) d l bx by e =
    cc (word_inj ws x y d (omega arith) (omega arith) (cc), words_inj ws xs ys d l bx.1 by.1 (cc))

abbrev pub OutputsBytes : Expand → Type 0
OutputsBytes hkdf = (key info out : Bytes) → hkdf key info ≡ some out → AreBytes out

oob_indices-AreBytes :
    (hkdf : Expand) (k : Bytes) → OutputsBytes hkdf → AreBytes (oob_indices hkdf k)
unfolding oob_indices
oob_indices-AreBytes hkdf k h = elim (Option-cases (hkdf k hkdf_info_oob_v1)) [
  | inl e ↦ rw (e, oob_indices, AreBytes) (omega arith)
  | inr (out, e) ↦ rw (e, oob_indices, AreBytes) (h k hkdf_info_oob_v1 out e)
]

-- Where HKDF puts out bytes, two bond keys show the operator the same words exactly when the bytes
-- that HKDF derives from them are the same: no two byte values share a word of the table.
pub oob_code_for_bond_inj :
    (hkdf : Expand) (k k' : Bytes)
    → OutputsBytes hkdf
    → (oob_code_for_bond hkdf k ≡ oob_code_for_bond hkdf k')
      ↔ (oob_indices hkdf k ≡ oob_indices hkdf k')
unfolding oob_code_for_bond
oob_code_for_bond_inj hkdf k k' h = (
  words_inj oob_words (oob_indices hkdf k) (oob_indices hkdf k') oob_words_distinct
      (unfold oob_words in refl) (oob_indices-AreBytes hkdf k h) (oob_indices-AreBytes hkdf k' h),
  ap (map (word oob_words)),
)
