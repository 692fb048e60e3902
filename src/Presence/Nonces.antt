-- ===== src/Presence/Nonces.antt =====
-- `NonceCache` of crates/syauth-presenced/src/orchestrator.rs: the last nonces of one peer.
pub mod Kept
use syauth.Base.{
  ℕ, zero, suc, ◌+◌, ◌-◌, ◌≤◌, ◌<◌, Bool, true, false, Bytes, bytes_eq, bytes_eq_refl, List, [],
  ◌∷◌, ◌++◌, ltb, any, length, length-append, length-drop, ltb→lt, ltb-false→le, drop,
  if◌then◌else◌, ◌≡◌, refl, ap, sym, ◌∙◌, arith, Bool-cases, inl, inr,
}
use mathlib.Core.List.{append_assoc, append-nil}

abbrev pub nonce_lru_cap : ℕ
nonce_lru_cap = 64

pub record NonceCache : Type 0 where
  pub nonces : List Bytes

abbrev pub new : NonceCache
new = record { nonces = [] }

unfoldable pub contains : NonceCache → Bytes → Bool
contains c nonce = any (λ n. bytes_eq n nonce) c.nonces

unfoldable pub insert : NonceCache → Bytes → NonceCache
insert c nonce =
    let pushed = c.nonces ++ nonce ∷ [] in
    if ltb nonce_lru_cap (length pushed)
    then record { nonces = drop 1 pushed }
    else record { nonces = pushed }

-- The inserts of a history, the oldest first.
unfoldable pub insert_all : NonceCache → List Bytes → NonceCache
insert_all c [] = c
insert_all c (n ∷ ns) = insert_all (insert c n) ns

drop-suc {ℓ} : {A : Type ℓ} (k : ℕ) (xs : List A) → drop 1 (drop k xs) ≡ drop (suc k) xs
drop-suc zero xs = refl
drop-suc (suc k) [] = refl
drop-suc (suc k) (x ∷ xs) = drop-suc k xs

drop-snoc {ℓ} :
    {A : Type ℓ} (k : ℕ) (xs : List A) (a : A)
    → k ≤ length xs
    → drop k (xs ++ a ∷ []) ≡ drop k xs ++ a ∷ []
drop-snoc zero xs a h = refl
drop-snoc (suc k) [] a h = absurd (omega arith)
drop-snoc (suc k) (x ∷ xs) a h = drop-snoc k xs a (omega arith)

-- The last nonces of a history.
abbrev pub recent : List Bytes → NonceCache
recent ns = record { nonces = drop (length ns - nonce_lru_cap) ns }

insert-recent : (ns : List Bytes) (n : Bytes) → insert (recent ns) n ≡ recent (ns ++ n ∷ [])
unfolding insert
insert-recent ns n =
    elim (Bool-cases (ltb nonce_lru_cap (length (drop (length ns - nonce_lru_cap) ns ++ n ∷ [])))) [
      | inl full ↦ rw full (
          ap wrap (
            ap (drop 1) (sym (drop-snoc (length ns - nonce_lru_cap) ns n (omega arith)))
            ∙ drop-suc (length ns - nonce_lru_cap) (ns ++ n ∷ [])
            ∙ ap (λ k. drop k (ns ++ n ∷ [])) (grows full)))
      | inr room ↦ rw room (
          ap wrap (
            ap (λ k. drop k ns ++ n ∷ []) (none_yet room)
            ∙ ap (λ k. drop k (ns ++ n ∷ [])) (sym (none_now room))))
    ]
  where
    wrap : List Bytes → NonceCache
    wrap xs = record { nonces = xs }

    pushed_length :
        length (drop (length ns - nonce_lru_cap) ns ++ n ∷ [])
        ≡ length ns - (length ns - nonce_lru_cap) + 1
    pushed_length = omega (
      arith,
      length-append (drop (length ns - nonce_lru_cap) ns) (n ∷ []),
      length-drop (length ns - nonce_lru_cap) ns,
    )

    more : length (ns ++ n ∷ []) ≡ length ns + 1
    more = length-append ns (n ∷ [])

    grows :
        ltb nonce_lru_cap (length (drop (length ns - nonce_lru_cap) ns ++ n ∷ [])) ≡ true
        → suc (length ns - nonce_lru_cap) ≡ length (ns ++ n ∷ []) - nonce_lru_cap
    grows full = omega (
      arith,
      more,
      pushed_length,
      ltb→lt nonce_lru_cap (length (drop (length ns - nonce_lru_cap) ns ++ n ∷ [])) full,
    )

    none_yet :
        ltb nonce_lru_cap (length (drop (length ns - nonce_lru_cap) ns ++ n ∷ [])) ≡ false
        → length ns - nonce_lru_cap ≡ 0
    none_yet room = omega (
      arith,
      pushed_length,
      ltb-false→le nonce_lru_cap (length (drop (length ns - nonce_lru_cap) ns ++ n ∷ [])) room,
    )

    none_now :
        ltb nonce_lru_cap (length (drop (length ns - nonce_lru_cap) ns ++ n ∷ [])) ≡ false
        → length (ns ++ n ∷ []) - nonce_lru_cap ≡ 0
    none_now room = omega (
      arith,
      more,
      pushed_length,
      ltb-false→le nonce_lru_cap (length (drop (length ns - nonce_lru_cap) ns ++ n ∷ [])) room,
    )

insert_all-recent : (before ns : List Bytes) → insert_all (recent before) ns ≡ recent (before ++ ns)
unfolding insert_all
insert_all-recent before [] = ap recent (sym (append-nil before))
insert_all-recent before (n ∷ ns) = rw (
  insert-recent before n,
  insert_all-recent (before ++ n ∷ []) ns,
  append_assoc before (n ∷ []) ns,
)

-- After any inserts into a new cache it holds the last 64 of the inserted nonces, in their order.
pub insert_all-new : (ns : List Bytes) → insert_all new ns ≡ recent ns
insert_all-new ns = insert_all-recent [] ns
