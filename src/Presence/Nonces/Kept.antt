-- ===== src/Presence/Nonces/Kept.antt =====
-- A nonce stays in the `NonceCache` of crates/syauth-presenced/src/orchestrator.rs while fewer than
-- 64 others come after it.
use syauth.Base.{
  ℕ, suc, ◌≤◌, ◌<◌, true, false, Bytes, bytes_eq, bytes_eq_refl, List, [], ◌∷◌, ◌++◌, ltb, any,
  length, length-append, ltb→lt, drop, ◌≡◌, refl, ap, ◌∙◌, arith, Bool-cases, inl, inr,
}
use mathlib.Core.List.{append_assoc}
use syauth.Presence.Nonces.{NonceCache, nonce_lru_cap, contains, insert}

-- The nonce is in the cache with at most `n` nonces behind it.
pub record Kept (nonce : Bytes) (n : ℕ) (c : NonceCache) : Type 0 where
  pub before : List Bytes
  pub after : List Bytes
  pub split : c.nonces ≡ before ++ nonce ∷ after
  pub room : length after ≤ n

pub contains-Kept :
    (nonce : Bytes) (n : ℕ) (c : NonceCache) → Kept nonce n c → contains c nonce ≡ true
unfolding contains
contains-Kept nonce n c h = rw h.split (any_kept h.before)
  where
    any_kept : (xs : List Bytes) → any (λ x. bytes_eq x nonce) (xs ++ nonce ∷ h.after) ≡ true
    any_kept [] = rw (bytes_eq_refl nonce) refl
    any_kept (x ∷ xs) = elim (Bool-cases (bytes_eq x nonce)) [
      | inl e ↦ rw e refl
      | inr e ↦ rw (e, any_kept xs) refl
    ]

module _ (c : NonceCache) (m : Bytes) where
  nonces-insert_long :
      ltb nonce_lru_cap (length (c.nonces ++ m ∷ [])) ≡ true
      → (insert c m).nonces ≡ drop 1 (c.nonces ++ m ∷ [])
  unfolding insert
  nonces-insert_long h = rw h refl

  nonces-insert_short :
      ltb nonce_lru_cap (length (c.nonces ++ m ∷ [])) ≡ false
      → (insert c m).nonces ≡ c.nonces ++ m ∷ []
  unfolding insert
  nonces-insert_short h = rw h refl

  shifted :
      (nonce : Bytes) (n : ℕ) (before after : List Bytes)
      → c.nonces ≡ before ++ nonce ∷ after
      → length after ≤ n
      → suc n < nonce_lru_cap
      → nonce_lru_cap < length (c.nonces ++ m ∷ [])
      → Kept nonce (suc n) (insert c m)
  shifted nonce n [] after p r fits long =
      absurd (omega (arith, length-append c.nonces (m ∷ []), ap length p))
  shifted nonce n (b ∷ before) after p r fits long = record {
    before = before;
    after = after ++ m ∷ [];
    split =
        nonces-insert_long (ground arith)
        ∙ ap (λ xs. drop 1 (xs ++ m ∷ [])) p
        ∙ append_assoc before (nonce ∷ after) (m ∷ []);
    room = omega (arith, length-append after (m ∷ []));
  }

  pub insert-Kept :
      (nonce : Bytes) (n : ℕ)
      → Kept nonce n c
      → suc n < nonce_lru_cap
      → Kept nonce (suc n) (insert c m)
  insert-Kept nonce n h fits = elim (Bool-cases (ltb nonce_lru_cap (length (c.nonces ++ m ∷ [])))) [
    | inl long ↦
        shifted nonce n h.before h.after h.split h.room fits
          (ltb→lt nonce_lru_cap (length (c.nonces ++ m ∷ [])) long)
    | inr short ↦ record {
      before = h.before;
      after = h.after ++ m ∷ [];
      split =
          nonces-insert_short short
          ∙ ap (λ xs. xs ++ m ∷ []) h.split
          ∙ append_assoc h.before (nonce ∷ h.after) (m ∷ []);
      room = omega (arith, length-append h.after (m ∷ []), h.room);
    }
  ]

  drop_one :
      (xs : List Bytes)
      → nonce_lru_cap < length (xs ++ m ∷ [])
      → (kept : List Bytes) × (drop 1 (xs ++ m ∷ []) ≡ kept ++ m ∷ [])
  drop_one [] long = absurd (omega arith)
  drop_one (x ∷ xs) long = (xs, refl)

  pub insert-Kept_new : Kept m 0 (insert c m)
  insert-Kept_new = elim (Bool-cases (ltb nonce_lru_cap (length (c.nonces ++ m ∷ [])))) [
    | inl long ↦
        let (kept, q) =
          drop_one c.nonces (ltb→lt nonce_lru_cap (length (c.nonces ++ m ∷ [])) long) in
        record {
          before = kept;
          after = [];
          split = nonces-insert_long long ∙ q;
          room = omega arith;
        }
    | inr short ↦ record {
      before = c.nonces;
      after = [];
      split = nonces-insert_short short;
      room = omega arith;
    }
  ]
