-- ===== src/Core/Replay/Window.antt =====
-- A nonce stays in the replay cache of crates/syauth-core/src/replay.rs for its time to live, unless
-- as many fresh nonces as the cache holds came after it.
use syauth.Base.{
  ℕ, suc, ◌+◌, ◌-◌, ◌≤◌, ◌<◌, true, false, Bytes, bytes_eq, bytes_eq_refl, List, [], ◌∷◌, ◌++◌, ltb,
  leb, ◌==◌, any, length, length-append, ◌≡◌, refl, arith, Bool-cases, inl, inr, le→ltb-false, ◌≢◌,
  ◌∙◌,
}
use mathlib.Core.List.{append_assoc}
use syauth.Core.Replay.{
  fresh, replayed, Entry, ReplayCache, evict_expired, trim, admit, observe, observe_all, weight,
}

-- The entry stands in the cache with at most `n` entries behind it.
pub record Held (e : Entry) (n : ℕ) (es : List Entry) : Type 0 where
  pub before : List Entry
  pub after : List Entry
  pub split : es ≡ before ++ e ∷ after
  pub room : length after ≤ n

lt→leb-false : (a b : ℕ) → b < a → leb a b ≡ false
lt→leb-false a b h = ground arith

positive_ne : (n : ℕ) → 0 < n → (n == 0) ≡ false
positive_ne n h = ground arith

widen : {e : Entry} {es : List Entry} (k l : ℕ) → k ≤ l → Held e k es → Held e l es
widen k l le h = record {
  before = h.before;
  after = h.after;
  split = h.split;
  room = omega (arith, h.room);
}

evict_held :
    (ttl now : ℕ) (e : Entry) (before after : List Entry)
    → now - e.1 < ttl
    → (kept : List Entry) × (evict_expired ttl now (before ++ e ∷ after) ≡ kept ++ e ∷ after)
unfolding evict_expired
evict_held ttl now e [] after h = ([], rw (lt→leb-false ttl (now - e.1) h))
evict_held ttl now e (b ∷ before) after h = elim (Bool-cases (leb ttl (now - b.1))) [
  | inl old ↦ rw old (evict_held ttl now e before after h)
  | inr young ↦ (b ∷ before, rw young)
]

trim_held :
    (limit : ℕ) (e : Entry) (before after : List Entry)
    → length after < limit
    → (kept : List Entry) × (trim limit (before ++ e ∷ after) ≡ kept ++ e ∷ after)
unfolding trim
trim_held limit e [] after h = ([], rw (le→ltb-false limit (suc (length after)) h))
trim_held limit e (b ∷ before) after h =
    elim (Bool-cases (ltb limit (suc (length (before ++ e ∷ after))))) [
      | inl long ↦ rw long (trim_held limit e before after h)
      | inr short ↦ (b ∷ before, rw short)
    ]

any_held :
    (n : Bytes) (t : ℕ) (before after : List Entry)
    → any (λ (x : Entry). bytes_eq x.0 n) (before ++ (n, t) ∷ after) ≡ true
any_held n t [] after = rw (bytes_eq_refl n)
any_held n t (b ∷ before) after = elim (Bool-cases (bytes_eq b.0 n)) [
  | inl e ↦ rw e
  | inr e ↦ rw (e, any_held n t before after)
]

cap-observe : (c : ReplayCache) (n : Bytes) (s : ℕ) → (observe c n s).1.cap ≡ c.cap
unfolding observe
cap-observe c n s = ground arith

ttl-observe : (c : ReplayCache) (n : Bytes) (s : ℕ) → (observe c n s).1.ttl ≡ c.ttl
unfolding observe
ttl-observe c n s = ground arith

replayed≢fresh : replayed ≢ fresh
replayed≢fresh e = cc

module _ (c : ReplayCache) (live : List Entry) (m : Bytes) (s : ℕ) where
  admit_seen :
      any (λ (x : Entry). bytes_eq x.0 m) live ≡ true
      → admit c live m s ≡ (replayed, record c { entries = live })
  unfolding admit
  admit_seen h = rw h

  admit_new :
      any (λ (x : Entry). bytes_eq x.0 m) live ≡ false
      → 0 < c.cap
      → admit c live m s ≡ (fresh, record c { entries = trim c.cap (live ++ (m, s) ∷ []) })
  unfolding admit
  admit_new h pos = rw (h, positive_ne c.cap pos)

  pushed-Held :
      (e : Entry) (before after : List Entry) (k : ℕ)
      → live ≡ before ++ e ∷ after
      → length after ≤ k
      → k + 1 < c.cap
      → Held e (k + 1) (trim c.cap (live ++ (m, s) ∷ []))
  pushed-Held e before after k p room fits =
      let (kept, q) =
        trim_held c.cap e before (after ++ (m, s) ∷ [])
          (omega (arith, length-append after ((m, s) ∷ []))) in
      record {
        before = kept;
        after = after ++ (m, s) ∷ [];
        split = rw (p, append_assoc before (e ∷ after) ((m, s) ∷ [])) q;
        room = omega (arith, length-append after ((m, s) ∷ []));
      }

  -- An entry that the eviction left stays through the three branches.
  admit-Held :
      (e : Entry) (before after : List Entry) (k : ℕ)
      → live ≡ before ++ e ∷ after
      → length after ≤ k
      → k + weight (admit c live m s).0 < c.cap
      → Held e (k + weight (admit c live m s).0) (admit c live m s).1.entries
  admit-Held e before after k p room fits =
      elim (Bool-cases (any (λ (x : Entry). bytes_eq x.0 m) live)) [
        | inl h ↦
            rw (admit_seen h)
              (record { before = before; after = after; split = p; room = omega arith })
        | inr h ↦
            rw (admit_new h (omega arith))
              (pushed-Held e before after k p room (rw (admit_new h (omega arith)) at fits))
      ]

observe-Held :
    (c : ReplayCache) (m : Bytes) (s : ℕ) (e : Entry) (k : ℕ)
    → Held e k c.entries
    → s - e.1 < c.ttl
    → k + weight (observe c m s).0 < c.cap
    → Held e (k + weight (observe c m s).0) (observe c m s).1.entries
unfolding observe
observe-Held c m s e k h young fits =
    let (kept, q) = evict_held c.ttl s e h.before h.after young in
    admit-Held c (evict_expired c.ttl s c.entries) m s e kept h.after k (rw h.split q) h.room fits

-- Every observation of the history was made by the time `now`.
abbrev pub By : ℕ → List Entry → Type 0
By now [] = Unit
By now (o ∷ os) = (o.1 ≤ now) × By now os

run-Held :
    (os : List Entry) (c : ReplayCache) (e : Entry) (k now : ℕ)
    → Held e k c.entries
    → By now os
    → now - e.1 < c.ttl
    → k + (observe_all c os).0 < c.cap
    → Held e (k + (observe_all c os).0) (observe_all c os).1.entries
      × ((observe_all c os).1.ttl ≡ c.ttl)
unfolding observe_all
run-Held [] c e k now h by young fits = (widen k (k + 0) (omega arith) h, refl)
run-Held ((m, s) ∷ os) c e k now h by young fits =
    let step = observe-Held c m s e k h (omega (arith, by.0)) (omega arith) in
    let (held, same) =
      run-Held os (observe c m s).1 e (k + weight (observe c m s).0) now step by.1
        (omega (arith, ttl-observe c m s)) (omega (arith, cap-observe c m s)) in
    (
      widen (k + weight (observe c m s).0 + (observe_all (observe c m s).1 os).0)
          (k + (weight (observe c m s).0 + (observe_all (observe c m s).1 os).0)) (omega arith)
          held,
      same ∙ ttl-observe c m s,
    )

admitted :
    (c : ReplayCache) (live : List Entry) (n : Bytes) (t : ℕ)
    → (admit c live n t).0 ≡ fresh
    → 0 < c.cap
    → Held (n, t) 0 (admit c live n t).1.entries
admitted c live n t verdict pos = elim (Bool-cases (any (λ (x : Entry). bytes_eq x.0 n) live)) [
  | inl h ↦ absurd (replayed≢fresh (rw (admit_seen c live n t h) at verdict))
  | inr h ↦ rw (admit_new c live n t h pos) (
      let (kept, q) = trim_held c.cap (n, t) live [] pos in
      record { before = kept; after = []; split = q; room = omega arith })
]

fresh-Held :
    (c : ReplayCache) (n : Bytes) (t : ℕ)
    → (observe c n t).0 ≡ fresh
    → 0 < c.cap
    → Held (n, t) 0 (observe c n t).1.entries
unfolding observe
fresh-Held c n t verdict pos = admitted c (evict_expired c.ttl t c.entries) n t verdict pos

Held-replayed :
    (c : ReplayCache) (n : Bytes) (t k now : ℕ)
    → Held (n, t) k c.entries
    → now - t < c.ttl
    → (observe c n now).0 ≡ replayed
unfolding observe
Held-replayed c n t k now h young =
    let (kept, q) = evict_held c.ttl now (n, t) h.before h.after young in
    rw (h.split, q, admit_seen c (kept ++ (n, t) ∷ h.after) n now (any_held n t kept h.after))

-- Once the cache has answered `Fresh` for a nonce, it answers `Replayed` for it at every time within
-- the time to live, whatever was observed in between up to that time, as long as fewer fresh nonces
-- than the capacity came in between.
pub observe-window :
    (c : ReplayCache) (nonce : Bytes) (t : ℕ) (os : List Entry) (now : ℕ)
    → (observe c nonce t).0 ≡ fresh
    → By now os
    → now - t < c.ttl
    → (observe_all (observe c nonce t).1 os).0 < c.cap
    → (observe (observe_all (observe c nonce t).1 os).1 nonce now).0 ≡ replayed
observe-window c nonce t os now verdict by young fits =
    let (held, same) =
      run-Held os (observe c nonce t).1 (nonce, t) 0 now
        (fresh-Held c nonce t verdict (omega arith)) by (omega (arith, ttl-observe c nonce t))
        (omega (arith, cap-observe c nonce t)) in
    Held-replayed (observe_all (observe c nonce t).1 os).1 nonce t
      (0 + (observe_all (observe c nonce t).1 os).0) now held
      (omega (arith, same, ttl-observe c nonce t))
