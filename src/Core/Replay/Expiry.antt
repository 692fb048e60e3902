-- ===== src/Core/Replay/Expiry.antt =====
-- What the replay cache of crates/syauth-core/src/replay.rs keeps under a clock that does not run
-- backwards: the entries stay in order of time, within the capacity, with no nonce twice.
use syauth.Base.{
  ℕ, suc, ◌-◌, ◌≤◌, ◌<◌, Bool, false, ◌&&◌, Bytes, bytes_eq, List, [], ◌∷◌, ◌++◌, ltb, leb, lt→ltb,
  le→ltb-false, leb→le, ◌==◌, any, filter, length, if◌then◌else◌, ◌≡◌, refl, arith, Bool-cases, inl,
  inr, ap, ◌∙◌,
}
use syauth.Core.Replay.{fresh, replayed, Entry, ReplayCache, evict_expired, trim, admit, observe}

-- The times of the entries rise from `lo` to `hi`.
abbrev pub Rises : ℕ → List Entry → ℕ → Type 0
Rises lo [] hi = lo ≤ hi
Rises lo (e ∷ es) hi = (lo ≤ e.1) × Rises e.1 es hi

abbrev pub Absent : Bytes → List Entry → Type 0
Absent n [] = Unit
Absent n (e ∷ es) = (bytes_eq n e.0 ≡ false) × Absent n es

-- No nonce stands behind an equal one.
abbrev pub Distinct : List Entry → Type 0
Distinct [] = Unit
Distinct (e ∷ es) = Absent e.0 es × Distinct es

pub record IsWindow (c : ReplayCache) (now : ℕ) : Type 0 where
  pub ordered : Rises 0 c.entries now
  pub bounded : length c.entries ≤ c.cap
  pub distinct : Distinct c.entries

abbrev pub young : ℕ → ℕ → Entry → Bool
young ttl now e = ltb (now - e.1) ttl

Rises-mono :
    (es : List Entry) (lo lo' hi hi' : ℕ) → lo' ≤ lo → hi ≤ hi' → Rises lo es hi → Rises lo' es hi'
Rises-mono [] lo lo' hi hi' p q h = omega arith
Rises-mono (e ∷ es) lo lo' hi hi' p q h =
    (omega (arith, h.0), Rises-mono es e.1 e.1 hi hi' (omega arith) q h.1)

leb-false→lt : (a b : ℕ) → leb a b ≡ false → b < a
leb-false→lt a b h = ground arith

-- behind a young entry all are young
filter-young :
    (es : List Entry) (lo ttl now : ℕ)
    → now - lo < ttl
    → Rises lo es now
    → filter (young ttl now) es ≡ es
filter-young [] lo ttl now h r = refl
filter-young (e ∷ es) lo ttl now h r = rw (
  lt→ltb (now - e.1) ttl (omega (arith, r.0)),
  filter-young es e.1 ttl now (omega (arith, r.0)) r.1,
)

evict-eq-filter :
    (es : List Entry) (lo ttl now : ℕ)
    → Rises lo es now
    → evict_expired ttl now es ≡ filter (young ttl now) es
unfolding evict_expired
evict-eq-filter [] lo ttl now r = refl
evict-eq-filter (e ∷ es) lo ttl now r = elim (Bool-cases (leb ttl (now - e.1))) [
  | inl old ↦
      rw (old, le→ltb-false (now - e.1) ttl (leb→le ttl (now - e.1) old))
        (evict-eq-filter es e.1 ttl now r.1)
  | inr live ↦ rw (
    live,
    lt→ltb (now - e.1) ttl (leb-false→lt ttl (now - e.1) live),
    filter-young es e.1 ttl now (leb-false→lt ttl (now - e.1) live) r.1,
  )
]

any-filter :
    (n : Bytes) (ttl now : ℕ) (es : List Entry)
    → any (λ (x : Entry). bytes_eq x.0 n) (filter (young ttl now) es)
      ≡ any (λ (x : Entry). young ttl now x && bytes_eq x.0 n) es
any-filter n ttl now [] = refl
any-filter n ttl now (e ∷ es) = elim (Bool-cases (ltb (now - e.1) ttl)) [
  | inl h ↦ rw (h, any-filter n ttl now es)
  | inr h ↦ rw (h, any-filter n ttl now es)
]

evict-Rises :
    (es : List Entry) (lo ttl now : ℕ) → Rises lo es now → Rises lo (evict_expired ttl now es) now
unfolding evict_expired
evict-Rises [] lo ttl now r = r
evict-Rises (e ∷ es) lo ttl now r = elim (Bool-cases (leb ttl (now - e.1))) [
  | inl old ↦ rw old (
      Rises-mono (evict_expired ttl now es) e.1 lo now now r.0 (omega arith)
        (evict-Rises es e.1 ttl now r.1))
  | inr live ↦ rw live r
]

evict-Distinct : (es : List Entry) (ttl now : ℕ) → Distinct es → Distinct (evict_expired ttl now es)
unfolding evict_expired
evict-Distinct [] ttl now d = d
evict-Distinct (e ∷ es) ttl now d = elim (Bool-cases (leb ttl (now - e.1))) [
  | inl old ↦ rw old (evict-Distinct es ttl now d.1)
  | inr live ↦ rw live d
]

trim-Rises : (es : List Entry) (lo limit hi : ℕ) → Rises lo es hi → Rises lo (trim limit es) hi
unfolding trim
trim-Rises [] lo limit hi r = r
trim-Rises (e ∷ es) lo limit hi r = elim (Bool-cases (ltb limit (suc (length es)))) [
  | inl long ↦
      rw long
        (Rises-mono (trim limit es) e.1 lo hi hi r.0 (omega arith) (trim-Rises es e.1 limit hi r.1))
  | inr short ↦ rw short r
]

trim-Distinct : (es : List Entry) (limit : ℕ) → Distinct es → Distinct (trim limit es)
unfolding trim
trim-Distinct [] limit d = d
trim-Distinct (e ∷ es) limit d = elim (Bool-cases (ltb limit (suc (length es)))) [
  | inl long ↦ rw long (trim-Distinct es limit d.1)
  | inr short ↦ rw short d
]

length-trim-le : (es : List Entry) (limit : ℕ) → length (trim limit es) ≤ limit
unfolding trim
length-trim-le [] limit = omega arith
length-trim-le (e ∷ es) limit = ground (arith, length-trim-le es limit)

length-evict-le : (es : List Entry) (ttl now : ℕ) → length (evict_expired ttl now es) ≤ length es
unfolding evict_expired
length-evict-le [] ttl now = omega arith
length-evict-le (e ∷ es) ttl now = ground (arith, length-evict-le es ttl now)

Rises-push :
    (es : List Entry) (lo last now : ℕ) (n : Bytes)
    → last ≤ now
    → Rises lo es last
    → Rises lo (es ++ (n, now) ∷ []) now
Rises-push [] lo last now n p r = (omega arith, omega arith)
Rises-push (e ∷ es) lo last now n p r = (r.0, Rises-push es e.1 last now n p r.1)

Absent-push :
    (es : List Entry) (m n : Bytes) (t : ℕ)
    → Absent m es
    → bytes_eq m n ≡ false
    → Absent m (es ++ (n, t) ∷ [])
Absent-push [] m n t a ne = (ne, tt)
Absent-push (e ∷ es) m n t a ne = (a.0, Absent-push es m n t a.1 ne)

Distinct-push :
    (es : List Entry) (n : Bytes) (t : ℕ)
    → Distinct es
    → any (λ (x : Entry). bytes_eq x.0 n) es ≡ false
    → Distinct (es ++ (n, t) ∷ [])
Distinct-push [] n t d h = (tt, tt)
Distinct-push (e ∷ es) n t d h =
    (Absent-push es e.0 n t d.0 (ground arith), Distinct-push es n t d.1 (ground arith))

module _ (c : ReplayCache) (last now : ℕ) (later : last ≤ now) (w : IsWindow c last) where
  live : List Entry
  live = evict_expired c.ttl now c.entries

  live-Rises : Rises 0 live now
  unfolding live
  live-Rises =
      evict-Rises c.entries 0 c.ttl now
        (Rises-mono c.entries 0 0 last now (omega arith) later w.ordered)

  kept-IsWindow : IsWindow (record c { entries = live }) now
  unfolding live
  kept-IsWindow = record {
    ordered = live-Rises;
    bounded = omega (arith, length-evict-le c.entries c.ttl now, w.bounded);
    distinct = evict-Distinct c.entries c.ttl now w.distinct;
  }

  pushed-IsWindow :
      (n : Bytes)
      → any (λ (x : Entry). bytes_eq x.0 n) live ≡ false
      → IsWindow (record c { entries = trim c.cap (live ++ (n, now) ∷ []) }) now
  pushed-IsWindow n h = record {
    ordered =
        trim-Rises (live ++ (n, now) ∷ []) 0 c.cap now
          (Rises-push live 0 now now n (omega arith) live-Rises);
    bounded = length-trim-le (live ++ (n, now) ∷ []) c.cap;
    distinct =
        trim-Distinct (live ++ (n, now) ∷ []) c.cap
          (Distinct-push live n now kept-IsWindow.distinct h);
  }

  admit-IsWindow : (n : Bytes) → IsWindow (admit c live n now).1 now
  unfolding admit
  admit-IsWindow n = elim (Bool-cases (any (λ (x : Entry). bytes_eq x.0 n) live)) [
    | inl h ↦ rw h kept-IsWindow
    | inr h ↦ elim (Bool-cases (c.cap == 0)) [
      | inl z ↦ rw (h, z) kept-IsWindow
      | inr nz ↦ rw (h, nz) (pushed-IsWindow n h)
    ]
  ]

  -- Under a clock that does not run backwards an observation keeps the cache within its capacity, in
  -- order of time, and without two entries for one nonce.
  pub observe-IsWindow : (nonce : Bytes) → IsWindow (observe c nonce now).1 now
  unfolding observe live
  observe-IsWindow nonce = admit-IsWindow nonce

  verdict-admit :
      (n : Bytes)
      → (admit c live n now).0
        ≡ (if any (λ (x : Entry). bytes_eq x.0 n) live then replayed else fresh)
  unfolding admit
  verdict-admit n = ground arith

  -- Under such a clock the verdict is `Replayed` exactly when the cache has an entry for the nonce that
  -- is younger than the time to live.
  pub verdict-observe :
      (nonce : Bytes)
      → (observe c nonce now).0 ≡ (
          if any (λ (x : Entry). young c.ttl now x && bytes_eq x.0 nonce) c.entries
          then replayed
          else fresh)
  unfolding observe live
  verdict-observe nonce =
      verdict-admit nonce
      ∙ ap (λ (b : Bool). if b then replayed else fresh)
          (ap (any (λ (x : Entry). bytes_eq x.0 nonce)) (
              evict-eq-filter c.entries 0 c.ttl now
                (Rises-mono c.entries 0 0 last now (omega arith) later w.ordered))
            ∙ any-filter nonce c.ttl now c.entries)
