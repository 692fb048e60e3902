-- ===== src/Core/Replay.antt =====
-- crates/syauth-core/src/replay.rs: the sliding replay cache of response nonces. An `Instant` and a
-- `Duration` are counts of one unit, and `saturating_duration_since` is the subtraction that stops
-- at 0.
pub mod Window
pub mod Expiry
use syauth.Base.{
  ℕ, suc, ◌+◌, ◌-◌, Bytes, bytes_eq, List, [], ◌∷◌, ◌++◌, ltb, leb, ◌==◌, any, length,
  if◌then◌else◌,
}

abbrev pub default_replay_cap : ℕ
default_replay_cap = 64

-- ten seconds, in milliseconds
abbrev pub default_replay_ttl : ℕ
default_replay_ttl = 10000

pub data Acceptance : Type 0 where
  fresh replayed : Acceptance

abbrev pub Entry : Type 0
Entry = Bytes × ℕ

pub record ReplayCache : Type 0 where
  pub cap : ℕ
  pub ttl : ℕ
  pub entries : List Entry

unfoldable pub new : ℕ → ℕ → ReplayCache
new cap ttl = record { cap = cap; ttl = ttl; entries = [] }

-- the loop of `evict_expired`: it stops at the first entry that is young enough
unfoldable pub evict_expired : ℕ → ℕ → List Entry → List Entry
evict_expired ttl now [] = []
evict_expired ttl now (e ∷ es) = if leb ttl (now - e.1) then evict_expired ttl now es else e ∷ es

-- `while self.entries.len() > self.cap { pop_front }`
unfoldable pub trim : ℕ → List Entry → List Entry
trim limit [] = []
trim limit (e ∷ es) = if ltb limit (suc (length es)) then trim limit es else e ∷ es

-- `observe` after the eviction, on the entries that are left
unfoldable pub admit : ReplayCache → List Entry → Bytes → ℕ → Acceptance × ReplayCache
admit c live nonce now =
    if any (λ e. bytes_eq e.0 nonce) live
    then (replayed, record c { entries = live })
    else if c.cap == 0
    then (fresh, record c { entries = live })
    else (fresh, record c { entries = trim c.cap (live ++ (nonce, now) ∷ []) })

unfoldable pub observe : ReplayCache → Bytes → ℕ → Acceptance × ReplayCache
unfolding admit
observe c nonce now = admit c (evict_expired c.ttl now c.entries) nonce now

-- A history of observations: how many of them were fresh, and the cache after it.
abbrev pub weight : Acceptance → ℕ
weight fresh = 1
weight replayed = 0

unfoldable pub observe_all : ReplayCache → List Entry → ℕ × ReplayCache
observe_all c [] = (0, c)
observe_all c ((nonce, now) ∷ os) =
    let (verdict, c') = observe c nonce now in
    let (n, c'') = observe_all c' os in (weight verdict + n, c'')
