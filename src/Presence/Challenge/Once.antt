-- ===== src/Presence/Challenge/Once.antt =====
-- One nonce is not granted twice by crates/syauth-presenced/src/orchestrator.rs.
use syauth.Base.{
  ℕ, ◌+◌, ◌<◌, Bool, true, false, ◌&&◌, Bytes, bytes_eq, eq_of-bytes_eq, Text, get, List, [], ◌∷◌,
  some, if◌then◌else◌, ◌≡◌, ◌≢◌, sym, ap, ◌∙◌, subst, arith, Bool-cases, inl, inr,
}
use syauth.Core.Crypto.{Primitives}
use syauth.Presence.Nonces.{NonceCache, contains, insert, nonce_lru_cap}
use syauth.Presence.Nonces.Kept.{Kept, contains-Kept, insert-Kept, insert-Kept_new}
use syauth.Presence.Peers.{Orchestrator, PeerEntry}
use syauth.Presence.Challenge.{ChallengeOutcome, ok_signature, Answers, issue_challenge}
use syauth.Presence.Challenge.Verdict.{is_ok}
use syauth.Presence.Challenge.Effect.{Effect, issue_challenge-Effect}
use syauth.Presence.Challenge.Grant.{Granted, issue_challenge-Granted}

-- A history of calls, the number of those that granted one peer, and the daemon after it.
pub record Call : Type 0 where
  pub answers : Answers
  pub peer_id : Text
  pub deadline : ℕ

abbrev pub grants : Text → Call → ChallengeOutcome → ℕ
grants id c outcome = if bytes_eq c.peer_id id && is_ok outcome then 1 else 0

module _ (p : Primitives) where
  unfoldable pub issue_all : Text → List Call → Orchestrator → ℕ × Orchestrator
  issue_all id [] o = (0, o)
  issue_all id (c ∷ cs) o =
      let (outcome, o') = issue_challenge p c.answers c.peer_id c.deadline o in
      let (n, o'') = issue_all id cs o' in (grants id c outcome + n, o'')

  -- The peer is registered, with the nonce among the last of its cache.
  pub record Seen (id : Text) (nonce : Bytes) (n : ℕ) (o : Orchestrator) : Type 0 where
    pub entry : PeerEntry
    pub registered : get id o.peers ≡ some entry
    pub kept : Kept nonce n entry.nonce_cache

  Kept-step :
      (nonce m : Bytes) (b : Bool) (n : ℕ) (c : NonceCache)
      → Kept nonce n c
      → n + (if b then 1 else 0) < nonce_lru_cap
      → Kept nonce (n + (if b then 1 else 0)) (if b then insert c m else c)
  Kept-step nonce m true n c k fits =
      subst (λ l. Kept nonce l (insert c m)) (omega arith) (insert-Kept c m nonce n k (omega arith))
  Kept-step nonce m false n c k fits = subst (λ l. Kept nonce l c) (omega arith) k

  module _ (id : Text) (nonce : Bytes) (n : ℕ) (c : Call) (o : Orchestrator)
      (s : Seen id nonce n o) where
    abbrev after : ChallengeOutcome × Orchestrator
    after = issue_challenge p c.answers c.peer_id c.deadline o

    effect : Effect p c.answers c.peer_id c.deadline o after.0 after.1
    effect = issue_challenge-Effect p c.answers c.peer_id c.deadline o

    other_peer : bytes_eq c.peer_id id ≡ false → Seen id nonce (n + grants id c after.0) after.1
    other_peer h = record {
      entry = s.entry;
      registered = effect.others id h ∙ s.registered;
      kept = subst (λ l. Kept nonce l s.entry.nonce_cache) (rw h (omega arith)) s.kept;
    }

    this_peer :
        bytes_eq c.peer_id id ≡ true
        → n + grants id c after.0 < nonce_lru_cap
        → Seen id nonce (n + grants id c after.0) after.1
    this_peer h fits =
        let same = eq_of-bytes_eq c.peer_id id h in
        let (e, there, cache) =
          effect.own s.entry (ap (λ (t : Text). get t o.peers) same ∙ s.registered) in
        record {
          entry = e;
          registered = ap (λ (t : Text). get t after.1.peers) (sym same) ∙ there;
          kept = rw h (
              subst (λ (x : NonceCache). Kept nonce (n + (if is_ok after.0 then 1 else 0)) x)
                (sym cache)
                (Kept-step nonce effect.nonce (is_ok after.0) n s.entry.nonce_cache s.kept
                  (rw h at fits)));
        }

    Seen-step :
        n + grants id c after.0 < nonce_lru_cap → Seen id nonce (n + grants id c after.0) after.1
    Seen-step fits = elim (Bool-cases (bytes_eq c.peer_id id)) [
      | inl h ↦ this_peer h fits
      | inr h ↦ other_peer h
    ]

  Seen-all :
      (id : Text) (nonce : Bytes) (n : ℕ) (cs : List Call) (o : Orchestrator)
      → Seen id nonce n o
      → n + (issue_all id cs o).0 < nonce_lru_cap
      → Seen id nonce (n + (issue_all id cs o).0) (issue_all id cs o).1
  unfolding issue_all
  Seen-all id nonce n [] o s fits = subst (λ l. Seen id nonce l o) (omega arith) s
  Seen-all id nonce n (c ∷ cs) o s fits =
      let (outcome, o') = issue_challenge p c.answers c.peer_id c.deadline o in
      let more = (issue_all id cs o').0 in
      let step = Seen-step id nonce n c o s (omega arith) in
      subst (λ l. Seen id nonce l (issue_all id cs o').1) (omega arith)
        (Seen-all id nonce (n + grants id c outcome) cs o' step (omega arith))

  -- the state right after a grant
  Seen-first :
      (a : Answers) (id : Text) (d : ℕ) (o : Orchestrator) (s nonce : Bytes)
      → (issue_challenge p a id d o).0 ≡ ok_signature s
      → a.fill ≡ some nonce
      → Seen id nonce 0 (issue_challenge p a id d o).1
  Seen-first a id d o s nonce q n =
      let g = (issue_challenge-Granted p a id d o s).0 q in
      let f = issue_challenge-Effect p a id d o in
      let (e, there, cache) = f.own g.entry g.registered in
      record {
        entry = e;
        registered = there;
        kept =
            subst (λ (c : NonceCache). Kept nonce 0 c) (sym (cache ∙ granted_cache f g))
              (insert-Kept_new g.entry.nonce_cache nonce);
      }
    where
      same_nonce : {x y : Bytes} → some x ≡ some y → x ≡ y
      same_nonce h = cc

      granted_cache :
          (f : Effect p a id d o (issue_challenge p a id d o).0 (issue_challenge p a id d o).1)
          (g : Granted p a id d o s)
          → (if is_ok (issue_challenge p a id d o).0
              then insert g.entry.nonce_cache f.nonce
              else g.entry.nonce_cache)
            ≡ insert g.entry.nonce_cache nonce
      granted_cache f g =
          let yes = ap is_ok q in
          ap (λ (b : Bool). if b then insert g.entry.nonce_cache f.nonce else g.entry.nonce_cache)
            yes
          ∙ ap (insert g.entry.nonce_cache) (same_nonce (sym (f.drawn yes) ∙ n))

  -- A nonce that the daemon has granted for a peer is not granted for it again, whatever is called in
  -- between for any peers, as long as fewer than 64 of those calls granted that peer.
  pub issue_challenge_once :
      (a : Answers) (id : Text) (d : ℕ) (o : Orchestrator) (s nonce : Bytes) (cs : List Call)
      (a' : Answers) (d' : ℕ) (s' : Bytes)
      → (issue_challenge p a id d o).0 ≡ ok_signature s
      → a.fill ≡ some nonce
      → (issue_all id cs (issue_challenge p a id d o).1).0 < nonce_lru_cap
      → a'.fill ≡ some nonce
      → (issue_challenge p a' id d' (issue_all id cs (issue_challenge p a id d o).1).1).0
        ≢ ok_signature s'
  issue_challenge_once a id d o s nonce cs a' d' s' q n few n' q' =
      let o' = (issue_challenge p a id d o).1 in
      let seen = Seen-all id nonce 0 cs o' (Seen-first a id d o s nonce q n) (omega arith) in
      let g = (issue_challenge-Granted p a' id d' (issue_all id cs o').1 s').0 q' in
      false≢true_cache seen.entry g.entry g.nonce (sym seen.registered ∙ g.registered)
        (sym n' ∙ g.drawn)
        (contains-Kept nonce (0 + (issue_all id cs o').0) seen.entry.nonce_cache seen.kept)
        g.accepted.unseen
    where
      false≢true_cache :
          (x y : PeerEntry) (m : Bytes)
          → some x ≡ some y
          → some nonce ≡ some m
          → contains x.nonce_cache nonce ≡ true
          → contains y.nonce_cache m ≢ false
      false≢true_cache x y m e f seen unseen = cc
