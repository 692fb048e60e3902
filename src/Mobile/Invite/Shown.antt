-- ===== src/Mobile/Invite/Shown.antt =====
-- What every invite that `parse_invite_uri` (crates/syauth-mobile/src/implementation.rs) gives has.
use syauth.Base.{
  false, Bytes, Text, text, List, [], ◌∷◌, Option, none, some, Result, ok, err, ◌==◌, ==_iff,
  length, bytes_eq, strip_prefix, ◌≡◌, ◌≢◌, refl, subst, Bool-cases, Result-cases, inl, inr,
}
use syauth.Mobile.{MobileError}
use syauth.Mobile.Invite.{
  Invite, invite_query_key_host, invite_query_key_pubkey, split_ampersand, key_value, Found,
  take_pair, collect_pairs, with_pubkey, finish_invite, parse_query, parse_path, parse_invite_uri,
}

-- the host name that the loop has found is not empty
abbrev Named : Found → Type 0
Named f = (host : Text) → f.0 ≡ some host → host ≢ []

abbrev AreNamed : Result Found MobileError → Type 0
AreNamed r = (f : Found) → r ≡ ok f → Named f

same_found : {f g : Found} → ◌≡◌ {A = Result Found MobileError} (ok f) (ok g) → f ≡ g
same_found h = cc

no_found : {e : MobileError} {f : Found} → ◌≢◌ {A = Result Found MobileError} (err e) (ok f)
no_found h = cc

some_text : {x y : Text} → some x ≡ some y → x ≡ y
some_text h = cc

empty_eq : (v : Text) → bytes_eq v [] ≡ false → v ≢ []
unfolding bytes_eq
empty_eq [] h = cc
empty_eq (c ∷ cs) h = λ q. cc

pair-AreNamed : (key value : Text) (f : Found) → Named f → AreNamed (take_pair (key, value) f)
unfolding take_pair
pair-AreNamed key value (name, hex) n = elim (Bool-cases (bytes_eq key invite_query_key_host)) [
  | inl h ↦ elim (Bool-cases (bytes_eq value [])) [
    | inl e ↦ rw (h, e) (λ g q. absurd (no_found q))
    | inr e ↦
        rw (h, e)
          (λ g q.
            subst Named (same_found q)
              (λ host s. subst (λ (t : Text). t ≢ []) (some_text s) (empty_eq value e)))
  ]
  | inr h ↦ elim (Bool-cases (bytes_eq key invite_query_key_pubkey)) [
    | inl k ↦ rw (h, k) (λ g q. subst Named (same_found q) n)
    | inr k ↦ rw (h, k) (λ g q. subst Named (same_found q) n)
  ]
]

collect-AreNamed : (ps : List Text) (f : Found) → Named f → AreNamed (collect_pairs ps f)
unfolding collect_pairs
collect-AreNamed [] f n = λ g q. subst Named (same_found q) n
collect-AreNamed ([] ∷ ps) f n = collect-AreNamed ps f n
collect-AreNamed ((c ∷ cs) ∷ ps) f n =
    let pair = key_value (c ∷ cs) in
    elim (Result-cases (take_pair pair f)) [
      | inl (e, q) ↦ rw (q, collect_pairs) (λ g r. absurd (no_found r))
      | inr (g, q) ↦
          rw (q, collect_pairs) (collect-AreNamed ps g (pair-AreNamed pair.0 pair.1 f n g q))
    ]

no_invite : {i : Invite} {e : MobileError} → ◌≢◌ {A = Result Invite MobileError} (err e) (ok i)
no_invite h = cc

same_invite : {i j : Invite} → ◌≡◌ {A = Result Invite MobileError} (ok i) (ok j) → i ≡ j
same_invite h = cc

module _ (hex_decode : Text → Option Bytes) where
  abbrev pub IsShown : Invite → Type 0
  IsShown i = (length i.host_pubkey ≡ 32) × (i.host_name ≢ [])

  key-IsShown :
      (host : Text) (key : Option Bytes) (i : Invite)
      → host ≢ []
      → with_pubkey hex_decode host key ≡ ok i
      → IsShown i
  key-IsShown host none i n h = absurd (no_invite h)
  key-IsShown host (some key) i n h = elim (Bool-cases (length key == 32)) [
    | inl w ↦ subst IsShown (same_invite (rw w at h)) ((==_iff (length key) 32).0 w, n)
    | inr w ↦ absurd (no_invite (rw w at h))
  ]

  finish-IsShown :
      (r : Result Found MobileError) (i : Invite)
      → AreNamed r
      → finish_invite hex_decode r ≡ ok i
      → IsShown i
  unfolding finish_invite
  finish-IsShown (err e) i n h = absurd (no_invite h)
  finish-IsShown (ok (none, hex)) i n h = absurd (no_invite h)
  finish-IsShown (ok (some host, none)) i n h = absurd (no_invite h)
  finish-IsShown (ok (some host, some hex)) i n h =
      key-IsShown host (hex_decode hex) i (n (some host, some hex) refl host refl) h

  query-IsShown :
      (query : Option Text) (i : Invite) → parse_query hex_decode query ≡ ok i → IsShown i
  query-IsShown none i h = absurd (no_invite h)
  query-IsShown (some query) i h =
      finish-IsShown (collect_pairs (split_ampersand query) (none, none)) i
        (collect-AreNamed (split_ampersand query) (none, none) (λ host q. cc)) h

  path-IsShown : (rest : Option Text) (i : Invite) → parse_path hex_decode rest ≡ ok i → IsShown i
  path-IsShown none i h = absurd (no_invite h)
  path-IsShown (some rest) i h = query-IsShown (strip_prefix (text "invite?") rest) i h

  -- An invite that was read has a host name that is not empty and a key of 32 bytes, whatever the link.
  pub parse_invite_uri-IsShown :
      (uri : Text) (i : Invite) → parse_invite_uri hex_decode uri ≡ ok i → IsShown i
  unfolding parse_invite_uri
  parse_invite_uri-IsShown uri i h = path-IsShown (strip_prefix (text "syauth://") uri) i h
