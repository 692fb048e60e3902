-- ===== src/Mobile/Invite/Links.antt =====
-- Which links `parse_invite_uri` (crates/syauth-mobile/src/implementation.rs) takes.
use syauth.Base.{
  ℕ, false, any, Bytes, Text, text, List, [], ◌∷◌, ◌++◌, Option, none, some, ok, ◌==◌, length,
  bytes_eq, strip_prefix, ◌≡◌, ◌≢◌, refl, ap, ◌∙◌, arith,
}
use syauth.Mobile.Invite.{
  split_ampersand, key_value, take_pair, collect_pairs, finish_invite, parse_invite_uri,
}

abbrev pub IsPlain : Text → Type 0
IsPlain t = any (λ (c : ℕ). c == b'&') t ≡ false

split-plain : (t : Text) → IsPlain t → split_ampersand t ≡ t ∷ []
unfolding split_ampersand
split-plain [] h = refl
split-plain (c ∷ cs) h = ground (arith, split-plain cs)

split-append : (t u : Text) → IsPlain t → split_ampersand (t ++ b'&' ∷ u) ≡ t ∷ split_ampersand u
unfolding split_ampersand
split-append [] u h = refl
split-append (c ∷ cs) u h = ground (arith, split-append cs u)

abbrev pub invite_uri : Text → Text → Text
invite_uri host hex =
    text "syauth://invite?" ++ (text "host=" ++ (host ++ (text "&pubkey=" ++ hex)))

invite_pairs :
    (host hex : Text)
    → IsPlain host
    → IsPlain hex
    → split_ampersand (text "host=" ++ (host ++ (text "&pubkey=" ++ hex)))
      ≡ (text "host=" ++ host) ∷ (text "pubkey=" ++ hex) ∷ []
invite_pairs host hex a b =
    split-append (text "host=" ++ host) (text "pubkey=" ++ hex) a
    ∙ ap (λ (ts : List Text). (text "host=" ++ host) ∷ ts) (split-plain (text "pubkey=" ++ hex) b)

pairs_taken :
    (c : ℕ) (host hex : Text)
    → collect_pairs ((text "host=" ++ (c ∷ host)) ∷ (text "pubkey=" ++ hex) ∷ []) (none, none)
      ≡ ok (some (c ∷ host), some hex)
unfolding collect_pairs take_pair key_value bytes_eq
pairs_taken c host hex = refl

module _ (hex_decode : Text → Option Bytes) where
  -- The link with a host name that is not empty and a key in hexadecimal, neither with an ampersand,
  -- gives them back, where the key decodes to 32 bytes.
  pub parse_invite_uri-invite_uri :
      (host hex : Text) (key : Bytes)
      → IsPlain host
      → IsPlain hex
      → host ≢ []
      → hex_decode hex ≡ some key
      → length key ≡ 32
      → parse_invite_uri hex_decode (invite_uri host hex)
        ≡ ok (record { host_name = host; host_pubkey = key })
  unfolding parse_invite_uri finish_invite strip_prefix
  parse_invite_uri-invite_uri [] hex key a b n d w = absurd (n refl)
  parse_invite_uri-invite_uri (c ∷ host) hex key a b n d w =
      ap (λ (ps : List Text). finish_invite hex_decode (collect_pairs ps (none, none)))
        (invite_pairs (c ∷ host) hex a b)
      ∙ ap (finish_invite hex_decode) (pairs_taken c host hex)
      ∙ rw (d, w) refl
