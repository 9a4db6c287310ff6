-- ===== src/Kernel/Tokens/Admits.antt =====
-- Which tokens the relay takes.
use stross.Base.{
  ◌≡◌, ap, ◌∙◌, ℕ, ◌<◌, true, false, not, List, Option, some, arith, Bool-cases, inl, inr, ltb, sym,
}
use mathlib.Core.Logic.{ite, ◌↔◌}
use stross.Base.Keyed
use stross.Base.Keyed.{lookup-insert}
use stross.Base.Result.{ok}
use stross.Proto.Message.{Text, Text-discrete}
use stross.Proto.Ids.{MediaKind}
use stross.Relay.{RelayState, ShareToken, is_allowed, token_allows, is_expired, set_token_validator}
use stross.Kernel.Types.{Kernel}
use stross.Kernel.Sessions.{has_session}
use stross.Kernel.Tokens.{
  verify_share_token, validate, relay_at, create_share_token, new_token, retain_unexpired,
  ShareToken-discrete,
}

validate-stored :
    (k : Kernel) (now : ℕ) (t stored : ShareToken)
    → Keyed.lookup Text-discrete t.stream_id k.share_tokens ≡ some stored
    → validate k now t ≡ ite (ShareToken-discrete stored t) (not (is_expired stored now)) false
unfolding validate verify_share_token
validate-stored k now t stored e = ground (arith, e)

stored-create :
    (k k' : Kernel) (id : Text) (media : List MediaKind) (ttl now : ℕ) (pin : Text) (t : ShareToken)
    → create_share_token k id media ttl now pin ≡ ok (k', t)
    → (Keyed.lookup Text-discrete id k'.share_tokens ≡ some t) × (t.stream_id ≡ id)
unfolding create_share_token new_token
stored-create k k' id media ttl now pin t e = elim (Bool-cases (has_session k id)) [
  | inl there ↦ ground (
    arith,
    e,
    there,
    lookup-insert Text-discrete id id (new_token id media ttl now pin)
        (retain_unexpired now k.share_tokens),
  )
  | inr missing ↦ absurd (ground (arith, e, missing))
]

module _ (from_token_string : Text → Option ShareToken) where
  allowed-shown :
      (k : Kernel) (now : ℕ) (r : RelayState) (id text : Text) (shown stored : ShareToken)
      → Keyed.lookup Text-discrete id k.share_tokens ≡ some stored
      → from_token_string text ≡ some shown
      → is_allowed from_token_string (relay_at k now r) id (some text) false
        ≡ ite
            (Text-discrete shown.stream_id id)
            (ite (ShareToken-discrete stored shown) (ltb now stored.expires_at) false)
            false
  unfolding is_allowed token_allows relay_at set_token_validator is_expired
  allowed-shown k now r id text shown stored kept read = elim (Text-discrete shown.stream_id id) [
    | yes same ↦ ground (
      arith,
      read,
      same,
      validate-stored k now shown stored
          (ap (λ i. Keyed.lookup Text-discrete i k.share_tokens) same ∙ kept),
    )
    | no other ↦ ground (arith, read, other)
  ]

  -- After a token `t` was issued for a session, a client that is not local and shows the text of a
  -- token `shown` is let in for the session's stream exactly while the token is unexpired and if what
  -- it shows is `t` itself, every field of it. A token issued earlier for the session no longer
  -- serves.
  pub create_share_token-admits :
      (k k' : Kernel) (id : Text) (media : List MediaKind) (ttl now : ℕ) (pin : Text)
      (t : ShareToken) (r : RelayState) (later : ℕ) (text : Text) (shown : ShareToken)
      → create_share_token k id media ttl now pin ≡ ok (k', t)
      → from_token_string text ≡ some shown
      → (is_allowed from_token_string (relay_at k' later r) id (some text) false ≡ true)
        ↔ ((shown ≡ t) × (later < t.expires_at))
  create_share_token-admits k k' id media ttl now pin t r later text shown made read =
      let (kept, own) = stored-create k k' id media ttl now pin t made in
      let answer = allowed-shown k' later r id text shown t kept read in
      (
        λ let_in. elim (Text-discrete shown.stream_id id) [
          | yes same ↦ elim (ShareToken-discrete t shown) [
            | yes equal ↦ (sym equal, ground (arith, answer, let_in, same, equal))
            | no other ↦ absurd (ground (arith, answer, let_in, same, other))
          ]
          | no other ↦ absurd (ground (arith, answer, let_in, other))
        ],
        λ (equal, early).
            ground
              (arith, answer, ap (λ (x : ShareToken). x.stream_id) equal, own, sym equal, early),
      )
