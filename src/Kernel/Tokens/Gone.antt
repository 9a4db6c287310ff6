-- ===== src/Kernel/Tokens/Gone.antt =====
-- What is left of a session that was torn down.
use mathlib.Core.Logic.{ite, if_pos}
use stross.Base.{
  ◌≡◌, refl, ap, ◌∙◌, ℕ, Bool, true, false, Option, none, some, arith, Option-cases, inl, inr,
}
use stross.Base.Keyed
use stross.Base.Keyed.{is_some, lookup-remove}
use stross.Base.Result.{ok, Result-cases}
use stross.Proto.Message.{Text, Text-discrete}
use stross.Relay.{
  RelayState, ShareToken, is_authorized, is_allowed, token_allows, revoke_stream, end_stream,
  set_token_validator,
}
use stross.Relay.Laws.{IsRelay, is_live, live-revoke_stream}
use stross.Kernel.Types.{Kernel}
use stross.Kernel.Auth.{get_session, set_code, require_authorized}
use stross.Kernel.Sessions.{has_session, clear, teardown_internal}
use stross.Kernel.Tokens.{verify_share_token, validate, relay_at}

pub authorized-revoke_stream :
    (s : RelayState) (id j : Text)
    → is_authorized (revoke_stream s id) j ≡ ite (Text-discrete j id) false (is_authorized s j)
unfolding is_authorized revoke_stream end_stream
authorized-revoke_stream s id j = ground (arith, lookup-remove Text-discrete id j s.allowed)

pub validate-unissued :
    (k : Kernel) (now : ℕ) (t : ShareToken)
    → Keyed.lookup Text-discrete t.stream_id k.share_tokens ≡ none
    → validate k now t ≡ false
unfolding validate verify_share_token
validate-unissued k now t e = ground (arith, e)

pub authorized-relay_at :
    (k : Kernel) (now : ℕ) (r : RelayState) (id : Text)
    → is_authorized (relay_at k now r) id ≡ is_authorized r id
unfolding is_authorized relay_at set_token_validator
authorized-relay_at k now r id = refl

pub teardown_internal-clear :
    (k k' : Kernel) (id : Text) (check_auth : Bool)
    → teardown_internal k id check_auth ≡ ok k'
    → k' ≡ clear k id
unfolding teardown_internal
teardown_internal-clear k k' id false e = ground (arith, e)
teardown_internal-clear k k' id true e = elim (Result-cases (require_authorized k id)) [
  | inl (_, fine) ↦ ground (arith, e, fine)
  | inr (_, bad) ↦ absurd (ground (arith, e, bad))
]

pub get_session-clear :
    (k : Kernel) (id j : Text)
    → get_session (clear k id) j ≡ ite (Text-discrete j id) none (get_session k j)
unfolding get_session clear
get_session-clear k id j = lookup-remove Text-discrete id j k.sessions

module _ (from_token_string : Text → Option ShareToken) where
  pub token_allows-unissued :
      (k : Kernel) (now : ℕ) (r : RelayState) (id : Text) (share_token : Option Text)
      → Keyed.lookup Text-discrete id k.share_tokens ≡ none
      → token_allows from_token_string (relay_at k now r) id share_token ≡ false
  unfolding token_allows relay_at set_token_validator
  token_allows-unissued k now r id none e = refl
  token_allows-unissued k now r id (some s) e = elim (Option-cases (from_token_string s)) [
    | inl unread ↦ ground (arith, unread)
    | inr (t, read) ↦ elim (Text-discrete t.stream_id id) [
      | yes same ↦ ground (
        arith,
        read,
        validate-unissued k now t (ap (λ i. Keyed.lookup Text-discrete i k.share_tokens) same ∙ e),
      )
      | no other ↦ ground (arith, read)
    ]
  ]

  -- After a successful teardown of a session, checked or forced, of a kernel with an attached relay:
  -- the session is not there, its stream is not live on the relay, and at any time, whatever the
  -- token shown and wherever the client is, the relay does not let the stream id in.
  pub teardown_internal-Gone :
      (k k' : Kernel) (id : Text) (check_auth : Bool) (r : RelayState) (now : ℕ)
      (share_token : Option Text) (local : Bool)
      → IsRelay r
      → k.data_plane ≡ some r
      → teardown_internal k id check_auth ≡ ok k'
      → (r' : RelayState) × (k'.data_plane ≡ some r')
        × (has_session k' id ≡ false)
        × (is_live r' id ≡ false)
        × (is_allowed from_token_string (relay_at k' now r') id share_token local ≡ false)
  unfolding is_allowed has_session clear set_code
  teardown_internal-Gone k k' id check_auth r now share_token local v at done =
      let shape = teardown_internal-clear k k' id check_auth done in
      (
        revoke_stream r id,
        ground (arith, shape, at),
        ground (arith, shape, get_session-clear k id id),
        ground (arith, live-revoke_stream r id id v),
        ground (
          arith,
          authorized-relay_at k' now (revoke_stream r id) id,
          authorized-revoke_stream r id id,
          token_allows-unissued k' now (revoke_stream r id) id share_token (
              ap (λ (x : Kernel). Keyed.lookup Text-discrete id x.share_tokens) shape
              ∙ lookup-remove Text-discrete id id k.share_tokens
              ∙ if_pos (Text-discrete id id) refl none _),
        ),
      )
