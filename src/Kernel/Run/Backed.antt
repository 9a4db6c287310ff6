-- ===== src/Kernel/Run/Backed.antt =====
-- What is authorized has a session, over every run of the session manager.
use stross.Base.{ℕ, ◌≡◌, sym, subst, Bool, true, List, Option, some, arith, inl, inr, Option-cases}
use stross.Base.Keyed
use stross.Base.Keyed.{is_some, lookup-insert, lookup-remove}
use stross.Proto.Message.{Text, Text-discrete}
use stross.Relay.{RelayState, ShareToken, is_authorized, is_allowed}
use stross.Kernel.Types.{Kernel, CapabilityDescriptor}
use stross.Kernel.Auth.{get_session}
use stross.Kernel.Sessions.{has_session, ensure_session_with_id}
use stross.Kernel.Tokens.{relay_at}
use stross.Kernel.Tokens.Gone.{teardown_internal-clear, token_allows-unissued, authorized-relay_at}
use stross.Kernel.Run.{
  Step, Reach, start, attach, relayed, ensure, build, unlock, teardown, create_token, issue_token,
  here, later,
}
use stross.Kernel.Run.Calls.{
  Backed, build_session-Backed, clear-Backed, create_share_token-Backed, authorize_session-Backed,
  issue_share_token_for-Backed,
}

Step-Backed : {k k' : Kernel} → Step k k' → Backed k → Backed k'
unfolding is_authorized ensure_session_with_id has_session
Step-Backed (attach k r empty) b = record {
  allowed_in = λ id a. absurd (ground (arith, empty, a));
  issued_in = b.issued_in;
}
Step-Backed (relayed k r r' at same) b = record {
  allowed_in = λ id a. b.allowed_in id (ground (arith, at, same, a));
  issued_in = b.issued_in;
}
Step-Backed (build k k' id src sinks prefs s e) b =
    (build_session-Backed k k' id src sinks prefs s e b).0
Step-Backed (ensure k k' id src sinks prefs s e) b = elim (Option-cases (get_session k id)) [
  | inl missing ↦ (build_session-Backed k k' id src sinks prefs s (ground (arith, e, missing)) b).0
  | inr (old, there) ↦ subst Backed (ground (arith, e, there)) b
]
Step-Backed (unlock k k' id code e) b = authorize_session-Backed k k' id code e b
Step-Backed (teardown k k' id check_auth e) b =
    subst Backed (sym (teardown_internal-clear k k' id check_auth e)) (clear-Backed k id b)
Step-Backed (create_token k k' id media ttl now pin t e) b =
    create_share_token-Backed k k' id media ttl now pin t e b
Step-Backed (issue_token k k' title media ttl now pin t e) b =
    issue_share_token_for-Backed k k' title media ttl now pin t e b

Reach-Backed : {k k' : Kernel} → Reach k k' → Backed k → Backed k'
Reach-Backed (here k) b = b
Reach-Backed (later run st) b = Step-Backed st (Reach-Backed run b)

start-Backed : (caps_of : Text → List CapabilityDescriptor) → Backed (start caps_of)
unfolding start
start-Backed caps_of = record {
  allowed_in = λ id a. absurd (ground (arith, a));
  issued_in = λ id a. absurd (ground (arith, a));
}

module _ (from_token_string : Text → Option ShareToken) where
  -- After any run of successful calls from a new kernel: whatever stream id the attached relay lets
  -- in, at any time, for any token and any client, has a session at that moment.
  pub is_allowed-has_session :
      (caps_of : Text → List CapabilityDescriptor) (k : Kernel) (r : RelayState) (now : ℕ)
      (id : Text) (share_token : Option Text) (local : Bool)
      → Reach (start caps_of) k
      → k.data_plane ≡ some r
      → is_allowed from_token_string (relay_at k now r) id share_token local ≡ true
      → has_session k id ≡ true
  unfolding is_allowed
  is_allowed-has_session caps_of k r now id share_token local run at let_in =
      let b = Reach-Backed run (start-Backed caps_of) in
      elim (Option-cases (Keyed.lookup Text-discrete id k.share_tokens)) [
        | inr (t, issued) ↦ b.issued_in id (ground (arith, issued))
        | inl missing ↦ b.allowed_in id (
            ground (
              arith,
              at,
              let_in,
              authorized-relay_at k now r id,
              token_allows-unissued from_token_string k now r id share_token missing,
            ))
      ]
