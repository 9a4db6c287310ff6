-- ===== src/Kernel/Run.antt =====
-- Runs of the session manager of crates/stross-kernel/src/kernel with the relay that it drives.
pub mod Calls
pub mod Backed
use mathlib.Core.Logic.{ite}
use stross.Base.{
  ℕ, ◌≡◌, refl, sym, subst, ap, ◌∙◌, Bool, true, false, List, [], ◌∷◌, Option, none, some, arith,
  inl, inr, ◌⊎◌, Option-cases, Bool-cases,
}
use stross.Base.Keyed
use stross.Base.Keyed.{is_some, lookup-insert, lookup-remove}
use stross.Base.Result.{Result, ok, err, Result-cases}
use stross.Proto.Message.{Text, Text-discrete}
use stross.Proto.Ids.{MediaKind}
use stross.Relay.{
  RelayState, ShareToken, is_authorized, is_allowed, token_allows, authorize_stream, revoke_stream,
  is_expired, set_token_validator,
}
use stross.Kernel.Types.{Kernel, Session, SessionPrefs, CapabilityDescriptor}
use stross.Kernel.Auth.{get_session, authorize_session, mark_authorized}
use stross.Kernel.Sessions.{
  has_session, build_session, ensure_session_with_id, teardown_internal, clear, on_relay,
  new_session,
}
use stross.Kernel.Tokens.{
  retain_unexpired, create_share_token, issue_share_token_for, relay_at, validate, new_token,
}
use stross.Kernel.Tokens.Gone.{
  authorized-revoke_stream, teardown_internal-clear, get_session-clear, token_allows-unissued,
  authorized-relay_at,
}

-- One call of the session manager that succeeds, or a change of the relay that leaves its set of
-- authorized ids alone, as all its own work does. `attach` gives the kernel a new relay.
pub data Step : Kernel → Kernel → Type 0 where
  attach :
      (k : Kernel) (r : RelayState) → r.allowed ≡ [] → Step k (record k { data_plane = some r })
  relayed :
      (k : Kernel) (r r' : RelayState)
      → k.data_plane ≡ some r
      → r'.allowed ≡ r.allowed
      → Step k (record k { data_plane = some r' })
  ensure :
      (k k' : Kernel) (id src : Text) (sinks : List Text) (prefs : SessionPrefs) (s : Session)
      → ensure_session_with_id k id src sinks prefs ≡ ok (k', s)
      → Step k k'
  build :
      (k k' : Kernel) (id src : Text) (sinks : List Text) (prefs : SessionPrefs) (s : Session)
      → build_session k id src sinks prefs ≡ ok (k', s)
      → Step k k'
  unlock :
      (k k' : Kernel) (id : Text) (code : Option Text)
      → authorize_session k id code ≡ ok k'
      → Step k k'
  teardown :
      (k k' : Kernel) (id : Text) (check_auth : Bool)
      → teardown_internal k id check_auth ≡ ok k'
      → Step k k'
  create_token :
      (k k' : Kernel) (id : Text) (media : List MediaKind) (ttl now : ℕ) (pin : Text)
      (t : ShareToken)
      → create_share_token k id media ttl now pin ≡ ok (k', t)
      → Step k k'
  issue_token :
      (k k' : Kernel) (title : Text) (media : List MediaKind) (ttl : Option ℕ) (now : ℕ)
      (pin : Text) (t : ShareToken)
      → issue_share_token_for k title media ttl now pin ≡ ok (k', t)
      → Step k k'

pub data Reach : Kernel → Kernel → Type 0 where
  here : (k : Kernel) → Reach k k
  later : {k u v : Kernel} → Reach k u → Step u v → Reach k v

-- A new kernel.
unfoldable pub start : (Text → List CapabilityDescriptor) → Kernel
start caps_of = record {
  sessions = [];
  pins = [];
  share_tokens = [];
  data_plane = none;
  caps_of = caps_of;
  next_id = 1;
}
