-- ===== src/Kernel/Sessions.antt =====
-- crates/stross-kernel/src/kernel/session_api.rs: building and tearing down sessions.
pub mod Pin
use stross.Base.{Bool, true, false, not, List, [], ◌∷◌, ◌++◌, Option, none, some, if◌then◌else◌}
use stross.Base.Keyed
use stross.Base.Keyed.{is_some}
use stross.Base.Result.{Result, ok, err, ◌>>◌}
use mathlib.Core.Logic.{ite}
use stross.Proto.Message.{Text, Text-discrete}
use stross.Relay.{RelayState, authorize_stream, revoke_stream}
use stross.Kernel.Types.{
  Kernel, Session, SessionPrefs, Negotiated, CapabilityDescriptor, TransportId,
  TransportId-discrete, ws, web_rtc, CodecId, h264, RoutePath, direct, mesh, Error, no_sinks,
}
use stross.Kernel.Auth.{get_session, require_authorized, set_code}

unfoldable pub default_path : List Text → RoutePath
default_path (one ∷ []) = direct one
default_path many = mesh many

unfoldable pub has_transport : TransportId → List TransportId → Bool
has_transport t [] = false
has_transport t (x ∷ ts) = ite (TransportId-discrete t x) true (has_transport t ts)

-- The transports of all capabilities: sorting them and dropping doubles changes neither which there
-- are nor whether there are any.
unfoldable pub all_transports : List CapabilityDescriptor → List TransportId
all_transports [] = []
all_transports (c ∷ cs) = c.transports ++ all_transports cs

unfoldable pub all_codecs : List CapabilityDescriptor → List CodecId
all_codecs [] = []
all_codecs (c ∷ cs) = c.codecs ++ all_codecs cs

abbrev pub default_transport : List TransportId → TransportId
default_transport ts = if has_transport web_rtc ts then web_rtc else ws

unfoldable pub pick_transport : Option TransportId → List TransportId → TransportId
unfolding has_transport
pick_transport none ts = default_transport ts
pick_transport (some t) [] = t
pick_transport (some t) (x ∷ ts) =
    if has_transport t (x ∷ ts) then t else default_transport (x ∷ ts)

abbrev pub first_codec : List CodecId → CodecId
first_codec [] = h264
first_codec (c ∷ cs) = c

unfoldable pub negotiate : Kernel → Text → SessionPrefs → Negotiated
unfolding all_transports all_codecs pick_transport
negotiate k src prefs = record {
  transport = pick_transport prefs.preferred_transport (all_transports (k.caps_of src));
  codec = first_codec (all_codecs (k.caps_of src));
  profile = prefs.profile;
}

unfoldable pub new_session : Kernel → Text → Text → List Text → SessionPrefs → Session
unfolding default_path negotiate
new_session k id src sinks prefs = record {
  id = id;
  title = prefs.title;
  source = src;
  sinks = sinks;
  path = default_path sinks;
  negotiated = negotiate k src prefs;
  requires_pin = is_some prefs.access_code;
  authorized = not (is_some prefs.access_code);
}

abbrev pub on_relay : (RelayState → RelayState) → Option RelayState → Option RelayState
on_relay f none = none
on_relay f (some r) = some (f r)

abbrev pub with_code : Text → Option Text → List (Text × Text) → List (Text × Text)
with_code id none pins = pins
with_code id (some code) pins = set_code id (some code) pins

unfoldable pub build_session :
    Kernel → Text → Text → List Text → SessionPrefs → Result Error (Kernel × Session)
unfolding new_session set_code authorize_stream
build_session k id src [] prefs = err no_sinks
build_session k id src (sink ∷ sinks) prefs =
    let session = new_session k id src (sink ∷ sinks) prefs in
    ok (
      record k {
        pins = with_code id prefs.access_code k.pins;
        data_plane = on_relay (λ r. authorize_stream r id) k.data_plane;
        sessions = Keyed.insert Text-discrete id session k.sessions;
      },
      session,
    )

unfoldable pub ensure_session_with_id :
    Kernel → Text → Text → List Text → SessionPrefs → Result Error (Kernel × Session)
unfolding build_session get_session
ensure_session_with_id k id src sinks prefs = elim (get_session k id) [
  | some s ↦ ok (k, s)
  | none ↦ build_session k id src sinks prefs
]

unfoldable pub has_session : Kernel → Text → Bool
unfolding get_session
has_session k id = is_some (get_session k id)

-- What `teardown_internal` does once the session may be torn down.
unfoldable pub clear : Kernel → Text → Kernel
unfolding set_code revoke_stream
clear k id = record k {
  sessions = Keyed.remove Text-discrete id k.sessions;
  pins = set_code id none k.pins;
  share_tokens = Keyed.remove Text-discrete id k.share_tokens;
  data_plane = on_relay (λ r. revoke_stream r id) k.data_plane;
}

unfoldable pub teardown_internal : Kernel → Text → Bool → Result Error Kernel
unfolding clear require_authorized
teardown_internal k id check_auth =
    (if check_auth then require_authorized k id else ok tt) >> ok (clear k id)

unfoldable pub teardown : Kernel → Text → Result Error Kernel
unfolding teardown_internal
teardown k id = teardown_internal k id true

unfoldable pub force_teardown : Kernel → Text → Result Error Kernel
unfolding teardown_internal
force_teardown k id = teardown_internal k id false
