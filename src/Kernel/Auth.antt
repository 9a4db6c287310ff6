-- ===== src/Kernel/Auth.antt =====
-- crates/stross-kernel/src/kernel/auth.rs: access codes, and the gate of a session in session.rs.
use stross.Base.{true, not, ◌&&◌, List, Option, none, some, if◌then◌else◌}
use stross.Base.Keyed
use stross.Base.Result.{Result, ok, err}
use mathlib.Core.Logic.{ite}
use stross.Proto.Message.{Text, Text-discrete}
use stross.Kernel.Types.{
  Kernel, Session, AuthError, code_required, code_mismatch, Error, session_not_found, pin_required,
  pin_mismatch,
}

unfoldable pub check_code : Option Text → Option Text → Result AuthError (Unit {0})
check_code none access_code = ok tt
check_code (some pin) none = err code_required
check_code (some pin) (some code) = ite (Text-discrete code pin) (ok tt) (err code_mismatch)

-- `PinAuthPolicy::authorize`.
unfoldable pub authorize : List (Text × Text) → Text → Option Text → Result AuthError (Unit {0})
unfolding check_code
authorize pins session_id access_code =
    check_code (Keyed.lookup Text-discrete session_id pins) access_code

unfoldable pub set_code : Text → Option Text → List (Text × Text) → List (Text × Text)
set_code session_id none pins = Keyed.remove Text-discrete session_id pins
set_code session_id (some code) pins = Keyed.insert Text-discrete session_id code pins

-- `From<AuthError> for Error`.
unfoldable pub from_auth : AuthError → Error
from_auth code_required = pin_required
from_auth code_mismatch = pin_mismatch

unfoldable pub session_gate : Session → Result Error (Unit {0})
session_gate s = if s.requires_pin && not s.authorized then err pin_required else ok tt

unfoldable pub get_session : Kernel → Text → Option Session
get_session k id = Keyed.lookup Text-discrete id k.sessions

-- `SessionManager::require_authorized`.
unfoldable pub require_authorized : Kernel → Text → Result Error (Unit {0})
unfolding get_session session_gate
require_authorized k id = elim (get_session k id) [
  | none ↦ err (session_not_found id)
  | some s ↦ session_gate s
]

unfoldable pub mark_authorized : Kernel → Text → Result Error Kernel
unfolding get_session
mark_authorized k id = elim (get_session k id) [
  | none ↦ err (session_not_found id)
  | some s ↦ ok (record k {
    sessions = Keyed.insert Text-discrete id (record s { authorized = true }) k.sessions;
  })
]

-- `authorize_session` of crates/stross-kernel/src/control.rs.
unfoldable pub authorize_session : Kernel → Text → Option Text → Result Error Kernel
unfolding authorize from_auth mark_authorized
authorize_session k session_id access_code = elim (authorize k.pins session_id access_code) [
  | ok _ ↦ mark_authorized k session_id
  | err e ↦ err (from_auth e)
]
