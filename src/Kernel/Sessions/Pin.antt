-- ===== src/Kernel/Sessions/Pin.antt =====
-- The access code of a session.
use mathlib.Core.Logic.{ite}
use stross.Base.{◌≡◌, true, false, List, [], ◌∷◌, Option, none, some, arith}
use stross.Base.Keyed
use stross.Base.Keyed.{lookup-insert, is_some}
use stross.Base.Result.{Result, ok, err}
use stross.Proto.Message.{Text, Text-discrete}
use stross.Kernel.Types.{Kernel, Session, SessionPrefs, Error, pin_required, pin_mismatch}
use stross.Kernel.Auth.{
  get_session, require_authorized, session_gate, mark_authorized, authorize_session, authorize,
  check_code, from_auth, set_code,
}
use stross.Kernel.Sessions.{
  build_session, new_session, clear, teardown, teardown_internal, force_teardown,
}

-- What a session guarded by a code answers: the kernel in which the session is unlocked, or an error.
abbrev pub answer : Text → Option Text → Kernel → Result Error Kernel
answer code none unlocked = err pin_required
answer code (some given) unlocked = ite (Text-discrete given code) (ok unlocked) (err pin_mismatch)

record Locked (k : Kernel) (id code : Text) : Type 0 where
  session : Session
  found : get_session k id ≡ some session
  asks : session.requires_pin ≡ true
  closed : session.authorized ≡ false
  pin : Keyed.lookup Text-discrete id k.pins ≡ some code

build_session-Locked :
    (k k' : Kernel) (id src : Text) (sinks : List Text) (prefs : SessionPrefs) (s : Session)
    (code : Text)
    → build_session k id src sinks prefs ≡ ok (k', s)
    → prefs.access_code ≡ some code
    → Locked k' id code
unfolding build_session get_session new_session set_code
build_session-Locked k k' id src [] prefs s code made coded = absurd (ground (arith, made))
build_session-Locked k k' id src (x ∷ xs) prefs s code made coded =
    let session = new_session k id src (x ∷ xs) prefs in
    record {
      session = session;
      found = ground (arith, made, coded, lookup-insert Text-discrete id id session k.sessions);
      asks = ground (arith, coded);
      closed = ground (arith, coded);
      pin = ground (arith, made, coded, lookup-insert Text-discrete id id code k.pins);
    }

unlock : Kernel → Text → Session → Kernel
unlock k id s = record k {
  sessions = Keyed.insert Text-discrete id (record s { authorized = true }) k.sessions;
}

Locked-teardown :
    (k : Kernel) (id code : Text) → Locked k id code → teardown k id ≡ err pin_required
unfolding teardown teardown_internal require_authorized session_gate
Locked-teardown k id code l = ground (arith, l.found, l.asks, l.closed)

Locked-authorize :
    (k : Kernel) (id code : Text) (given : Option Text) (l : Locked k id code)
    → authorize_session k id given ≡ answer code given (unlock k id l.session)
unfolding authorize_session authorize check_code from_auth mark_authorized unlock
Locked-authorize k id code none l = ground (arith, l.pin)
Locked-authorize k id code (some g) l = ground (arith, l.found, l.pin)

unlock-teardown :
    (k : Kernel) (id : Text) (s : Session)
    → teardown (unlock k id s) id ≡ ok (clear (unlock k id s) id)
unfolding teardown teardown_internal require_authorized session_gate get_session unlock
unlock-teardown k id s =
    ground (arith, lookup-insert Text-discrete id id (record s { authorized = true }) k.sessions)

forced : (k : Kernel) (id : Text) → force_teardown k id ≡ ok (clear k id)
unfolding force_teardown teardown_internal
forced k id = ground arith

-- Right after a session was built with an access code: `teardown` refuses it, while
-- `force_teardown`, which asks for nothing, succeeds. Giving no code or another one is refused, with
-- the error for either; giving the code unlocks the session, and then `teardown` succeeds.
pub build_session-guarded :
    (k k' : Kernel) (id src : Text) (sinks : List Text) (prefs : SessionPrefs) (s : Session)
    (code : Text) (given : Option Text)
    → build_session k id src sinks prefs ≡ ok (k', s)
    → prefs.access_code ≡ some code
    → (teardown k' id ≡ err pin_required)
      × (force_teardown k' id ≡ ok (clear k' id))
      × (unlocked : Kernel) × (authorize_session k' id given ≡ answer code given unlocked)
      × (teardown unlocked id ≡ ok (clear unlocked id))
build_session-guarded k k' id src sinks prefs s code given made coded =
    let l = build_session-Locked k k' id src sinks prefs s code made coded in
    (
      Locked-teardown k' id code l,
      forced k' id,
      unlock k' id l.session,
      Locked-authorize k' id code given l,
      unlock-teardown k' id l.session,
    )
