-- ===== src/Kernel/Tokens.antt =====
-- crates/stross-kernel/src/kernel/session_api.rs: share tokens.
-- The clock and the digits of a PIN, which are drawn at random, are arguments.
pub mod Gone
pub mod Admits
use native.Mathlib.Decide.{ℕ_discrete}
use stross.Base.{
  ℕ, zero, suc, ◌+◌, ◌-◌, ◌/◌, ◌%◌, ◌^◌, min, Bool, true, false, List, [], ◌∷◌, ◌++◌, Option, none,
  some, if◌then◌else◌, ltb,
}
use stross.Base.Keyed
use stross.Base.Result.{Result, ok, err, ◌>>=◌}
use mathlib.Core.Logic.{ite}
use stross.Proto.Message.{Text, Text-discrete}
use stross.Proto.Ids.{MediaKind, hex_digit}
use stross.Proto.Ids.Derive.{lossy}
use stross.Relay.{RelayState, ShareToken, is_expired, set_token_validator}
use stross.Kernel.Types.{
  Kernel, SessionPrefs, Error, session_not_found, token, not_issued, altered, expired,
}
use stross.Kernel.Sessions.{has_session, build_session}

unfoldable pub MediaKind-discrete : Discrete MediaKind
MediaKind-discrete = hlevel

unfoldable pub ShareToken-discrete : Discrete ShareToken
unfolding ℕ_discrete Text-discrete MediaKind-discrete
ShareToken-discrete = hlevel (ℕ_discrete, Text-discrete, MediaKind-discrete)

-- `tokens.retain`.
unfoldable pub retain_unexpired : ℕ → List (Text × ShareToken) → List (Text × ShareToken)
unfolding is_expired
retain_unexpired now [] = []
retain_unexpired now ((id, t) ∷ tokens) =
    let rest = retain_unexpired now tokens in if is_expired t now then rest else (id, t) ∷ rest

abbrev pub version : ℕ
version = 1

unfoldable pub new_token : Text → List MediaKind → ℕ → ℕ → Text → ShareToken
new_token session_id media ttl now pin = record {
  v = version;
  stream_id = session_id;
  pin = pin;
  expires_at = min (now + ttl) (2 ^ 64 - 1);
  media = media;
}

unfoldable pub create_share_token :
    Kernel → Text → List MediaKind → ℕ → ℕ → Text → Result Error (Kernel × ShareToken)
unfolding has_session retain_unexpired new_token
create_share_token k session_id media ttl now pin =
    if has_session k session_id
    then ok (
      record k {
        share_tokens =
            Keyed.insert Text-discrete session_id (new_token session_id media ttl now pin)
              (retain_unexpired now k.share_tokens);
      },
      new_token session_id media ttl now pin,
    )
    else err (session_not_found session_id)

unfoldable pub verify_share_token :
    List (Text × ShareToken) → ℕ → ShareToken → Result Error (Unit {0})
unfolding ShareToken-discrete is_expired
verify_share_token tokens now t = elim (Keyed.lookup Text-discrete t.stream_id tokens) [
  | none ↦ err (token (not_issued t.stream_id))
  | some stored ↦
      ite (ShareToken-discrete stored t)
        (if is_expired stored now then err (token expired) else ok tt) (err (token altered))
]

abbrev pub is_ok {ℓ κ} : {E : Type ℓ} {A : Type κ} → Result E A → Bool
is_ok (ok a) = true
is_ok (err e) = false

-- `KernelTokenValidator::validate`.
unfoldable pub validate : Kernel → ℕ → ShareToken → Bool
unfolding verify_share_token
validate k now t = is_ok (verify_share_token k.share_tokens now t)

-- The attached relay as it answers at a time: `attach_data_plane` gives it a validator that shares
-- the kernel's table of tokens.
unfoldable pub relay_at : Kernel → ℕ → RelayState → RelayState
unfolding validate set_token_validator
relay_at k now r = set_token_validator r (some (validate k now))

-- `{:x}` of a `u64`: at most sixteen digits.
unfoldable pub lower_hex : ℕ → ℕ → Text
unfolding hex_digit
lower_hex zero n = []
lower_hex (suc fuel) n =
    let rest = lower_hex fuel (n / 16) in
    if ltb n 16 then hex_digit n ∷ [] else rest ++ hex_digit (n % 16) ∷ []

abbrev pub local_name : Text
local_name = b'l' ∷ b'o' ∷ b'c' ∷ b'a' ∷ b'l' ∷ []

unfoldable pub sess_id : ℕ → Text
unfolding lower_hex
sess_id n = b's' ∷ b'e' ∷ b's' ∷ b's' ∷ b'-' ∷ lower_hex 16 n

abbrev pub unwrap_ttl : Option ℕ → ℕ
unwrap_ttl none = 600
unwrap_ttl (some secs) = secs

-- `Default` of the preferences, with a title.
unfoldable pub titled : Text → SessionPrefs
titled title = record {
  profile = lossy;
  preferred_transport = none;
  access_code = none;
  title = title;
}

unfoldable pub issue_share_token_for :
    Kernel → Text → List MediaKind → Option ℕ → ℕ → Text → Result Error (Kernel × ShareToken)
unfolding sess_id titled build_session create_share_token
issue_share_token_for k title media ttl_secs now pin =
    let id = sess_id k.next_id in
    build_session (record k { next_id = suc k.next_id % 2 ^ 64 }) id local_name (local_name ∷ [])
      (titled title)
    >>= λ made. create_share_token (made.0) id media (unwrap_ttl ttl_secs) now pin
