-- ===== src/Relay.antt =====
-- crates/stross-kernel/src/relay/state.rs: the shared state of a relay.
-- Stream ids and addresses are texts, a text being the list of its bytes. An operation returns the
-- new state. The clock, the parser of tokens (JSON) and the number of receivers of a broadcast channel
-- are arguments.
mod Types
pub mod Table
pub mod Laws
pub mod Push
pub mod Watch
pub mod Run
pub mod Link
pub mod Proxy
mod Fixtures
mod Tests
pub use Types.*
use stross.Base.{
  ℕ, suc, leb, ◌++◌, Bool, true, false, not, ◌&&◌, ◌||◌, List, [], ◌∷◌, Option, none, some, map,
  ◌==◌, if◌then◌else◌,
}
use stross.Base.Keyed
use stross.Base.Keyed.{is_some}
use stross.Base.Result.{Result, ok, err}
use mathlib.Core.Logic.{ite}
use stross.Proto.Message.{Text, Text-discrete}
use stross.Proto.Frame.{Frame, track_video, is_keyframe}

unfoldable pub with_ports : Bool → ℕ → Option ℕ → Option ℕ → RelayState
unfolding Table.empty_table
with_ports controlled port srt_port quic_port = record {
  streams = Table.empty_table;
  proxies = [];
  allowed = [];
  token_validator = none;
  controlled = controlled;
  port = port;
  srt_port = srt_port;
  quic_port = quic_port;
  events = [];
  sent = [];
  aborted = [];
  next_tx = 0;
  next_task = 0;
}

unfoldable pub emit : RelayState → RelayEvent → RelayState
emit s ev = record s { events = ev ∷ s.events }

unfoldable pub get : RelayState → Text → Option StreamEntry
get s id = Table.get id s.streams

unfoldable pub insert : RelayState → StreamEntry → RelayState
insert s entry = record s { streams = Table.insert entry.info.stream_id entry s.streams }

unfoldable pub remove : RelayState → Text → RelayState × Bool
remove s id = let (t, was) = Table.remove id s.streams in (record s { streams = t }, was)

-- The information with the number of receivers of the channel in it.
unfoldable pub counted : (ℕ → ℕ) → Text × StreamEntry → StreamInfo
counted receivers (id, e) = record (e.info) { watchers = receivers e.tx }

-- The entry after a frame: a video key frame is kept for later watchers.
unfoldable pub note_frame : StreamEntry → Frame → StreamEntry
note_frame e f =
    if (f.header.track == track_video) && is_keyframe f.header
    then record e { last_keyframe = some f }
    else e

-- The frame goes out on the channel of the entry that now has the id, if one has.
unfoldable pub forward : RelayState → Text → Frame → RelayState
unfolding get note_frame
forward s id f = elim (get s id) [
  | none ↦ s
  | some e ↦ record s {
    streams = Table.insert id (note_frame e f) s.streams;
    sent = (e.tx, f) ∷ s.sent;
  }
]

unfoldable pub authorize_stream : RelayState → Text → RelayState
authorize_stream s id = record s { allowed = Keyed.insert Text-discrete id tt s.allowed }

-- `if self.remove(id) { self.emit(StreamEnded) }`, which four operations end with.
unfoldable pub end_stream : RelayState → Text → RelayState
unfolding remove emit
end_stream s id = let (s', was) = remove s id in if was then emit s' (stream_ended id) else s'

unfoldable pub revoke_stream : RelayState → Text → RelayState
unfolding end_stream
revoke_stream s id = end_stream (record s { allowed = Keyed.remove Text-discrete id s.allowed }) id

unfoldable pub set_token_validator : RelayState → Option (ShareToken → Bool) → RelayState
set_token_validator s validator = record s { token_validator = validator }

unfoldable pub is_authorized : RelayState → Text → Bool
is_authorized s id = is_some (Keyed.lookup Text-discrete id s.allowed)

unfoldable pub is_expired : ShareToken → ℕ → Bool
is_expired token now_secs = leb token.expires_at now_secs

module _ (from_token_string : Text → Option ShareToken) where
  unfoldable pub token_allows : RelayState → Text → Option Text → Bool
  token_allows s id none = false
  token_allows s id (some token_str) = elim s.token_validator [
    | none ↦ false
    | some validate ↦ elim (from_token_string token_str) [
      | none ↦ false
      | some token ↦ ite (Text-discrete token.stream_id id) (validate token) false
    ]
  ]

  unfoldable pub is_allowed : RelayState → Text → Option Text → Bool → Bool
  unfolding is_authorized token_allows
  is_allowed s id share_token local = (local && is_authorized s id) || token_allows s id share_token

-- The information of a proxied stream of which nothing is known.
unfoldable pub placeholder : Text → ℕ → StreamInfo
placeholder id now = record {
  stream_id = id;
  title = id;
  video = none;
  audio = none;
  started_at = now;
  watchers = 0;
}

unfoldable pub unwrap_or {ℓ} : {A : Type ℓ} → Option A → A → A
unwrap_or none d = d
unwrap_or (some a) d = a

-- A new stream with a channel of its own.
unfoldable pub add_stream : RelayState → StreamInfo → RelayState
unfolding insert
add_stream s info =
    let e : StreamEntry = record { info = info; tx = s.next_tx; last_keyframe = none } in
    insert (record s { next_tx = suc s.next_tx }) e

unfoldable pub start_proxy :
    RelayState → Text → Text → Option StreamInfo → ℕ → Result RelayOpError Text × RelayState
unfolding get add_stream placeholder unwrap_or emit
start_proxy s upstream id info now =
    let info' = unwrap_or info (placeholder id now) in
    let made = add_stream s info' in
    let proxy : ProxyEntry = record { upstream = upstream; task = s.next_task } in
    let kept = record made {
      proxies = Keyed.insert Text-discrete id proxy made.proxies;
      next_task = suc made.next_task;
    } in
    if is_some (Keyed.lookup Text-discrete id s.proxies)
    then (err (proxy_exists id), s)
    else if is_some (get s id)
    then (err (stream_exists id), s)
    else (ok id, emit kept (stream_started id info'))

unfoldable pub remove_proxy : RelayState → Text → RelayState
unfolding end_stream
remove_proxy s id =
    let s' = record s { proxies = Keyed.remove Text-discrete id s.proxies } in
    if is_some (Keyed.lookup Text-discrete id s.proxies) then end_stream s' id else s'

-- The tasks are aborted one by one; the streams stay.
unfoldable pub abort_proxies : RelayState → RelayState
abort_proxies s = record s { proxies = []; aborted = map (λ e. e.1.task) s.proxies ++ s.aborted }
