-- ===== src/Kernel/Streams.antt =====
-- crates/stross-kernel/src/kernel/streams.rs: starting a stream from this device.
-- Engines are named by numbers. What starting an engine does outside, the addresses of a relay and the
-- clock are arguments.
pub mod Start
pub mod Taken
use stross.Base.{
  ℕ, suc, ◌+◌, ◌%◌, ◌^◌, Bool, true, false, not, ◌||◌, List, [], ◌∷◌, Option, none, some,
  if◌then◌else◌,
}
use stross.Base.Keyed
use stross.Base.Keyed.{is_some}
use stross.Base.Result.{Result, ok, err, ◌>>=◌}
use stross.Proto.Message.{Text, Text-discrete}
use stross.Kernel.Types.{Kernel, Error, no_backend, already_streaming, internal}
use stross.Kernel.Sessions.{has_session, build_session}
use stross.Kernel.Tokens.{sess_id, titled, local_name}

-- The fields that are read here; `video` is whether there is a video source.
pub record StreamConfig : Type 0 where
  pub stream_id : Text
  pub title : Text
  pub share_token : Option Text
  pub video : Bool

pub record RunningStream : Type 0 where
  pub engine : ℕ
  pub relay_port : ℕ
  pub title : Text
  pub stream_id : Text
  pub started_at : ℕ

pub record StartResult : Type 0 where
  pub relay_port : ℕ
  pub watch_urls : List Text
  pub stream_id : Text

-- `start` is `SenderEngine::start`, with the port of the relay that the engine brought up, if it did;
-- `auto_push_url` is that of the relay in `anchor`.
pub record Senders : Type 0 where
  pub start : StreamConfig → Option Text → Result Text (Option ℕ)
  pub auto_push_url : Bool → Text
  pub watch_urls : Option Text → ℕ → List Text

-- `anchor` is the port of the relay that stays up. `started` has the engines that were started, the
-- latest first.
pub record Streams : Type 0 where
  pub kernel : Kernel
  pub engines : List (Text × RunningStream)
  pub backend : Bool
  pub anchor : Option ℕ
  pub started : List ℕ
  pub next_engine : ℕ

abbrev pub default_port : ℕ
default_port = 18777

unfoldable pub ensure_session : Kernel → StreamConfig → Result Error (Kernel × StreamConfig)
unfolding has_session build_session sess_id titled
ensure_session k cfg =
    if is_some cfg.share_token || (not (is_some k.data_plane) || has_session k cfg.stream_id)
    then ok (k, cfg)
    else (build_session (record k { next_id = suc k.next_id % 2 ^ 64 }) (sess_id k.next_id)
          local_name (local_name ∷ []) (titled cfg.title)
        >>= λ made. ok (made.0, record cfg { stream_id = made.1.id }))

abbrev pub first_port : Option ℕ → Option ℕ → ℕ
first_port (some port) anchor = port
first_port none (some port) = port
first_port none none = default_port

unfoldable pub new_stream : Streams → StreamConfig → Option ℕ → ℕ → ℕ → RunningStream
new_stream s cfg port engine now = record {
  engine = engine;
  relay_port = first_port port s.anchor;
  title = cfg.title;
  stream_id = cfg.stream_id;
  started_at = now;
}

-- The entry in the table of engines, unless the stream is there already.
unfoldable pub register :
    Senders
    → Streams
    → StreamConfig
    → Option Text
    → Option ℕ
    → ℕ
    → ℕ
    → Streams × Result Error StartResult
unfolding new_stream
register ops s cfg relay_url port engine now =
    if is_some (Keyed.lookup Text-discrete cfg.stream_id s.engines)
    then (s, err already_streaming)
    else (
      record s {
        engines =
            Keyed.insert Text-discrete cfg.stream_id (new_stream s cfg port engine now) s.engines;
      },
      ok (record {
        relay_port = first_port port s.anchor;
        watch_urls = ops.watch_urls relay_url (first_port port s.anchor);
        stream_id = cfg.stream_id;
      }),
    )

-- From the start of the engine on.
unfoldable pub launch :
    Senders → Streams → StreamConfig → Option Text → ℕ → Streams × Result Error StartResult
unfolding register
launch ops s cfg relay_url now = elim (ops.start cfg relay_url) [
  | err e ↦ (s, err (internal e))
  | ok port ↦
      register ops
        (record s { started = s.next_engine ∷ s.started; next_engine = suc s.next_engine }) cfg
        relay_url port s.next_engine now
]

abbrev pub chosen_url : Senders → Streams → StreamConfig → Option Text → Option Text
chosen_url ops s cfg (some u) = some u
chosen_url ops s cfg none = if is_some s.anchor then some (ops.auto_push_url cfg.video) else none

unfoldable pub start_stream :
    Senders → Streams → StreamConfig → Option Text → ℕ → Streams × Result Error StartResult
unfolding ensure_session launch
start_stream ops s cfg relay_url now =
    if s.backend
    then elim (ensure_session s.kernel cfg) [
      | err e ↦ (s, err e)
      | ok (k, ready) ↦
          launch ops (record s { kernel = k }) ready (chosen_url ops s ready relay_url) now
    ]
    else (s, err no_backend)
