-- ===== src/Relay/Watch.antt =====
-- crates/stross-kernel/src/relay/data_plane.rs: `handle_watch` and `quic_watch_stream`, the side of a
-- relay on which a stream is watched.
-- A loop runs over what the receiver of the broadcast channel answers: a frame, that the watcher has
-- fallen behind and frames were dropped, or that the channel is closed. Each comes with the answer
-- that a send of it to the session gives. The list may end before the loop does, which then waits.
pub mod Aligned
pub mod Life
mod Tests
use stross.Base.{
  ℕ, Bool, true, false, not, ◌&&◌, ◌||◌, List, [], ◌∷◌, ◌++◌, Option, none, some, ◌==◌,
  if◌then◌else◌, map,
}
use stross.Proto.Message.{Text}
use stross.Proto.Frame.{Frame, track_video, is_keyframe, is_config}
use stross.Relay.{RelayState, StreamEntry, RelayEvent, watchers_changed, get}
use stross.Relay.Push.{
  SessionCall, SessionPacket, ControlMessage, control, media, send, close, ready, error, not_there,
  stream_opened, close_stream,
}

pub data Receipt : Type 0 where
  frame : Frame → Receipt
  lagged : Receipt
  closed : Receipt

abbrev pub is_video : Frame → Bool
is_video f = f.header.track == track_video

-- A frame at which a decoder can start.
unfoldable pub can_start : Frame → Bool
can_start f = is_keyframe f.header || is_config f.header

-- The frames handed to the session, and whether the loop has ended.
unfoldable pub watch_loop : Bool → List (Receipt × Bool) → List Frame × Bool
unfolding can_start
watch_loop started [] = ([], false)
watch_loop started ((lagged, sent) ∷ rs) = watch_loop false rs
watch_loop started ((closed, sent) ∷ rs) = ([], true)
watch_loop started ((frame f, sent) ∷ rs) =
    let skip =
      is_video f && not started && not (is_keyframe f.header) && not (is_config f.header) in
    let rest = watch_loop ((is_video f && can_start f) || started) rs in
    if skip then rest else if sent then (f ∷ rest.0, rest.1) else (f ∷ [], true)

-- What a watcher does to its session and to the events of the relay, in order; `done` is false while
-- the loop waits.
pub record Watched : Type 0 where
  pub calls : List SessionCall
  pub events : List RelayEvent
  pub done : Bool

abbrev pub media_calls : List Frame → List SessionCall
media_calls = map (λ f. send (media f))

abbrev pub count_of : (ℕ → ℕ) → Option StreamEntry → ℕ
count_of receivers none = 0
count_of receivers (some e) = receivers e.tx

-- The relay and its receiver counts are read when the watcher comes, and again when it leaves: the
-- pairs are `s` with `receivers` and `s'` with `receivers'`. `kf_sent` answers the sending of the key
-- frame. Between the two transports the messages differ.
module _ (s s' : RelayState) (receivers receivers' : ℕ → ℕ) (id : Text) (kf_sent : Bool)
    (rs : List (Receipt × Bool)) (opened : ControlMessage) (refused ended : List SessionCall) where
  abbrev pub watch_frames : StreamEntry → List Frame → Bool → Watched
  watch_frames e kf started =
      let (fs, done) = watch_loop started rs in
      record {
        calls = send (control opened) ∷ (media_calls (kf ++ fs) ++ (if done then ended else []));
        events =
            watchers_changed id (receivers e.tx)
            ∷ (if done then watchers_changed id (count_of receivers' (get s' id)) ∷ [] else []);
        done = done;
      }

  unfoldable pub watch_entry : StreamEntry → Option Frame → Watched
  watch_entry e none = watch_frames e [] false
  watch_entry e (some kf) =
      let dead : Watched = record {
        calls = send (control opened) ∷ send (media kf) ∷ [];
        events = watchers_changed id (receivers e.tx) ∷ watchers_changed id 0 ∷ [];
        done = true;
      } in
      if kf_sent then watch_frames e (kf ∷ []) true else dead

  unfoldable pub watch_stream : Watched
  unfolding watch_entry
  watch_stream = elim (get s id) [
    | none ↦ record {
      calls = send (control (error (not_there id))) ∷ refused;
      events = [];
      done = true;
    }
    | some e ↦ watch_entry e e.last_keyframe
  ]

module _ (s s' : RelayState) (receivers receivers' : ℕ → ℕ) (id : Text) (kf_sent : Bool)
    (rs : List (Receipt × Bool)) where
  unfoldable pub handle_watch : Watched
  unfolding watch_stream
  handle_watch = watch_stream s s' receivers receivers' id kf_sent rs (ready id) [] (close ∷ [])

  unfoldable pub quic_watch_stream : Watched
  unfolding watch_stream
  quic_watch_stream =
      let bye = send (control (close_stream id)) ∷ [] in
      watch_stream s s' receivers receivers' id kf_sent rs (stream_opened id) bye bye
