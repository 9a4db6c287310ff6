-- ===== src/Relay/Watch/Life.antt =====
-- The whole life of a watcher, and the key frame it begins with.
use stross.Base.{
  ℕ, ◌≡◌, ap, ◌∙◌, true, false, ◌&&◌, List, [], ◌∷◌, ◌++◌, arith, if◌then◌else◌, Option, none, some,
  Option-cases, inl, inr,
}
use stross.Base.Keyed.{is_some}
use stross.Proto.Message.{Text}
use stross.Proto.Frame.{Frame, is_keyframe}
use stross.Relay.{RelayState, StreamEntry, watchers_changed, get, forward, note_frame}
use stross.Relay.Laws.{IsRelay, get-forward, forward-IsRelay}
use stross.Relay.Push.{
  control, send, close, ready, stream_opened, close_stream, SessionCall, ControlMessage,
}
use stross.Relay.Watch.{
  Watched, media_calls, count_of, watch_stream, handle_watch, quic_watch_stream, is_video,
}
use stross.Relay.Watch.Aligned.{received, from_start, after_losses, watch_loop-received}

abbrev pub cached : Option Frame → List Frame
cached none = []
cached (some kf) = kf ∷ []

-- What a watcher is sent of the stream `e`, by the segments that it receives.
abbrev pub seen : StreamEntry → List Frame → List (List Frame) → List Frame
seen e fs segs =
    cached e.last_keyframe
    ++ ((if is_some e.last_keyframe then fs else from_start fs) ++ after_losses segs)

module _ (s s' : RelayState) (receivers receivers' : ℕ → ℕ) (id : Text) where
  -- The life of a watcher by the opening message and the closing calls of its transport.
  abbrev pub life :
      StreamEntry → List Frame → List (List Frame) → ControlMessage → List SessionCall → Watched
  life e fs segs opened ended = record {
    calls = send (control opened) ∷ (media_calls (seen e fs segs) ++ ended);
    events =
        watchers_changed id (receivers e.tx)
        ∷ watchers_changed id (count_of receivers' (get s' id))
        ∷ [];
    done = true;
  }

  watch_stream-life :
      (e : StreamEntry) (fs : List Frame) (segs : List (List Frame)) (opened : ControlMessage)
      (refused ended : List SessionCall)
      → get s id ≡ some e
      → watch_stream s s' receivers receivers' id true (received fs segs) opened refused ended
        ≡ life e fs segs opened ended
  unfolding watch_stream
  watch_stream-life e fs segs opened refused ended there = elim (Option-cases e.last_keyframe) [
    | inl bare ↦ ground (arith, there, bare, watch_loop-received segs fs false)
    | inr (kf, has) ↦ ground (arith, there, has, watch_loop-received segs fs true)
  ]

  -- A watcher of a live stream whose sends all succeed, on both transports: it is told that the stream
  -- is there and is sent the cached key frame if there is one. Then it is sent every frame up to the
  -- first loss if there was a cached key frame; otherwise, and after each loss, no video before the next
  -- key or configuration frame and everything else. At the end its session, or its stream of the link,
  -- is closed; the number of watchers is reported at both ends.
  pub watch_life :
      (e : StreamEntry) (fs : List Frame) (segs : List (List Frame))
      → get s id ≡ some e
      → (handle_watch s s' receivers receivers' id true (received fs segs)
          ≡ life e fs segs (ready id) (close ∷ []))
        × (quic_watch_stream s s' receivers receivers' id true (received fs segs)
            ≡ life e fs segs (stream_opened id) (send (control (close_stream id)) ∷ []))
  unfolding handle_watch quic_watch_stream
  watch_life e fs segs there =
      let bye = send (control (close_stream id)) ∷ [] in
      (
        watch_stream-life e fs segs (ready id) [] (close ∷ []) there,
        watch_stream-life e fs segs (stream_opened id) bye bye there,
      )

-- The frames are forwarded one after the other.
pub forward_all : RelayState → Text → List Frame → RelayState
forward_all s id [] = s
forward_all s id (f ∷ fs) = forward_all (forward s id f) id fs

-- The last video key frame of the frames, or else the one before them.
abbrev pub last_key : Option Frame → List Frame → Option Frame
last_key kf [] = kf
last_key kf (f ∷ fs) = last_key (if is_video f && is_keyframe f.header then some f else kf) fs

note_frame-entry :
    (e : StreamEntry) (f : Frame)
    → note_frame e f ≡ record e {
      last_keyframe = if is_video f && is_keyframe f.header then some f else e.last_keyframe;
    }
unfolding note_frame
note_frame-entry e f = ground arith

-- After frames have been forwarded to a live stream, its entry holds the last video key frame of
-- them, or the one it held before, and the rest of the entry is unchanged.
pub forward_all-last_key :
    (s : RelayState) (id : Text) (e : StreamEntry) (fs : List Frame)
    → IsRelay s
    → get s id ≡ some e
    → get (forward_all s id fs) id ≡ some (record e { last_keyframe = last_key e.last_keyframe fs })
unfolding forward_all
forward_all-last_key s id e [] v there = there
forward_all-last_key s id e (f ∷ fs) v there =
    let there' : get (forward s id f) id ≡ some (note_frame e f) =
      ground (arith, get-forward s id id f e v there) in
    forward_all-last_key (forward s id f) id (note_frame e f) fs (forward-IsRelay s id f v) there'
    ∙ ap (λ (x : StreamEntry). some (record x { last_keyframe = last_key x.last_keyframe fs }))
        (note_frame-entry e f)
