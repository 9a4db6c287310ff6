-- ===== src/Relay/Laws.antt =====
-- How the operations of a relay change the table, the events and the frames sent.
use mathlib.Core.Logic.{ite}
use stross.Base.{
  ◌≡◌, none, some, Option-cases, if◌then◌else◌, arith, length, inl, inr, ◌∙◌, ◌∷◌, Bool, false,
}
use stross.Base.Keyed.{is_some}
use stross.Proto.Message.{Text, Text-discrete}
use stross.Proto.Frame.{Frame}
use stross.Relay.Table.Shards.{get-insert, get-remove, length-insert, length-remove}
use stross.Relay.Table.{stream_shards}
use stross.Relay.Table
use stross.Relay.{
  RelayState, StreamEntry, stream_ended, StreamInfo, get, forward, note_frame, end_stream,
  revoke_stream, add_stream,
}

-- The table has its sixteen shards.
abbrev pub IsRelay : RelayState → Type 0
IsRelay s = length s.streams ≡ stream_shards

abbrev pub is_live : RelayState → Text → Bool
is_live s id = is_some (get s id)

pub forward-IsRelay :
    (s : RelayState) (id : Text) (f : Frame) → IsRelay s → IsRelay (forward s id f)
unfolding forward
forward-IsRelay s id f v = elim (Option-cases (get s id)) [
  | inl e ↦ rw (e, forward) v
  | inr (a, e) ↦ rw (e, forward) (length-insert id (note_frame a f) s.streams ∙ v)
]

pub end_stream-IsRelay : (s : RelayState) (id : Text) → IsRelay s → IsRelay (end_stream s id)
unfolding end_stream
end_stream-IsRelay s id v = ground (arith, length-remove id s.streams)

pub add_stream-IsRelay :
    (s : RelayState) (info : StreamInfo) → IsRelay s → IsRelay (add_stream s info)
unfolding add_stream
add_stream-IsRelay s info v = length-insert info.stream_id _ s.streams ∙ v

pub get-end_stream :
    (s : RelayState) (id j : Text)
    → IsRelay s
    → get (end_stream s id) j ≡ ite (Text-discrete j id) none (get s j)
unfolding end_stream get
get-end_stream s id j v = ground (arith, get-remove id j s.streams)

pub get-add_stream :
    (s : RelayState) (info : StreamInfo) (j : Text)
    → IsRelay s
    → get (add_stream s info) j
      ≡ ite
          (Text-discrete j info.stream_id)
          (some (record { info = info; tx = s.next_tx; last_keyframe = none }))
          (get s j)
unfolding add_stream get
get-add_stream s info j v = get-insert info.stream_id j _ s.streams v

pub live-forward :
    (s : RelayState) (id j : Text) (f : Frame)
    → IsRelay s
    → is_live (forward s id f) j ≡ is_live s j
unfolding forward get
live-forward s id j f v = elim (Option-cases (get s id)) [
  | inl e ↦ ground (arith, e)
  | inr (a, e) ↦ ground (arith, e, get-insert id j (note_frame a f) s.streams)
]

pub live-end_stream :
    (s : RelayState) (id j : Text)
    → IsRelay s
    → is_live (end_stream s id) j ≡ ite (Text-discrete j id) false (is_live s j)
live-end_stream s id j v = ground (arith, get-end_stream s id j v)

pub get-forward :
    (s : RelayState) (id j : Text) (f : Frame) (e : StreamEntry)
    → IsRelay s
    → get s id ≡ some e
    → get (forward s id f) j ≡ ite (Text-discrete j id) (some (note_frame e f)) (get s j)
unfolding forward get
get-forward s id j f e v there = ground (arith, there, get-insert id j (note_frame e f) s.streams)

pub forward-known :
    (s : RelayState) (id : Text) (f : Frame) (e : StreamEntry)
    → get s id ≡ some e
    → ((forward s id f).sent ≡ (e.tx, f) ∷ s.sent) × ((forward s id f).events ≡ s.events)
unfolding forward
forward-known s id f e there = ground (arith, there)

pub note_frame-tx : (e : StreamEntry) (f : Frame) → (note_frame e f).tx ≡ e.tx
unfolding note_frame
note_frame-tx e f = ground arith

pub end_stream-known :
    (s : RelayState) (id : Text) (e : StreamEntry)
    → get s id ≡ some e
    → ((end_stream s id).events ≡ stream_ended id ∷ s.events) × ((end_stream s id).sent ≡ s.sent)
unfolding end_stream get Table.remove
end_stream-known s id e there = ground (arith, there)

pub revoke_stream-IsRelay : (s : RelayState) (id : Text) → IsRelay s → IsRelay (revoke_stream s id)
unfolding revoke_stream
revoke_stream-IsRelay s id v = end_stream-IsRelay _ id v

pub next_tx-revoke_stream : (s : RelayState) (id : Text) → (revoke_stream s id).next_tx ≡ s.next_tx
unfolding revoke_stream end_stream
next_tx-revoke_stream s id = ground arith

pub events-forward : (s : RelayState) (id : Text) (f : Frame) → (forward s id f).events ≡ s.events
unfolding forward
events-forward s id f = ground arith

pub events-end_stream :
    (s : RelayState) (id : Text)
    → (end_stream s id).events ≡ (if is_live s id then stream_ended id ∷ s.events else s.events)
unfolding end_stream get Table.remove
events-end_stream s id = ground arith

pub controlled-forward :
    (s : RelayState) (id : Text) (f : Frame) → (forward s id f).controlled ≡ s.controlled
unfolding forward
controlled-forward s id f = ground arith

pub controlled-end_stream :
    (s : RelayState) (id : Text) → (end_stream s id).controlled ≡ s.controlled
unfolding end_stream
controlled-end_stream s id = ground arith

pub live-revoke_stream :
    (s : RelayState) (id j : Text)
    → IsRelay s
    → is_live (revoke_stream s id) j ≡ ite (Text-discrete j id) false (is_live s j)
unfolding revoke_stream get
live-revoke_stream s id j v = unfold get in (live-end_stream _ id j v)

pub proxies-end_stream : (s : RelayState) (id : Text) → (end_stream s id).proxies ≡ s.proxies
unfolding end_stream
proxies-end_stream s id = ground arith
