-- ===== src/Relay/Push/Life.antt =====
-- The whole life of a pushed stream.
use mathlib.Core.Logic.{ite}
use mathlib.Core.List.{reverse, reverse-cons}
use stross.Base.{
  ℕ, ◌≡◌, refl, ◌∙◌, ap, Bool, true, false, List, [], ◌∷◌, ◌++◌, append_assoc, map, Option, none,
  some, arith,
}
use stross.Proto.Message.{Text, Text-discrete}
use stross.Proto.Frame.{Frame}
use stross.Relay.{
  RelayState, ShareToken, StreamEntry, stream_started, stream_ended, get, forward, note_frame,
}
use stross.Relay.Laws.{
  IsRelay, is_live, get-end_stream, get-forward, forward-IsRelay, forward-known, note_frame-tx,
  end_stream-known,
}
use stross.Relay.Push.{
  Hello, PushState, Received, packet, control, media, hello, welcome, send, close, breaks, admits,
  open_stream, hello_info, handle_push_loop, handle_push,
}
use stross.Relay.Push.Rounds.{
  open_stream-IsRelay, get-open_stream, loop-hello, loop-media, loop-stop, Stops,
}

abbrev pub frames_then : List Frame → Received → List Received → List Received
frames_then [] r rs = r ∷ rs
frames_then (f ∷ fs) r rs = packet (media f) ∷ frames_then fs r rs

-- From `s` to `t` the frames went out on one channel, in order, the stream was reported as ended
-- and taken out, and every other stream is as it was.
pub record Carried (s : RelayState) (t : PushState) (id : Text) (tx : ℕ) (fs : List Frame)
    : Type 0 where
  pub frames_sent : t.relay.sent ≡ reverse (map (λ f. (tx, f)) fs) ++ s.sent
  pub reported : t.relay.events ≡ stream_ended id ∷ s.events
  pub taken_out : (j : Text) → get t.relay j ≡ ite (Text-discrete j id) none (get s j)
  pub closed : t.calls ≡ close ∷ []
  pub done : t.flow ≡ breaks

module _ (from_token_string : Text → Option ShareToken) (local : Bool) (now : ℕ) where
  abbrev loop : RelayState → Text → List Received → PushState
  loop s id rs = handle_push_loop from_token_string local now s (some id) rs

  stop-Carried :
      (s : RelayState) (id : Text) (e : StreamEntry) (tx : ℕ) (r : Received) (rs : List Received)
      → IsRelay s
      → get s id ≡ some e
      → Stops r
      → Carried s (loop s id (r ∷ rs)) id tx []
  stop-Carried s id e tx r rs v there h =
      rw (loop-stop from_token_string local now s id r rs h) (record {
        frames_sent = (end_stream-known s id e there).1;
        reported = (end_stream-known s id e there).0;
        taken_out = λ j. get-end_stream s id j v;
        closed = refl;
        done = refl;
      })

  sent-cons :
      (tx : ℕ) (f : Frame) (fs : List Frame) (log : List (ℕ × Frame))
      → reverse (map (λ x. (tx, x)) fs) ++ (tx, f) ∷ log
        ≡ reverse (map (λ x. (tx, x)) (f ∷ fs)) ++ log
  sent-cons tx f fs log =
      rw (reverse-cons {A = ℕ × Frame} (tx, f) (map (λ x. (tx, x)) fs), append_assoc) refl

  pub loop-Carried :
      (s : RelayState) (id : Text) (e : StreamEntry) (tx : ℕ) (fs : List Frame) (r : Received)
      (rs : List Received)
      → IsRelay s
      → get s id ≡ some e
      → e.tx ≡ tx
      → Stops r
      → Carried s (loop s id (frames_then fs r rs)) id tx fs
  loop-Carried s id e tx [] r rs v there _ h = stop-Carried s id e tx r rs v there h
  loop-Carried s id e tx (f ∷ fs) r rs v there same h =
      let s' = forward s id f in
      let there' : get s' id ≡ some (note_frame e f) =
        ground (arith, get-forward s id id f e v there) in
      let after = forward-known s id f e there in
      let c =
        loop-Carried s' id (note_frame e f) tx fs r rs (forward-IsRelay s id f v) there'
          (note_frame-tx e f ∙ same) h in
      rw (loop-media from_token_string local now s id f (frames_then fs r rs)) (record {
        frames_sent =
            c.frames_sent
            ∙ ap (λ l. reverse (map (λ x. (tx, x)) fs) ++ l)
                (after.0 ∙ ap (λ n. (n, f) ∷ s.sent) same)
            ∙ sent-cons tx f fs s.sent;
        reported = c.reported ∙ ap (◌∷◌ (stream_ended id)) (after.1);
        taken_out = λ j. ground (arith, c.taken_out j, get-forward s id j f e v there);
        closed = c.closed;
        done = c.done;
      })

  -- A Hello that is let in for a free id, frames, and then Bye, the end of the connection, an error or
  -- silence: the session is welcomed and at the end closed, the start and the end of the stream are
  -- reported, the frames go out in order on the next new channel, and every lookup in the table is as
  -- before.
  pub push_life :
      (s : RelayState) (h : Hello) (fs : List Frame) (r : Received) (rs : List Received)
      → IsRelay s
      → admits from_token_string s h local ≡ true
      → is_live s h.stream_id ≡ false
      → Stops r
      → let t =
          handle_push from_token_string local now s
            (packet (control (hello h)) ∷ frames_then fs r rs) in
        (t.calls ≡ send (control (welcome h.stream_id)) ∷ close ∷ [])
        × (t.flow ≡ breaks)
        × (t.relay.sent ≡ reverse (map (λ f. (s.next_tx, f)) fs) ++ s.sent)
        × (t.relay.events
            ≡ stream_ended h.stream_id ∷ stream_started h.stream_id (hello_info h now) ∷ s.events)
        × ((j : Text) → get t.relay j ≡ get s j)
  unfolding handle_push open_stream
  push_life s h fs r rs v a free stop =
      let s' = open_stream s h now in
      let e : StreamEntry = record {
        info = hello_info h now;
        tx = s.next_tx;
        last_keyframe = none;
      } in
      let there : get s' h.stream_id ≡ some e =
        ground (arith, get-open_stream s h now h.stream_id v) in
      let c =
        loop-Carried s' h.stream_id e s.next_tx fs r rs (open_stream-IsRelay s h now v) there refl
          stop in
      rw (loop-hello from_token_string local now s none h (frames_then fs r rs) a free) (
        ap (◌∷◌ (send (control (welcome h.stream_id)))) c.closed,
        c.done,
        c.frames_sent,
        c.reported,
        λ j. ground (arith, c.taken_out j, get-open_stream s h now j v, free),
      )
