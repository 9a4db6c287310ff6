-- ===== src/Relay/Push/Leak.antt =====
-- Streams that get lost: a session that says Hello twice leaves its first stream behind, and a session
-- whose stream was revoked takes out the stream that someone else has opened since.
use stross.Base.{
  ℕ, ◌≡◌, ◌≢◌, refl, ◌∙◌, ap, Bool, true, false, List, [], ◌∷◌, Option, none, some, arith,
}
use stross.Proto.Message.{Text}
use stross.Relay.{RelayState, ShareToken, StreamEntry, stream_ended, end_stream, revoke_stream}
use stross.Relay.Laws.{
  IsRelay, is_live, live-end_stream, revoke_stream-IsRelay, next_tx-revoke_stream,
}
use stross.Proto.Frame.{Frame}
use stross.Relay.Push.Life.{loop-Carried}
use stross.Relay.Push.{
  Hello, PushState, Received, packet, control, media, hello, hello_info, bye, admits, open_stream,
  handle_push_loop, handle_push,
}
use stross.Relay.Push.Rounds.{
  open_stream-IsRelay, get-open_stream, live-open_stream, admits-open_stream, loop-hello, loop-stop,
  Stops,
}

module _ (from_token_string : Text → Option ShareToken) (local : Bool) (now : ℕ) where
  -- Two Hello for different streams that are let in, and Bye: the second stream is gone and the
  -- first one is in the table still.
  pub second_hello-leaks :
      (s : RelayState) (a b : Hello)
      → IsRelay s
      → a.stream_id ≢ b.stream_id
      → admits from_token_string s a local ≡ true
      → admits from_token_string s b local ≡ true
      → is_live s a.stream_id ≡ false
      → is_live s b.stream_id ≡ false
      → let t =
          (handle_push from_token_string local now s (
            packet (control (hello a))
            ∷ packet (control (hello b))
            ∷ packet (control bye)
            ∷ [])).relay in
        (is_live t a.stream_id ≡ true) × (is_live t b.stream_id ≡ false)
  unfolding handle_push
  second_hello-leaks s a b v n pa pb fa fb =
      let s1 = open_stream s a now in
      let v1 = open_stream-IsRelay s a now v in
      let s2 = open_stream s1 b now in
      let v2 = open_stream-IsRelay s1 b now v1 in
      let free : is_live s1 b.stream_id ≡ false =
        ground (arith, live-open_stream s a now b.stream_id v) in
      let stop = packet (control bye) ∷ [] in
      let ends : (handle_push from_token_string local now s
            (packet (control (hello a)) ∷ packet (control (hello b)) ∷ stop)).relay
          ≡ end_stream s2 b.stream_id =
        ap (λ (t : PushState). t.relay)
          (loop-hello from_token_string local now s none a (packet (control (hello b)) ∷ stop) pa
            fa)
        ∙ ap (λ (t : PushState). t.relay)
            (loop-hello from_token_string local now s1 (some a.stream_id) b stop
              (admits-open_stream from_token_string local now s a b ∙ pb) free)
        ∙ ap (λ (t : PushState). t.relay)
            (loop-stop from_token_string local now s2 b.stream_id (packet (control bye)) [] tt) in
      rw ends (
        ground (
          arith,
          live-end_stream s2 b.stream_id a.stream_id v2,
          live-open_stream s1 b now a.stream_id v1,
          live-open_stream s a now a.stream_id v,
        ),
        ground (arith, live-end_stream s2 b.stream_id b.stream_id v2),
      )

  -- A session goes on with its id after the stream was revoked and another session has opened a stream
  -- of that id: its next frame goes out on the channel of the new stream, and when it ends it takes
  -- the new stream out and reports its end.
  pub revoked_pusher-ends_other :
      (s : RelayState) (h : Hello) (f : Frame) (r : Received) (rs : List Received)
      → IsRelay s
      → Stops r
      → let s' = open_stream (revoke_stream s h.stream_id) h now in
        let t =
          (handle_push_loop from_token_string local now s'
            (some h.stream_id)
            (packet (media f) ∷ r ∷ rs)).relay in
        (t.sent ≡ (s.next_tx, f) ∷ s'.sent)
        × (t.events ≡ stream_ended h.stream_id ∷ s'.events)
        × (is_live s' h.stream_id ≡ true)
        × (is_live t h.stream_id ≡ false)
  revoked_pusher-ends_other s h f r rs v stop =
      let u = revoke_stream s h.stream_id in
      let vu = revoke_stream-IsRelay s h.stream_id v in
      let there = get-open_stream u h now h.stream_id vu in
      let e : StreamEntry = record {
        info = hello_info h now;
        tx = u.next_tx;
        last_keyframe = none;
      } in
      let c =
        loop-Carried from_token_string local now (open_stream u h now) h.stream_id e u.next_tx
          (f ∷ []) r rs (open_stream-IsRelay u h now vu) (ground (arith, there)) refl stop in
      (
        c.frames_sent
            ∙ ap (λ n. (n, f) ∷ (open_stream u h now).sent) (next_tx-revoke_stream s h.stream_id),
        c.reported,
        ground (arith, there),
        ground (arith, c.taken_out h.stream_id),
      )
