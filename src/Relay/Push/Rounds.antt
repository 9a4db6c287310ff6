-- ===== src/Relay/Push/Rounds.antt =====
-- The rounds of the push loop, one lemma for each kind.
use mathlib.Core.Logic.{ite}
use stross.Base.{ℕ, ◌≡◌, refl, Bool, true, false, List, [], ◌∷◌, Option, none, some, arith}
use stross.Proto.Message.{Text, Text-discrete}
use stross.Proto.Frame.{Frame}
use stross.Relay.{RelayState, ShareToken, get, forward, end_stream, is_allowed}
use stross.Relay.Laws.{IsRelay, is_live, get-add_stream, add_stream-IsRelay}
use stross.Relay.Push.{
  Hello, Received, packet, control, media, hello, welcome, bye, send, close, admits, open_stream,
  hello_info, handle_push_loop, breaks,
}

pub open_stream-IsRelay :
    (s : RelayState) (h : Hello) (now : ℕ) → IsRelay s → IsRelay (open_stream s h now)
unfolding open_stream
open_stream-IsRelay s h now v = add_stream-IsRelay s (hello_info h now) v

pub get-open_stream :
    (s : RelayState) (h : Hello) (now : ℕ) (j : Text)
    → IsRelay s
    → get (open_stream s h now) j
      ≡ ite
          (Text-discrete j h.stream_id)
          (some (record { info = hello_info h now; tx = s.next_tx; last_keyframe = none }))
          (get s j)
unfolding open_stream get
get-open_stream s h now j v = unfold get in get-add_stream s (hello_info h now) j v

pub live-open_stream :
    (s : RelayState) (h : Hello) (now : ℕ) (j : Text)
    → IsRelay s
    → is_live (open_stream s h now) j ≡ ite (Text-discrete j h.stream_id) true (is_live s j)
live-open_stream s h now j v = ground (arith, get-open_stream s h now j v)

-- What ends the loop.
abbrev pub Stops : Received → Type 0
Stops (packet (control bye)) = Unit {0}
Stops (packet _) = ⊥
Stops _ = Unit {0}

module _ (from_token_string : Text → Option ShareToken) (local : Bool) (now : ℕ) where
  pub admits-open_stream :
      (s : RelayState) (h k : Hello)
      → admits from_token_string (open_stream s h now) k local ≡ admits from_token_string s k local
  unfolding admits open_stream is_allowed
  admits-open_stream s h k = refl

  pub loop-hello :
      (s : RelayState) (sid : Option Text) (h : Hello) (rs : List Received)
      → admits from_token_string s h local ≡ true
      → is_live s h.stream_id ≡ false
      → handle_push_loop from_token_string local now s sid (packet (control (hello h)) ∷ rs) ≡ (
          let rest =
            handle_push_loop from_token_string local now
              (open_stream s h now)
              (some h.stream_id)
              rs in
          record rest { calls = send (control (welcome h.stream_id)) ∷ rest.calls })
  unfolding handle_push_loop
  loop-hello s sid h rs a f = ground (arith, a, f)

  pub loop-media :
      (s : RelayState) (id : Text) (f : Frame) (rs : List Received)
      → handle_push_loop from_token_string local now s (some id) (packet (media f) ∷ rs)
        ≡ handle_push_loop from_token_string local now (forward s id f) (some id) rs
  unfolding handle_push_loop
  loop-media s id f rs = refl

  pub loop-stop :
      (s : RelayState) (id : Text) (r : Received) (rs : List Received)
      → Stops r
      → handle_push_loop from_token_string local now s (some id) (r ∷ rs)
        ≡ record { relay = end_stream s id; stream_id = some id; calls = close ∷ []; flow = breaks }
  unfolding handle_push_loop
  loop-stop s id (packet (control bye)) rs h = refl
  loop-stop s id (packet _) rs h = elim h [ ]
  loop-stop s id _ rs h = refl
