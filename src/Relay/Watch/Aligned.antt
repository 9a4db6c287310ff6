-- ===== src/Relay/Watch/Aligned.antt =====
-- What a watcher is sent, described from the frames received between two losses.
use stross.Base.{◌≡◌, refl, Bool, true, false, ◌&&◌, List, [], ◌∷◌, ◌++◌, arith, if◌then◌else◌}
use stross.Proto.Frame.{Frame}
use stross.Relay.Watch.{Receipt, frame, lagged, closed, is_video, can_start, watch_loop}

abbrev pub starts : Frame → Bool
starts f = is_video f && can_start f

-- Of the frames from a loss on: no video before the first frame at which a decoder can start, and
-- everything from there.
abbrev pub from_start : List Frame → List Frame
from_start [] = []
from_start (f ∷ fs) =
    if starts f then f ∷ fs else if is_video f then from_start fs else f ∷ from_start fs

-- The frames of each segment as the receiver gives them, a loss between two segments, and the
-- channel closed at the end; every send succeeds.
abbrev pub received : List Frame → List (List Frame) → List (Receipt × Bool)
received [] [] = (closed, true) ∷ []
received [] (seg ∷ segs) = (lagged, true) ∷ received seg segs
received (f ∷ fs) segs = (frame f, true) ∷ received fs segs

abbrev pub after_losses : List (List Frame) → List Frame
after_losses [] = []
after_losses (seg ∷ segs) = from_start seg ++ after_losses segs

-- When every send succeeds: until the first loss a watcher that began with a cached key frame is sent
-- every frame. From the start of another watcher, and from each loss on, it is sent no video before the
-- next key or configuration frame, and everything else. Then the loop ends with the channel.
pub watch_loop-received :
    (segs : List (List Frame)) (fs : List Frame) (started : Bool)
    → watch_loop started (received fs segs)
      ≡ ((if started then fs else from_start fs) ++ after_losses segs, true)
unfolding watch_loop can_start
watch_loop-received [] [] true = refl
watch_loop-received [] [] false = refl
watch_loop-received (seg ∷ segs) [] true = watch_loop-received segs seg false
watch_loop-received (seg ∷ segs) [] false = watch_loop-received segs seg false
watch_loop-received segs (f ∷ fs) true = ground (arith, watch_loop-received segs fs true)
watch_loop-received segs (f ∷ fs) false =
    ground (arith, watch_loop-received segs fs true, watch_loop-received segs fs false)

-- The first video frame, if there is one, is one at which a decoder can start.
abbrev pub video_starts : List Frame → Bool
video_starts [] = true
video_starts (f ∷ fs) = if is_video f then can_start f else video_starts fs

-- Whatever a watcher without a key frame receives and whichever sends fail, the first video frame
-- handed to its session is a key or configuration frame.
pub watch_loop-video_starts :
    (rs : List (Receipt × Bool)) → video_starts ((watch_loop false rs).0) ≡ true
unfolding watch_loop can_start
watch_loop-video_starts [] = refl
watch_loop-video_starts ((lagged, sent) ∷ rs) = watch_loop-video_starts rs
watch_loop-video_starts ((closed, sent) ∷ rs) = refl
watch_loop-video_starts ((frame f, sent) ∷ rs) = ground (arith, watch_loop-video_starts rs)
