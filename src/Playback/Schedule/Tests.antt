-- ===== src/Playback/Schedule/Tests.antt =====
-- The scheduler on concrete frames, and its theorems at concrete inputs.
use stross.Base.{ℕ, ◌+◌, ◌≡◌, refl, List, [], ◌∷◌, map, arith}
use stross.Playback.Schedule.{
  PlaybackScheduler, RenderedFrame, Queued, new, push, push_anchored, trim, trim_queue, emit_due,
  drop_over_watermark,
}
use stross.Playback.Schedule.Invariant.{IsScheduler, new-IsScheduler, push-IsScheduler}
use stross.Playback.Schedule.Emit.{SplitsAt, emit_due-SplitsAt}
use stross.Playback.Schedule.Watermark.{CutsBack, drop_over_watermark-CutsBack, Ascending}

abbrev picture : ℕ → RenderedFrame
picture pts = record { pts_ms = pts; width = 1; height = 1; rgba = 0 ∷ 0 ∷ 0 ∷ 255 ∷ [] }

abbrev empty : PlaybackScheduler
unfolding new
empty = new 200000000 1000000000

-- Frames of 40 ms, the last of them early.
abbrev three : PlaybackScheduler
three = push (push (push empty (picture 1000) 0) (picture 1040) 0) (picture 1400) 0

three-IsScheduler : IsScheduler three
unfolding empty new
three-IsScheduler =
    push-IsScheduler (push (push empty (picture 1000) 0) (picture 1040) 0) (picture 1400) 0 (
      push-IsScheduler (push empty (picture 1000) 0) (picture 1040) 0
        (push-IsScheduler empty (picture 1000) 0 (new-IsScheduler 200000000 1000000000)))

times_of : List Queued → List ℕ
times_of qs = map (λ q. q.play_at) qs

push_times : times_of (three.queue) ≡ 0 ∷ 40000000 ∷ 400000000 ∷ []
unfolding times_of empty new push push_anchored trim trim_queue
push_times = refl

-- A frame whose timestamp is behind that of an earlier one, but not behind the anchor, waits behind it.
push_behind :
    times_of ((push three (picture 1010) 0).queue) ≡ 0 ∷ 40000000 ∷ 400000000 ∷ 10000000 ∷ []
unfolding times_of empty new push push_anchored trim trim_queue
push_behind = refl

push-IsScheduler_example : IsScheduler (push empty (picture 1000) 0)
unfolding empty new
push-IsScheduler_example =
    push-IsScheduler empty (picture 1000) 0 (new-IsScheduler 200000000 1000000000)

emit_due-SplitsAt_example :
    SplitsAt 50000000 three.queue ((emit_due three 50000000).0) ((emit_due three 50000000).1.queue)
    × IsScheduler ((emit_due three 50000000).1)
emit_due-SplitsAt_example = emit_due-SplitsAt three 50000000 three-IsScheduler

drop_over_watermark-CutsBack_example :
    CutsBack
      (0 + 200000000)
      three.queue
      ((drop_over_watermark three 0).1.queue)
      ((drop_over_watermark three 0).0)
unfolding empty new push push_anchored trim_queue
drop_over_watermark-CutsBack_example = drop_over_watermark-CutsBack three 0

three-Ascending : Ascending three.queue
unfolding empty new push push_anchored trim trim_queue
three-Ascending = omega arith
