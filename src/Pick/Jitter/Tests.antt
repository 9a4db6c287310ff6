-- ===== src/Pick/Jitter/Tests.antt =====
-- The jitter buffer on concrete frames, and its theorems at concrete inputs.
use stross.Base.{ℕ, ◌≡◌, refl, true, false, List, [], ◌∷◌, Option, none, some, map, arith}
use stross.Proto.Frame.{Frame, with_seq, is_keyframe}
use stross.Pick.Jitter.{
  JitterBuffer, JitterConfig, default_config, new, push, poll, seq_lt, seq_of, ewma, effective_wait,
  push_keyframe, push_other, arrive, place, poll_loop, poll_step, hole_step, ready_frame,
  take_ready, skip_hole, overdue, passed_all, blocked, count_occupied,
}
use stross.Pick.Jitter.Invariant.{IsBuffer, new-IsBuffer, push-IsBuffer}
use stross.Pick.Jitter.Poll.{Drained, poll-Drained}
use stross.Pick.Jitter.Resync.{arrives, polls, Silent, awaiting-Silent, poll-push_keyframe}

abbrev video_frame : ℕ → Frame
unfolding with_seq
video_frame seq = with_seq 0 1 0 0 seq (1 ∷ [])

abbrev key_frame : ℕ → Frame
unfolding with_seq
key_frame seq = with_seq 0 1 1 0 seq (1 ∷ [])

abbrev small : JitterConfig
small = record default_config { capacity = 4 }

abbrev small_audio : JitterConfig
small_audio = record small { require_keyframe_resync = false }

-- The sequence numbers that `poll` gives out, and the buffer behind it.
poll_out : JitterBuffer → ℕ → Option (List ℕ × JitterBuffer)
unfolding poll poll_loop poll_step hole_step ready_frame take_ready skip_hole overdue passed_all
    blocked count_occupied seq_lt effective_wait
poll_out jb now = elim (poll jb now) [ none ↦ none | some (fs, jb') ↦ some (map seq_of fs, jb') ]

abbrev seqs : Option (List ℕ × JitterBuffer) → Option (List ℕ)
seqs none = none
seqs (some (ns, jb)) = some ns

-- Frames 7, 9 and 8 in this order of arrival.
reordered : JitterConfig → JitterBuffer
unfolding push push_keyframe push_other arrive place new seq_lt with_seq is_keyframe ewma
reordered cfg = push (push (push (new cfg) (key_frame 7) 0) (video_frame 9) 0) (video_frame 8) 0

-- Frames 7 and 9, with a hole at 8.
holed : JitterConfig → JitterBuffer
unfolding push push_keyframe push_other arrive place new seq_lt with_seq is_keyframe ewma
holed cfg = push (push (new cfg) (key_frame 7) 0) (video_frame 9) 0

poll_reordered : seqs (poll_out (reordered small) 0) ≡ some (7 ∷ 8 ∷ 9 ∷ [])
unfolding reordered poll_out
poll_reordered = refl

poll_holed : seqs (poll_out (holed small) 0) ≡ some (7 ∷ [])
unfolding holed poll_out
poll_holed = refl

-- The audio track waits for the hole from its last progress, and then leaves it out.
poll_holed_audio :
    seqs (elim (poll_out (holed small_audio) 0) [
      | none ↦ none
      | some (ns, jb) ↦ poll_out jb 300000000
    ])
    ≡ some (9 ∷ [])
unfolding holed poll_out
poll_holed_audio = refl

new-IsBuffer-small : IsBuffer (new small)
new-IsBuffer-small = new-IsBuffer small (omega arith)

push-IsBuffer_example : IsBuffer (push (new small) (key_frame 7) 0)
unfolding with_seq
push-IsBuffer_example = push-IsBuffer (new small) (key_frame 7) 0 (omega arith) new-IsBuffer-small

pushed-IsBuffer : IsBuffer (push (new small) (key_frame 7) 0)
unfolding with_seq
pushed-IsBuffer = push-IsBuffer (new small) (key_frame 7) 0 (omega arith) new-IsBuffer-small

poll-Drained_example :
    Drained (push (new small) (key_frame 7) 0) 0 (poll (push (new small) (key_frame 7) 0) 5)
poll-Drained_example = poll-Drained (push (new small) (key_frame 7) 0) 5 pushed-IsBuffer

abbrev waiting : JitterBuffer
unfolding new
waiting = record (new small) { awaiting_keyframe = true; next_seq = some 9 }

awaiting-Silent_example : Silent waiting (arrives (video_frame 9) 1 ∷ polls 900000000 ∷ [])
unfolding new with_seq is_keyframe
awaiting-Silent_example =
    awaiting-Silent (arrives (video_frame 9) 1 ∷ polls 900000000 ∷ []) waiting refl (refl, (tt, tt))

poll-push_keyframe_example :
    (after : JitterBuffer) × (poll (push waiting (key_frame 9) 2) 3
      ≡ some (key_frame 9 ∷ [], after))
    × (after.awaiting_keyframe ≡ false)
    × (after.next_seq ≡ some 10)
unfolding new with_seq is_keyframe seq_lt
poll-push_keyframe_example =
    poll-push_keyframe waiting (key_frame 9) 2 3 (omega arith) refl refl refl
