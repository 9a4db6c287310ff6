-- ===== src/Pick/Jitter/Resync.antt =====
-- After a lost frame: silence until a key frame, and the restart that the key frame makes.
use stross.Base.{
  ℕ, suc, ◌+◌, ◌%◌, ◌<◌, ◌≡◌, refl, ap, true, false, List, [], ◌∷◌, ◌++◌, Option, none, some, arith,
  length, length-set, set, ◌∙◌, ◌-◌, All,
}
use stross.Proto.Frame.{Frame, is_keyframe}
use stross.Pick.Jitter.Poll.{poll_step_hole, poll_step_ready}
use stross.Pick.Jitter.Slots.{slot_at-clear, slot_at-set, length-clear}
use stross.Pick.Jitter.{
  JitterBuffer, emit, stop, push, poll, arrive, push_other, push_keyframe, place, poll_loop,
  poll_step, poll_fuel, blocked, ready_frame, overdue, hole_step, clear_slots, seq_of, seq_lt,
  seq_next, take_ready, count_occupied,
}

-- What a receiver does with its buffer.
pub data Event : Type 0 where
  arrives : Frame → ℕ → Event
  polls : ℕ → Event

pub run : JitterBuffer → List Event → Option (List Frame × JitterBuffer)
run jb [] = some ([], jb)
run jb (arrives f now ∷ es) = run (push jb f now) es
run jb (polls now ∷ es) = elim (poll jb now) [
  | none ↦ none
  | some (fs, jb') ↦ elim (run jb' es) [ none ↦ none | some (gs, jb'') ↦ some (fs ++ gs, jb'') ]
]

-- The event is no key frame.
abbrev pub NoKeyframe : Event → Type 0
NoKeyframe (arrives f now) = is_keyframe f.header ≡ false
NoKeyframe (polls now) = Unit {0}

abbrev pub arrivals : List Event → ℕ
arrivals [] = 0
arrivals (arrives f now ∷ es) = suc (arrivals es)
arrivals (polls now ∷ es) = arrivals es

arrive_keeps :
    (jb : JitterBuffer) (now : ℕ)
    → ((arrive jb now).awaiting_keyframe ≡ jb.awaiting_keyframe)
      × ((arrive jb now).stats.dropped_resync ≡ jb.stats.dropped_resync)
unfolding arrive
arrive_keeps jb now = ground arith

push_awaiting :
    (jb : JitterBuffer) (f : Frame) (now : ℕ)
    → jb.awaiting_keyframe ≡ true
    → is_keyframe f.header ≡ false
    → ((push jb f now).awaiting_keyframe ≡ true)
      × ((push jb f now).stats.dropped_resync ≡ suc (jb.stats.dropped_resync))
unfolding push push_other
push_awaiting jb f now w k = ground (arith, arrive_keeps jb now)

poll_awaiting :
    (jb : JitterBuffer) (now : ℕ) → jb.awaiting_keyframe ≡ true → poll jb now ≡ some ([], jb)
unfolding poll
poll_awaiting jb now w = ground arith

-- A buffer that stays silent and counts every arrival as dropped for the resync.
pub record Silent (jb : JitterBuffer) (es : List Event) : Type 0 where
  pub after : JitterBuffer
  pub nothing_out : run jb es ≡ some ([], after)
  pub still_awaiting : after.awaiting_keyframe ≡ true
  pub all_dropped : after.stats.dropped_resync ≡ jb.stats.dropped_resync + arrivals es

-- While a buffer waits for a key frame and none arrives, nothing goes out, whatever else arrives and
-- however often it is polled; it keeps waiting, and each arrival is counted in `dropped_resync`.
pub awaiting-Silent :
    (es : List Event) (jb : JitterBuffer)
    → jb.awaiting_keyframe ≡ true
    → All NoKeyframe es
    → Silent jb es
unfolding run
awaiting-Silent [] jb w k = record {
  after = jb;
  nothing_out = refl;
  still_awaiting = w;
  all_dropped = omega arith;
}
awaiting-Silent (arrives f now ∷ es) jb w k =
    let (w', counted) = push_awaiting jb f now w k.0 in
    let s = awaiting-Silent es (push jb f now) w' k.1 in
    record {
      after = s.after;
      nothing_out = s.nothing_out;
      still_awaiting = s.still_awaiting;
      all_dropped = omega (arith, s.all_dropped, counted);
    }
awaiting-Silent (polls now ∷ es) jb w k =
    let s = awaiting-Silent es jb w k.1 in
    record {
      after = s.after;
      nothing_out = rw (poll_awaiting jb now w, run, s.nothing_out);
      still_awaiting = s.still_awaiting;
      all_dropped = s.all_dropped;
    }

-- The state after a key frame that is not behind the cursor: it alone is held, and the cursor is at it.
abbrev restarted : JitterBuffer → Frame → ℕ → JitterBuffer
restarted jb f now = record jb {
  slots = set (clear_slots jb.slots) (seq_of f % jb.cfg.capacity) (some f);
  next_seq = some (seq_of f);
  highest_seq = some (seq_of f);
  awaiting_keyframe = false;
  last_progress = some now;
}

-- A cursor, if there is one, that the number is not behind.
abbrev pub NotBehind : Option ℕ → ℕ → Type 0
NotBehind none seq = Unit {0}
NotBehind (some next) seq = seq_lt seq next ≡ false

push_keyframe_fresh :
    (jb : JitterBuffer) (f : Frame) (now : ℕ) (next : Option ℕ)
    → jb.next_seq ≡ next
    → NotBehind next (seq_of f)
    → push_keyframe jb f now ≡ restarted jb f now
unfolding push_keyframe place
push_keyframe_fresh jb f now none e fresh =
    ground (arith, slot_at-clear jb.slots (seq_of f % jb.cfg.capacity))
push_keyframe_fresh jb f now (some next) e fresh =
    ground (arith, slot_at-clear jb.slots (seq_of f % jb.cfg.capacity))

hole_step_fresh :
    (jb : JitterBuffer) (next holes now : ℕ)
    → overdue jb now ≡ false
    → hole_step jb next holes now ≡ stop jb
unfolding hole_step
hole_step_fresh jb next holes now e = ground arith

two_rounds :
    (fuel : ℕ) (jb jb' : JitterBuffer) (f : Frame) (now : ℕ)
    → poll_step jb 0 now ≡ emit f jb'
    → poll_step jb' 0 now ≡ stop jb'
    → poll_loop (suc (suc fuel)) jb 0 now ≡ some (f ∷ [], jb')
unfolding poll_loop
two_rounds fuel jb jb' f now e e' = rw (e, poll_loop, e', poll_loop)

-- The only frame of the restarted ring goes out; then the window of the next hole has just begun.
module _ (jb : JitterBuffer) (f : Frame) (now later : ℕ) (positive : 0 < jb.cfg.capacity)
    (size : length jb.slots ≡ jb.cfg.capacity) where
  abbrev first : JitterBuffer
  first = restarted jb f now

  abbrev second : JitterBuffer
  second = take_ready first (seq_of f) later

  home-lt-size : seq_of f % jb.cfg.capacity < length (clear_slots jb.slots)
  home-lt-size = grind (arith, positive, size, length-clear jb.slots)

  first_ready : ready_frame first (seq_of f) ≡ some f
  unfolding ready_frame
  first_ready = ground (
    arith,
    slot_at-set (clear_slots jb.slots) (seq_of f % jb.cfg.capacity) (seq_of f % jb.cfg.capacity)
        (some f) home-lt-size,
  )

  second_hole : ready_frame second (seq_next (seq_of f)) ≡ none
  unfolding ready_frame take_ready
  second_hole =
      let home = seq_of f % jb.cfg.capacity in
      let next = seq_next (seq_of f) % jb.cfg.capacity in
      let wide : home < length first.slots =
        omega (arith, length-set (clear_slots jb.slots) home (some f), home-lt-size) in
      ground (
        arith,
        slot_at-set first.slots home next none wide,
        slot_at-set (clear_slots jb.slots) home next (some f) home-lt-size,
        slot_at-clear jb.slots next,
      )

  second_fresh : overdue second later ≡ false
  unfolding overdue take_ready
  second_fresh = ground arith

  entered : poll first later ≡ poll_loop (poll_fuel first) first 0 later
  unfolding poll blocked
  entered = ground (arith, first_ready)

  second_cursor : second.next_seq ≡ some (seq_next (seq_of f))
  unfolding take_ready
  second_cursor = refl

  poll-restarted : poll first later ≡ some (f ∷ [], second)
  poll-restarted =
      let fuel : poll_fuel first ≡ suc (suc (count_occupied first.slots + jb.cfg.capacity - 1)) =
        omega (arith, positive) in
      let one = poll_step_ready first (seq_of f) 0 later refl f first_ready in
      let two =
        poll_step_hole second (seq_next (seq_of f)) 0 later second_cursor second_hole
        ∙ hole_step_fresh second (seq_next (seq_of f)) 0 later second_fresh in
      entered ∙ rw fuel (two_rounds _ first second f later one two)

arrive_ring :
    (jb : JitterBuffer) (now : ℕ)
    → ((arrive jb now).cfg ≡ jb.cfg)
      × ((arrive jb now).slots ≡ jb.slots)
      × ((arrive jb now).next_seq ≡ jb.next_seq)
unfolding arrive
arrive_ring jb now = ground arith

-- A key frame that is not behind the cursor ends the wait: it alone goes out at the next poll,
-- whatever the ring held before.
pub poll-push_keyframe :
    (jb : JitterBuffer) (f : Frame) (now later : ℕ)
    → 0 < jb.cfg.capacity
    → length jb.slots ≡ jb.cfg.capacity
    → is_keyframe f.header ≡ true
    → NotBehind jb.next_seq (seq_of f)
    → (after : JitterBuffer) × (poll (push jb f now) later ≡ some (f ∷ [], after))
      × (after.awaiting_keyframe ≡ false)
      × (after.next_seq ≡ some (seq_next (seq_of f)))
unfolding push take_ready
poll-push_keyframe jb f now later positive size key fresh =
    let jb' = arrive jb now in
    let (cfg, slots, cursor) = arrive_ring jb now in
    let start : push jb f now ≡ restarted jb' f now =
      rw key (push_keyframe_fresh jb' f now jb.next_seq cursor fresh) in
    let out =
      poll-restarted jb' f now later (omega (arith, positive, ap (λ c. c.capacity) cfg))
        (omega (arith, size, ap length slots, ap (λ c. c.capacity) cfg)) in
    (take_ready (restarted jb' f now) (seq_of f) later, rw start out, refl, refl)
