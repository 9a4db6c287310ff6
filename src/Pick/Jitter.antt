-- ===== src/Pick/Jitter.antt =====
-- crates/stross-pick/src/buffer.rs: the jitter buffer of one track.
-- Instants and durations are whole nanoseconds. Statistics are counted without the wrap of a u64.
-- `capacity` is positive where a slot is looked up: the source divides by it.
pub mod Order
pub mod Slots
pub mod Cursor
pub mod Poll
pub mod Resync
pub mod Invariant
mod Tests
use stross.Base.{
  ℕ, zero, suc, ◌+◌, ◌-◌, ◌*◌, ◌/◌, ◌%◌, ◌^◌, ◌≡◌, Bool, true, false, not, ◌&&◌, List, [], ◌∷◌,
  Option, none, some, ltb, leb, ◌==◌, if◌then◌else◌, length, get_elem?, set, replicate, map, min,
  max,
}
use stross.Base.Bytes.{u32_mod}
use stross.Proto.Frame.{Frame, is_keyframe}

pub record JitterConfig : Type 0 where
  pub capacity : ℕ
  pub max_wait : ℕ
  pub min_wait : ℕ
  pub adaptive : Bool
  pub require_keyframe_resync : Bool

abbrev pub default_config : JitterConfig
default_config = record {
  capacity = 512;
  max_wait = 200000000;
  min_wait = 10000000;
  adaptive = true;
  require_keyframe_resync = true;
}

pub record JitterStats : Type 0 where
  pub received : ℕ
  pub emitted : ℕ
  pub dropped_out_of_window : ℕ
  pub dropped_resync : ℕ
  pub dropped_stale : ℕ

pub record JitterBuffer : Type 0 where
  pub cfg : JitterConfig
  pub slots : List (Option Frame)
  pub next_seq : Option ℕ
  pub highest_seq : Option ℕ
  pub last_progress : Option ℕ
  pub awaiting_keyframe : Bool
  pub avg_interval : Option ℕ
  pub jitter_est : ℕ
  pub last_arrival : Option ℕ
  pub stats : JitterStats

abbrev pub seq_of : Frame → ℕ
seq_of f = f.header.seq

-- `a.abs_diff(b)`.
abbrev pub abs_diff : ℕ → ℕ → ℕ
abs_diff a b = if leb b a then a - b else b - a

pub ewma : ℕ → ℕ → ℕ
ewma cur sample =
    let diff = abs_diff sample cur in if leb cur sample then cur + diff / 8 else cur - diff / 8

-- `a.wrapping_sub(b) >= (1 << 31)`.
pub seq_lt : ℕ → ℕ → Bool
seq_lt a b = leb (2 ^ 31) ((a + u32_mod - b) % u32_mod)

-- `seq.wrapping_add(1)`.
abbrev pub seq_next : ℕ → ℕ
seq_next seq = (seq + 1) % u32_mod

pub new : JitterConfig → JitterBuffer
new cfg = record {
  cfg = cfg;
  slots = replicate (max cfg.capacity 1) none;
  next_seq = none;
  highest_seq = none;
  last_progress = none;
  awaiting_keyframe = false;
  avg_interval = none;
  jitter_est = 0;
  last_arrival = none;
  stats = record {
    received = 0;
    emitted = 0;
    dropped_out_of_window = 0;
    dropped_resync = 0;
    dropped_stale = 0;
  };
}

-- `Ord::clamp`, whose caller has `lo ≤ hi`.
abbrev pub clamp : ℕ → ℕ → ℕ → ℕ
clamp x lo hi = if ltb x lo then lo else if ltb hi x then hi else x

pub effective_wait : JitterBuffer → ℕ
effective_wait jb =
    if not (jb.cfg.adaptive)
    then jb.cfg.max_wait
    else clamp (jb.jitter_est * 4) jb.cfg.min_wait jb.cfg.max_wait

abbrev deviation : ℕ → ℕ → ℕ
deviation interval avg = if leb avg interval then interval - avg else avg - interval

-- The block of `push` behind `if let Some(last) = self.last_arrival`.
update_estimate : JitterBuffer → ℕ → JitterBuffer
update_estimate jb now = elim jb.last_arrival [
  | none ↦ jb
  | some last ↦
      let interval = now - last in
      let avg : ℕ = elim jb.avg_interval [ none ↦ interval | some avg ↦ ewma avg interval ] in
      record jb {
        avg_interval = some avg;
        jitter_est = ewma jb.jitter_est (deviation interval avg);
      }
]

abbrev pub count_stale : JitterBuffer → JitterBuffer
count_stale jb = record jb {
  stats = record (jb.stats) { dropped_stale = suc (jb.stats.dropped_stale) };
}

-- `self.slots[i].as_ref()`.
abbrev pub slot_at : List (Option Frame) → ℕ → Option Frame
slot_at slots i = elim (get_elem? slots i) [ none ↦ none | some s ↦ s ]

pub place : JitterBuffer → Frame → JitterBuffer
place jb frame =
    let idx = seq_of frame % jb.cfg.capacity in
    elim (slot_at jb.slots idx) [
      | none ↦ record jb { slots = set jb.slots idx (some frame) }
      | some existing ↦
          if seq_lt (seq_of existing) (seq_of frame)
          then record (count_stale jb) { slots = set jb.slots idx (some frame) }
          else count_stale jb
    ]

abbrev pub clear_slots : List (Option Frame) → List (Option Frame)
clear_slots slots = map (λ _. none) slots

-- The keyframe branch of `push`.
push_keyframe : JitterBuffer → Frame → ℕ → JitterBuffer
push_keyframe jb frame now =
    let accept =
      place
        (record jb {
          slots = clear_slots jb.slots;
          next_seq = some (seq_of frame);
          highest_seq = some (seq_of frame);
          awaiting_keyframe = false;
          last_progress = some now;
        })
        frame in
    elim jb.next_seq [
      | none ↦ accept
      | some next ↦ if seq_lt (seq_of frame) next then count_stale jb else accept
    ]

abbrev raise_highest : Option ℕ → ℕ → Option ℕ
raise_highest none seq = some seq
raise_highest (some h) seq = some (if seq_lt h seq then seq else h)

-- The branch of `push` for the other frames.
push_other : JitterBuffer → Frame → ℕ → JitterBuffer
push_other jb frame now =
    let highest = raise_highest jb.highest_seq (seq_of frame) in
    let first =
      place
        (record jb {
          next_seq = some (seq_of frame);
          last_progress = some now;
          highest_seq = highest;
        })
        frame in
    let later = place (record jb { highest_seq = highest }) frame in
    if jb.awaiting_keyframe
    then record jb { stats = record (jb.stats) { dropped_resync = suc (jb.stats.dropped_resync) } }
    else elim jb.next_seq [
      | none ↦ first
      | some next ↦ if seq_lt (seq_of frame) next then count_stale jb else later
    ]

-- The part of `push` before the test for a keyframe.
arrive : JitterBuffer → ℕ → JitterBuffer
unfolding update_estimate
arrive jb now =
    record (update_estimate
      (record jb { stats = record (jb.stats) { received = suc (jb.stats.received) } }) now) {
        last_arrival = some now;
      }

pub push : JitterBuffer → Frame → ℕ → JitterBuffer
push jb frame now =
    let jb' = arrive jb now in
    if is_keyframe frame.header then push_keyframe jb' frame now else push_other jb' frame now

-- The frame at the cursor, if its slot holds it.
pub ready_frame : JitterBuffer → ℕ → Option Frame
ready_frame jb next = elim (slot_at jb.slots (next % jb.cfg.capacity)) [
  | none ↦ none
  | some f ↦ if seq_of f == next then some f else none
]

-- The wait at the cursor is over.
overdue : JitterBuffer → ℕ → Bool
overdue jb now = elim jb.last_progress [ none ↦ false | some t ↦ ltb (effective_wait jb) (now - t) ]

-- The cursor has passed every frame that arrived.
passed_all : JitterBuffer → ℕ → Bool
passed_all jb next = elim jb.highest_seq [ none ↦ false | some h ↦ seq_lt h next ]

-- One round of the loop of `poll`: a frame goes out, a hole is skipped, or the loop ends.
pub data PollStep : Type 0 where
  emit : Frame → JitterBuffer → PollStep
  skip : JitterBuffer → PollStep
  stop : JitterBuffer → PollStep

pub take_ready : JitterBuffer → ℕ → ℕ → JitterBuffer
take_ready jb next now = record jb {
  slots = set jb.slots (next % jb.cfg.capacity) none;
  next_seq = some (seq_next next);
  last_progress = some now;
  stats = record (jb.stats) { emitted = suc (jb.stats.emitted) };
}

pub skip_hole : JitterBuffer → ℕ → JitterBuffer
skip_hole jb next = record jb {
  next_seq = some (seq_next next);
  stats = record (jb.stats) { dropped_out_of_window = suc (jb.stats.dropped_out_of_window) };
}

pub hole_step : JitterBuffer → ℕ → ℕ → ℕ → PollStep
hole_step jb next holes now =
    if not (overdue jb now)
    then stop jb
    else if passed_all jb next
    then stop jb
    else if leb (jb.cfg.capacity % u32_mod) holes
    then stop jb
    else if jb.cfg.require_keyframe_resync
    then stop (record (skip_hole jb next) { awaiting_keyframe = true })
    else skip (skip_hole jb next)

pub poll_step : JitterBuffer → ℕ → ℕ → PollStep
poll_step jb holes now = elim jb.next_seq [
  | none ↦ stop jb
  | some next ↦ elim (ready_frame jb next) [
    | none ↦ hole_step jb next holes now
    | some f ↦ emit f (take_ready jb next now)
  ]
]

-- The loop, on fuel: `none` says that the fuel ran out. The frames come in the order of emission.
poll_loop : ℕ → JitterBuffer → ℕ → ℕ → Option (List Frame × JitterBuffer)
poll_loop zero jb holes now = none
poll_loop (suc fuel) jb holes now = elim (poll_step jb holes now) [
  | emit f jb' ↦ elim (poll_loop fuel jb' holes now) [
    | none ↦ none
    | some (fs, jb'') ↦ some (f ∷ fs, jb'')
  ]
  | skip jb' ↦ poll_loop fuel jb' (suc holes) now
  | stop jb' ↦ some ([], jb')
]

pub count_occupied : List (Option Frame) → ℕ
count_occupied [] = 0
count_occupied (none ∷ slots) = count_occupied slots
count_occupied (some f ∷ slots) = suc (count_occupied slots)

-- A round empties a slot, uses up a hole, or is the last.
abbrev poll_fuel : JitterBuffer → ℕ
poll_fuel jb = suc (count_occupied jb.slots + jb.cfg.capacity)

-- The early returns of `poll`: nothing is ready and nothing may be skipped.
blocked : JitterBuffer → ℕ → ℕ → Bool
blocked jb next now = elim (ready_frame jb next) [
  | none ↦ if not (overdue jb now) then true else passed_all jb next
  | some f ↦ false
]

pub poll : JitterBuffer → ℕ → Option (List Frame × JitterBuffer)
poll jb now = if jb.awaiting_keyframe then some ([], jb) else elim jb.next_seq [
  | none ↦ some ([], jb)
  | some next ↦ if blocked jb next now then some ([], jb) else poll_loop (poll_fuel jb) jb 0 now
]
