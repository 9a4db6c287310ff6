-- ===== src/Playback/Schedule.antt =====
-- crates/stross-endpoint/src/playback/schedule.rs: frames released by their timestamps.
-- Instants and durations are whole nanoseconds, and the queue is a list with its front first.
-- Statistics are counted without the wrap of a u64.
pub mod Invariant
pub mod Emit
pub mod Watermark
mod Tests
use stross.Base.{
  ℕ, suc, ◌+◌, ◌-◌, ◌*◌, List, [], ◌∷◌, ◌++◌, Option, none, some, ltb, leb, if◌then◌else◌, length,
  Bool,
}
use stross.Base.Result.{Result, ok, err}
use mathlib.Core.List.{reverse}

pub record RenderedFrame : Type 0 where
  pub pts_ms : ℕ
  pub width : ℕ
  pub height : ℕ
  pub rgba : List ℕ

pub record SchedulerStats : Type 0 where
  pub received : ℕ
  pub emitted : ℕ
  pub held : ℕ
  pub dropped_watermark : ℕ
  pub dropped_reset : ℕ
  pub dropped_stale : ℕ
  pub reanchors : ℕ

pub record Queued : Type 0 where
  pub frame : RenderedFrame
  pub play_at : ℕ

pub record PlaybackScheduler : Type 0 where
  pub target_delay : ℕ
  pub jump_reset : ℕ
  pub anchor_pts : Option ℕ
  pub anchor_at : Option ℕ
  pub queue : List Queued
  pub stats : SchedulerStats

abbrev pub max_queue_len : ℕ
max_queue_len = 120

-- `Duration::from_millis`.
abbrev pub from_millis : ℕ → ℕ
from_millis ms = ms * 1000000

pub new : ℕ → ℕ → PlaybackScheduler
new target_delay jump_reset = record {
  target_delay = target_delay;
  jump_reset = jump_reset;
  anchor_pts = none;
  anchor_at = none;
  queue = [];
  stats = record {
    received = 0;
    emitted = 0;
    held = 0;
    dropped_watermark = 0;
    dropped_reset = 0;
    dropped_stale = 0;
    reanchors = 0;
  };
}

pub next_play_at : PlaybackScheduler → Option ℕ
next_play_at s = elim s.queue [ [] ↦ none | q ∷ qs ↦ some (q.play_at) ]

abbrev pub queued : RenderedFrame → ℕ → Queued
queued frame play_at = record { frame = frame; play_at = play_at }

-- The `while` loop at the end of `push`: the front is dropped until at most `n` entries are left.
-- It returns the queue and the number of frames dropped.
pub trim : ℕ → List Queued → List Queued × ℕ
trim n [] = ([], 0)
trim n (q ∷ qs) =
    let (rest, dropped) = trim n qs in
    if ltb n (length (q ∷ qs)) then (rest, suc dropped) else (q ∷ qs, 0)

trim_queue : PlaybackScheduler → PlaybackScheduler
trim_queue s =
    let (rest, dropped) = trim max_queue_len s.queue in
    record s {
      queue = rest;
      stats = record (s.stats) { dropped_watermark = s.stats.dropped_watermark + dropped };
    }

abbrev anchor_first : PlaybackScheduler → RenderedFrame → ℕ → PlaybackScheduler
anchor_first s frame now = record s {
  anchor_pts = some (frame.pts_ms);
  anchor_at = some now;
  queue = s.queue ++ queued frame now ∷ [];
}

-- The jump, forwards or backwards: the buffer is cleared and the clock anchored anew.
abbrev reanchor : PlaybackScheduler → RenderedFrame → ℕ → PlaybackScheduler
reanchor s frame now = record s {
  anchor_pts = some (frame.pts_ms);
  anchor_at = some now;
  queue = queued frame now ∷ [];
  stats = record (s.stats) {
    reanchors = suc (s.stats.reanchors);
    dropped_reset = s.stats.dropped_reset + length s.queue;
  };
}

abbrev drop_stale : PlaybackScheduler → PlaybackScheduler
drop_stale s = record s { stats = record (s.stats) { dropped_stale = suc (s.stats.dropped_stale) } }

abbrev enqueue : PlaybackScheduler → RenderedFrame → ℕ → ℕ → PlaybackScheduler
enqueue s frame play_at now = record s {
  queue = s.queue ++ queued frame play_at ∷ [];
  stats = record (s.stats) { held = if ltb now play_at then suc (s.stats.held) else s.stats.held };
}

-- The arm of `push` for an anchored clock.
push_anchored : PlaybackScheduler → RenderedFrame → ℕ → ℕ → ℕ → PlaybackScheduler
unfolding trim_queue
push_anchored s frame now p0 t0 =
    let pts = frame.pts_ms in
    if ltb pts p0
    then (if ltb s.jump_reset (from_millis (p0 - pts)) then reanchor s frame now else drop_stale s)
    else if ltb s.jump_reset (from_millis (pts - p0))
    then reanchor s frame now
    else trim_queue (enqueue s frame (t0 + from_millis (pts - p0)) now)

abbrev count_received : PlaybackScheduler → PlaybackScheduler
count_received s = record s { stats = record (s.stats) { received = suc (s.stats.received) } }

pub push : PlaybackScheduler → RenderedFrame → ℕ → PlaybackScheduler
push s frame now =
    let s' = count_received s in
    elim s.anchor_pts [
      | none ↦ trim_queue (anchor_first s' frame now)
      | some p0 ↦ elim s.anchor_at [
        | none ↦ trim_queue (anchor_first s' frame now)
        | some t0 ↦ push_anchored s' frame now p0 t0
      ]
    ]

-- The loop of `emit_due_into`: the frames that are due, and the queue that is left.
pub take_due : ℕ → List Queued → List RenderedFrame × List Queued
take_due now [] = ([], [])
take_due now (q ∷ qs) =
    let (out, rest) = take_due now qs in
    if ltb now q.play_at then ([], q ∷ qs) else (q.frame ∷ out, rest)

pub emit_due_into :
    List RenderedFrame → PlaybackScheduler → ℕ → List RenderedFrame × PlaybackScheduler
emit_due_into out s now =
    let (due, rest) = take_due now s.queue in
    (
      out ++ due,
      record s {
        queue = rest;
        stats = record (s.stats) { emitted = s.stats.emitted + length due };
      },
    )

pub emit_due : PlaybackScheduler → ℕ → List RenderedFrame × PlaybackScheduler
unfolding emit_due_into
emit_due s now = emit_due_into [] s now

-- `emit_due_with`, whose closure is a function on its own state `σ`. A frame that the closure refuses
-- has left the queue and counts as emitted; the frames behind it stay.
module _ {ℓ} {S E : Type ℓ} (f : S → RenderedFrame → Result E (Unit {0}) × S) where
  pub record Handed : Type ℓ where
    pub result : Result E (Unit {0})
    pub state : S
    pub rest : List Queued
    pub count : ℕ

  hand_over : ℕ → S → List Queued → Handed
  hand_over now σ [] = record { result = ok tt; state = σ; rest = []; count = 0 }
  hand_over now σ (q ∷ qs) =
      let (r, σ') = f σ q.frame in
      let more = hand_over now σ' qs in
      if ltb now q.play_at
      then record { result = ok tt; state = σ; rest = q ∷ qs; count = 0 }
      else elim r [
        | ok u ↦ record more { count = suc (more.count) }
        | err e ↦ record { result = err e; state = σ'; rest = qs; count = 1 }
      ]

  pub emit_due_with : PlaybackScheduler → S → ℕ → Result E (Unit {0}) × S × PlaybackScheduler
  unfolding hand_over
  emit_due_with s σ now =
      let h = hand_over now σ s.queue in
      (
        h.result,
        h.state,
        record s {
          queue = h.rest;
          stats = record (s.stats) { emitted = s.stats.emitted + h.count };
        },
      )

-- The loop of `drop_over_watermark`, on the queue with its back first.
pub drop_back : ℕ → List Queued → List Queued × ℕ
drop_back horizon [] = ([], 0)
drop_back horizon (q ∷ qs) =
    let (rest, dropped) = drop_back horizon qs in
    if leb q.play_at horizon then (q ∷ qs, 0) else (rest, suc dropped)

pub drop_over_watermark : PlaybackScheduler → ℕ → ℕ × PlaybackScheduler
drop_over_watermark s now =
    let (rest, dropped) = drop_back (now + s.target_delay) (reverse s.queue) in
    (
      dropped,
      record s {
        queue = reverse rest;
        stats = record (s.stats) { dropped_watermark = s.stats.dropped_watermark + dropped };
      },
    )
