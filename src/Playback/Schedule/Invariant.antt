-- ===== src/Playback/Schedule/Invariant.antt =====
-- The clock, the bound and the accounting of the scheduler, kept by `push`.
use stross.Base.{
  ℕ, ◌+◌, ◌-◌, ◌≤◌, ◌≡◌, refl, sym, subst, subst₂, List, [], ◌∷◌, ◌++◌, Option, none, some, arith,
  ltb, length, length-append, All, All-append, Bool-cases, inl, inr, ◌⊎◌,
}
use stross.Playback.Schedule.{
  PlaybackScheduler, Queued, RenderedFrame, new, push, push_anchored, trim, trim_queue, queued,
  from_millis, anchor_first, count_received, reanchor, drop_stale, enqueue,
}

-- The entry plays as far behind the anchor as its timestamp is, and within the jump limit.
abbrev pub OnClock : ℕ → ℕ → ℕ → Queued → Type 0
OnClock p0 t0 jump q =
    (p0 ≤ q.frame.pts_ms)
    × (q.play_at ≡ t0 + from_millis (q.frame.pts_ms - p0))
    × (from_millis (q.frame.pts_ms - p0) ≤ jump)

abbrev pub Scheduled : Option ℕ → Option ℕ → ℕ → List Queued → Type 0
Scheduled none at jump queue = queue ≡ []
Scheduled (some p0) none jump queue = queue ≡ []
Scheduled (some p0) (some t0) jump queue = All (OnClock p0 t0 jump) queue

-- Every entry is on the clock of the anchor; there are at most 120; and every frame received has been
-- emitted, is counted as dropped for exactly one reason, or still waits.
pub record IsScheduler (s : PlaybackScheduler) : Type 0 where
  pub scheduled : Scheduled s.anchor_pts s.anchor_at s.jump_reset s.queue
  pub bounded : length s.queue ≤ 120
  pub counted :
      s.stats.received
      ≡ s.stats.emitted
        + s.stats.dropped_watermark
        + s.stats.dropped_reset
        + s.stats.dropped_stale
        + length s.queue

pub new-IsScheduler : (target jump : ℕ) → IsScheduler (new target jump)
unfolding new
new-IsScheduler target jump = record {
  scheduled = refl;
  bounded = omega arith;
  counted = omega arith;
}

pub trim_counts :
    (n : ℕ) (qs : List Queued)
    → (length ((trim n qs).0) ≤ n) × (length ((trim n qs).0) + (trim n qs).1 ≡ length qs)
unfolding trim
trim_counts n [] = omega arith
trim_counts n (q ∷ qs) = ground (arith, trim_counts n qs)

-- What holds of every entry holds of those that `trim` leaves.
pub trim-All : (P : Queued → Type 0) (n : ℕ) (qs : List Queued) → All P qs → All P ((trim n qs).0)
unfolding trim
trim-All P n [] h = tt
trim-All P n (q ∷ qs) h = elim (Bool-cases (ltb n (length (q ∷ qs)))) [
  | inl over ↦ rw over (trim-All P n qs h.1)
  | inr fits ↦ rw fits h
]

-- The queue before `trim` may be longer than the bound.
record IsOverfull (s : PlaybackScheduler) (p0 t0 : ℕ) : Type 0 where
  pts : s.anchor_pts ≡ some p0
  at : s.anchor_at ≡ some t0
  scheduled : All (OnClock p0 t0 s.jump_reset) s.queue
  counted :
      s.stats.received
      ≡ s.stats.emitted
        + s.stats.dropped_watermark
        + s.stats.dropped_reset
        + s.stats.dropped_stale
        + length s.queue

trim_queue-IsScheduler :
    (s : PlaybackScheduler) (p0 t0 : ℕ) → IsOverfull s p0 t0 → IsScheduler (trim_queue s)
unfolding trim_queue
trim_queue-IsScheduler s p0 t0 v = record {
  scheduled =
      subst₂ (λ a b. Scheduled a b s.jump_reset ((trim 120 s.queue).0)) (sym v.pts) (sym v.at)
        (trim-All (OnClock p0 t0 s.jump_reset) 120 s.queue v.scheduled);
  bounded = omega (arith, trim_counts 120 s.queue);
  counted = omega (arith, trim_counts 120 s.queue, v.counted);
}

abbrev Counts : PlaybackScheduler → Type 0
Counts s =
    s.stats.received
    ≡ s.stats.emitted
      + s.stats.dropped_watermark
      + s.stats.dropped_reset
      + s.stats.dropped_stale
      + length s.queue
      + 1

-- The ways in which an anchored clock takes a frame.
push_anchored_cases :
    (s : PlaybackScheduler) (frame : RenderedFrame) (now p0 t0 : ℕ)
    → (push_anchored s frame now p0 t0 ≡ reanchor s frame now)
      ⊎ (push_anchored s frame now p0 t0 ≡ drop_stale s)
      ⊎ ((p0 ≤ frame.pts_ms)
          × (from_millis (frame.pts_ms - p0) ≤ s.jump_reset)
          × (push_anchored s frame now p0 t0
              ≡ trim_queue (enqueue s frame (t0 + from_millis (frame.pts_ms - p0)) now)))
unfolding push_anchored
push_anchored_cases s frame now p0 t0 = ground arith

reanchor-IsScheduler :
    (s : PlaybackScheduler) (frame : RenderedFrame) (now : ℕ)
    → Counts s
    → IsScheduler (reanchor s frame now)
reanchor-IsScheduler s frame now c = record {
  scheduled = omega arith;
  bounded = omega arith;
  counted = omega (arith, c);
}

push_anchored-IsScheduler :
    (s : PlaybackScheduler) (frame : RenderedFrame) (now p0 t0 : ℕ)
    → s.anchor_pts ≡ some p0
    → s.anchor_at ≡ some t0
    → All (OnClock p0 t0 s.jump_reset) s.queue
    → length s.queue ≤ 120
    → Counts s
    → IsScheduler (push_anchored s frame now p0 t0)
push_anchored-IsScheduler s frame now p0 t0 pts at on b c =
    elim (push_anchored_cases s frame now p0 t0) [
      | inl e ↦ subst IsScheduler (sym e) (reanchor-IsScheduler s frame now c)
      | inr (inl e) ↦ subst IsScheduler (sym e) (record {
        scheduled = subst₂ (λ a t. Scheduled a t s.jump_reset s.queue) (sym pts) (sym at) on;
        bounded = b;
        counted = omega (arith, c);
      })
      | inr (inr (late, near, e)) ↦ subst IsScheduler (sym e) (
          trim_queue-IsScheduler _ p0 t0 (record {
            pts = pts;
            at = at;
            scheduled =
                All-append (OnClock p0 t0 s.jump_reset) s.queue
                  (queued frame (t0 + from_millis (frame.pts_ms - p0)) ∷ []) on
                  ((late, refl, near), tt);
            counted = omega (
              arith,
              c,
              length-append s.queue (queued frame (t0 + from_millis (frame.pts_ms - p0)) ∷ []),
            );
          }))
    ]

anchor_first-IsScheduler :
    (s : PlaybackScheduler) (frame : RenderedFrame) (now : ℕ)
    → s.queue ≡ []
    → Counts s
    → IsScheduler (trim_queue (anchor_first s frame now))
anchor_first-IsScheduler s frame now e c = trim_queue-IsScheduler _ (frame.pts_ms) now (record {
  pts = refl;
  at = refl;
  scheduled =
      subst (λ qs. All (OnClock (frame.pts_ms) now s.jump_reset) (qs ++ queued frame now ∷ []))
        (sym e) (omega arith);
  counted = omega (arith, c, length-append s.queue (queued frame now ∷ []));
})

module _ (s : PlaybackScheduler) (frame : RenderedFrame) (now : ℕ) where
  push_no_pts :
      s.anchor_pts ≡ none
      → push s frame now ≡ trim_queue (anchor_first (count_received s) frame now)
  unfolding push
  push_no_pts e = ground arith

  push_no_at :
      s.anchor_at ≡ none → push s frame now ≡ trim_queue (anchor_first (count_received s) frame now)
  unfolding push
  push_no_at e = ground arith

  push_on_clock :
      (p0 t0 : ℕ)
      → s.anchor_pts ≡ some p0
      → s.anchor_at ≡ some t0
      → push s frame now ≡ push_anchored (count_received s) frame now p0 t0
  unfolding push
  push_on_clock p0 t0 e e' = ground arith

-- Pushing a frame keeps every entry on the clock, the bound and the accounting: on the first frame, on
-- a jump in either direction, on a frame from before the anchor, and on a frame in its turn.
pub push-IsScheduler :
    (s : PlaybackScheduler) (frame : RenderedFrame) (now : ℕ)
    → IsScheduler s
    → IsScheduler (push s frame now)
push-IsScheduler s frame now v = go s.anchor_pts s.anchor_at refl refl v.scheduled
  where
    counts : Counts (count_received s)
    counts = omega (arith, v.counted)

    go :
        (a t : Option ℕ)
        → s.anchor_pts ≡ a
        → s.anchor_at ≡ t
        → Scheduled a t s.jump_reset s.queue
        → IsScheduler (push s frame now)
    go none t pts at empty =
        subst IsScheduler (sym (push_no_pts s frame now pts))
          (anchor_first-IsScheduler (count_received s) frame now empty counts)
    go (some p0) none pts at empty =
        subst IsScheduler (sym (push_no_at s frame now at))
          (anchor_first-IsScheduler (count_received s) frame now empty counts)
    go (some p0) (some t0) pts at on =
        subst IsScheduler (sym (push_on_clock s frame now p0 t0 pts at))
          (push_anchored-IsScheduler (count_received s) frame now p0 t0 pts at on v.bounded counts)
