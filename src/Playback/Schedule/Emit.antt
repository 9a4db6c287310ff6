-- ===== src/Playback/Schedule/Emit.antt =====
-- Emission: what goes out, what stays, and that the three emitters agree.
use stross.Base.{
  ℕ, ◌+◌, ◌≤◌, ◌<◌, ◌≡◌, refl, sym, ap, subst, List, [], ◌∷◌, ◌++◌, append-nil, append_assoc, map,
  Option, none, some, arith, ltb, length, All, Bool-cases, inl, inr, ltb→lt, ltb_false→le,
}
use stross.Base.Result.{Result, ok}
use stross.Playback.Schedule.{
  PlaybackScheduler, Queued, RenderedFrame, take_due, emit_due, emit_due_into, emit_due_with,
  hand_over, Handed,
}
use stross.Playback.Schedule.Invariant.{IsScheduler, Scheduled, OnClock}

abbrev frame_of : Queued → RenderedFrame
frame_of q = q.frame

abbrev HeadWaits : ℕ → List Queued → Type 0
HeadWaits now [] = Unit {0}
HeadWaits now (q ∷ qs) = now < q.play_at

-- `out` are the frames of the front entries of `queue` up to the first that is not due; `rest` is what
-- stands behind them.
pub record SplitsAt (now : ℕ) (queue : List Queued) (out : List RenderedFrame) (rest : List Queued)
    : Type 0 where
  pub front : List Queued
  pub whole : front ++ rest ≡ queue
  pub frames : out ≡ map frame_of front
  pub due : All (λ q. q.play_at ≤ now) front
  pub waits : HeadWaits now rest

take_due-SplitsAt :
    (now : ℕ) (qs : List Queued) → SplitsAt now qs ((take_due now qs).0) ((take_due now qs).1)
unfolding take_due
take_due-SplitsAt now [] = record { front = []; whole = refl; frames = refl; due = tt; waits = tt }
take_due-SplitsAt now (q ∷ qs) = elim (Bool-cases (ltb now q.play_at)) [
  | inl later ↦
      rw later
        (record { front = []; whole = refl; frames = refl; due = tt; waits = ltb→lt _ _ later })
  | inr here ↦
      let s = take_due-SplitsAt now qs in
      rw here (record {
        front = q ∷ s.front;
        whole = ap (◌∷◌ q) s.whole;
        frames = ap (◌∷◌ q.frame) s.frames;
        due = (ltb_false→le _ _ here, s.due);
        waits = s.waits;
      })
]

take_due-length :
    (now : ℕ) (qs : List Queued)
    → length ((take_due now qs).0) + length ((take_due now qs).1) ≡ length qs
unfolding take_due
take_due-length now [] = omega arith
take_due-length now (q ∷ qs) = ground (arith, take_due-length now qs)

All-suffix : (P : Queued → Type 0) (xs ys : List Queued) → All P (xs ++ ys) → All P ys
All-suffix P [] ys h = h
All-suffix P (x ∷ xs) ys h = All-suffix P xs ys h.1

-- What is left of a well-formed queue after its front has gone is on the clock too.
pub Scheduled-suffix :
    (a t : Option ℕ) (jump : ℕ) (front rest : List Queued)
    → Scheduled a t jump (front ++ rest)
    → Scheduled a t jump rest
Scheduled-suffix none t jump [] rest h = h
Scheduled-suffix none t jump (q ∷ front) rest h = cc
Scheduled-suffix (some p0) none jump [] rest h = h
Scheduled-suffix (some p0) none jump (q ∷ front) rest h = cc
Scheduled-suffix (some p0) (some t0) jump front rest h =
    All-suffix (OnClock p0 t0 jump) front rest h

-- On a well-formed scheduler `emit_due` gives out the front of the queue up to the first entry that
-- is not due, in order, and leaves the rest; the clock, the bound and the accounting are kept.
pub emit_due-SplitsAt :
    (s : PlaybackScheduler) (now : ℕ)
    → IsScheduler s
    → SplitsAt now s.queue ((emit_due s now).0) ((emit_due s now).1.queue)
      × IsScheduler ((emit_due s now).1)
unfolding emit_due
emit_due-SplitsAt s now v =
    let d = take_due-SplitsAt now s.queue in
    (
      d,
      record {
        scheduled =
            Scheduled-suffix s.anchor_pts s.anchor_at s.jump_reset d.front
              ((take_due now s.queue).1)
              (subst (Scheduled s.anchor_pts s.anchor_at s.jump_reset) (sym d.whole) v.scheduled);
        bounded = omega (arith, v.bounded, take_due-length now s.queue);
        counted = omega (arith, v.counted, take_due-length now s.queue);
      },
    )

-- The closure that appends each frame to its state.
abbrev pub collect :
    {E : Type 0} → List RenderedFrame → RenderedFrame → Result E (Unit {0}) × List RenderedFrame
collect out frame = (ok tt, out ++ frame ∷ [])

abbrev collected :
    {E : Type 0}
    → List RenderedFrame
    → List RenderedFrame × List Queued
    → Handed {S = List RenderedFrame} {E = E} collect
collected out d = record { result = ok tt; state = out ++ d.0; rest = d.1; count = length (d.0) }

hand_over-collect :
    {E : Type 0} (now : ℕ) (out : List RenderedFrame) (qs : List Queued)
    → hand_over (collect {E = E}) now out qs ≡ collected out (take_due now qs)
unfolding hand_over take_due
hand_over-collect now out [] = rw append-nil refl
hand_over-collect {E = E} now out (q ∷ qs) = elim (Bool-cases (ltb now q.play_at)) [
  | inl later ↦ rw (later, append-nil) refl
  | inr here ↦ rw (here, hand_over-collect {E = E} now (out ++ q.frame ∷ []) qs, append_assoc) refl
]

-- Handing each due frame to a closure that collects them gives the same frames, the same queue and the
-- same statistics as collecting them directly.
pub emit_due_with-collect :
    {E : Type 0} (s : PlaybackScheduler) (out : List RenderedFrame) (now : ℕ)
    → emit_due_with (collect {E = E}) s out now
      ≡ (ok tt, (emit_due_into out s now).0, (emit_due_into out s now).1)
unfolding emit_due_with emit_due_into
emit_due_with-collect {E = E} s out now = rw (hand_over-collect {E = E} now out s.queue) refl
