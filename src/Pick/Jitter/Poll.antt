-- ===== src/Pick/Jitter/Poll.antt =====
-- The loop of `poll`: one round, that the fuel is enough, and the order of what goes out.
use stross.Base.{
  ℕ, zero, suc, ◌+◌, ◌-◌, ◌%◌, ◌<◌, ◌≡◌, refl, sym, subst, subst₂, ap, true, false, List, [], ◌∷◌,
  Option, none, some, arith, Option-cases, inl, inr, ◌⊎◌, if◌then◌else◌,
}
use stross.Base.Bytes.{IsU32}
use stross.Proto.Frame.{Frame}
use stross.Pick.Jitter.{
  JitterBuffer, JitterConfig, PollStep, emit, skip, stop, poll, poll_loop, poll_fuel, poll_step,
  hole_step, ready_frame, take_ready, skip_hole, seq_of, seq_next, count_occupied,
}
use stross.Pick.Jitter.Slots.{count-set-none}
use stross.Pick.Jitter.Invariant.{IsBuffer}
use stross.Pick.Jitter.Cursor.{
  OrderFrom, OrderFrom-nil, InOrder-skip, InOrder-emit, ready_frame-some, held_at,
  skip_hole-IsBuffer, take_ready-IsBuffer,
}

-- What one round does: the state stays well formed, and the cursor moves over the frame that goes out
-- or over the hole that is skipped. The fuel and the budget of holes fall.
abbrev Sound : JitterBuffer → ℕ → PollStep → Type 0
Sound jb holes (emit f jb') =
    IsBuffer jb'
    × (jb'.cfg ≡ jb.cfg)
    × (jb.next_seq ≡ some (seq_of f))
    × (jb'.next_seq ≡ some (seq_next (seq_of f)))
    × (suc (count_occupied jb'.slots) ≡ count_occupied jb.slots)
Sound jb holes (skip jb') =
    IsBuffer jb'
    × (jb'.cfg ≡ jb.cfg)
    × ((n : ℕ) × (jb.next_seq ≡ some n) × (jb'.next_seq ≡ some (seq_next n)) × IsU32 n)
    × (jb'.slots ≡ jb.slots)
    × (holes < jb.cfg.capacity)
    × (jb.cfg.require_keyframe_resync ≡ false)
Sound jb holes (stop jb') = IsBuffer jb' × (jb'.cfg ≡ jb.cfg)

-- The three ways in which a round at a hole ends.
hole_step_cases :
    (jb : JitterBuffer) (next holes now : ℕ)
    → (hole_step jb next holes now ≡ stop jb)
      ⊎ (hole_step jb next holes now
          ≡ stop (record (skip_hole jb next) { awaiting_keyframe = true }))
      ⊎ ((hole_step jb next holes now ≡ skip (skip_hole jb next))
          × (holes < jb.cfg.capacity)
          × (jb.cfg.require_keyframe_resync ≡ false))
unfolding hole_step
hole_step_cases jb next holes now = ground arith

hole_step-Sound :
    (jb : JitterBuffer) (next holes now : ℕ)
    → jb.next_seq ≡ some next
    → ready_frame jb next ≡ none
    → IsBuffer jb
    → Sound jb holes (hole_step jb next holes now)
unfolding skip_hole
hole_step-Sound jb next holes now cursor hole v =
    let w = skip_hole-IsBuffer jb next cursor v hole in
    elim (hole_step_cases jb next holes now) [
      | inl e ↦ subst (Sound jb holes) (sym e) (v, refl)
      | inr (inl e) ↦ subst (Sound jb holes) (sym e) (
        record { positive = w.positive; size = w.size; held = w.held; counted = w.counted },
        refl,
      )
      | inr (inr (e, fits, audio)) ↦
          subst (Sound jb holes) (sym e)
            (w, refl, (next, cursor, refl, (held_at jb next cursor v).0), refl, fits, audio)
    ]

module _ (jb : JitterBuffer) (next holes now : ℕ) (cursor : jb.next_seq ≡ some next) where
  pub poll_step_hole :
      ready_frame jb next ≡ none → poll_step jb holes now ≡ hole_step jb next holes now
  unfolding poll_step
  poll_step_hole e = ground arith

  pub poll_step_ready :
      (f : Frame)
      → ready_frame jb next ≡ some f
      → poll_step jb holes now ≡ emit f (take_ready jb next now)
  unfolding poll_step
  poll_step_ready f e = ground arith

poll_step-none :
    (jb : JitterBuffer) (holes now : ℕ) → jb.next_seq ≡ none → poll_step jb holes now ≡ stop jb
unfolding poll_step
poll_step-none jb holes now e = ground arith

poll_step-Sound :
    (jb : JitterBuffer) (holes now : ℕ) → IsBuffer jb → Sound jb holes (poll_step jb holes now)
unfolding take_ready
poll_step-Sound jb holes now v = elim (Option-cases jb.next_seq) [
  | inl e ↦ subst (Sound jb holes) (sym (poll_step-none jb holes now e)) (v, refl)
  | inr (next, e) ↦ elim (Option-cases (ready_frame jb next)) [
    | inl hole ↦
        subst (Sound jb holes) (sym (poll_step_hole jb next holes now e hole))
          (hole_step-Sound jb next holes now e hole v)
    | inr (f, ready) ↦
        let (here, same) = ready_frame-some jb next f ready in
        subst (Sound jb holes) (sym (poll_step_ready jb next holes now e f ready)) (
          take_ready-IsBuffer jb next e v f now ready,
          refl,
          rw same e,
          rw same,
          count-set-none jb.slots (next % jb.cfg.capacity) f here,
        )
  ]
]

-- The holes that may still be skipped.
abbrev pub budget : JitterConfig → ℕ → ℕ
budget cfg holes = if cfg.require_keyframe_resync then 0 else cfg.capacity - holes

-- The loop ends with frames in order and a well-formed buffer.
pub record Drained (jb : JitterBuffer) (holes : ℕ) (r : Option (List Frame × JitterBuffer))
    : Type 0 where
  pub out : List Frame
  pub after : JitterBuffer
  pub result : r ≡ some (out, after)
  pub valid : IsBuffer after
  pub order : OrderFrom (budget jb.cfg holes) jb.next_seq out

module _ (fuel : ℕ) (jb jb' : JitterBuffer) (holes now : ℕ) where
  loop_emit :
      (f : Frame)
      → IsBuffer jb
      → poll_step jb holes now ≡ emit f jb'
      → Sound jb holes (emit f jb')
      → Drained jb' holes (poll_loop fuel jb' holes now)
      → Drained jb holes (poll_loop (suc fuel) jb holes now)
  unfolding poll_loop
  loop_emit f v e (w, cfg, cursor, cursor', count) d = record {
    out = f ∷ d.out;
    after = d.after;
    result = rw (e, poll_loop, d.result);
    valid = d.valid;
    order =
        subst (λ c. OrderFrom (budget jb.cfg holes) c (f ∷ d.out)) (sym cursor)
          (InOrder-emit (budget jb.cfg holes) (seq_of f) f d.out (held_at jb (seq_of f) cursor v).0
            refl (subst₂ (λ k c. OrderFrom (budget k holes) c d.out) cfg cursor' d.order));
  }

  loop_skip :
      poll_step jb holes now ≡ skip jb'
      → Sound jb holes (skip jb')
      → Drained jb' (suc holes) (poll_loop fuel jb' (suc holes) now)
      → Drained jb holes (poll_loop (suc fuel) jb holes now)
  unfolding poll_loop
  loop_skip e (w, cfg, (n, cursor, cursor', u), slots, fits, audio) d = record {
    out = d.out;
    after = d.after;
    result = rw (e, poll_loop, d.result);
    valid = d.valid;
    order =
        subst₂ (λ k c. OrderFrom k c d.out) more (sym cursor)
          (InOrder-skip (budget jb.cfg (suc holes)) n d.out u
            (subst₂ (λ k c. OrderFrom (budget k (suc holes)) c d.out) cfg cursor' d.order));
  }
    where
      more : suc (budget jb.cfg (suc holes)) ≡ budget jb.cfg holes
      more = ground arith

  loop_stop :
      poll_step jb holes now ≡ stop jb'
      → Sound jb holes (stop jb')
      → Drained jb holes (poll_loop (suc fuel) jb holes now)
  unfolding poll_loop
  loop_stop e (w, cfg) = record {
    out = [];
    after = jb';
    result = rw (e, poll_loop);
    valid = w;
    order = OrderFrom-nil (budget jb.cfg holes) jb.next_seq;
  }

abbrev Enough : ℕ → JitterBuffer → ℕ → Type 0
Enough fuel jb holes = count_occupied jb.slots + (jb.cfg.capacity - holes) < fuel

loop_round :
    (fuel : ℕ) (jb : JitterBuffer) (holes now : ℕ) (s : PollStep)
    → ((jb' : JitterBuffer) (holes' : ℕ)
        → IsBuffer jb'
        → Enough fuel jb' holes'
        → Drained jb' holes' (poll_loop fuel jb' holes' now))
    → IsBuffer jb
    → Enough (suc fuel) jb holes
    → poll_step jb holes now ≡ s
    → Sound jb holes s
    → Drained jb holes (poll_loop (suc fuel) jb holes now)
loop_round fuel jb holes now (emit f jb') ih v h e sound =
    loop_emit fuel jb jb' holes now f v e sound
      (ih jb' holes sound.0 (omega (arith, ap (λ c. c.capacity) sound.1, sound.4)))
loop_round fuel jb holes now (skip jb') ih v h e sound = loop_skip fuel jb jb' holes now e sound (
    ih jb' (suc holes) sound.0
      (omega (arith, ap (λ c. c.capacity) sound.1, ap count_occupied sound.3, sound.4)))
loop_round fuel jb holes now (stop jb') ih v h e sound = loop_stop fuel jb jb' holes now e sound

poll_loop-Drained :
    (fuel : ℕ) (jb : JitterBuffer) (holes now : ℕ)
    → IsBuffer jb
    → Enough fuel jb holes
    → Drained jb holes (poll_loop fuel jb holes now)
poll_loop-Drained zero jb holes now v h = absurd (omega arith)
poll_loop-Drained (suc fuel) jb holes now v h =
    loop_round fuel jb holes now (poll_step jb holes now)
      (λ jb' holes'. poll_loop-Drained fuel jb' holes' now) v h refl
      (poll_step-Sound jb holes now v)

poll_cases :
    (jb : JitterBuffer) (now : ℕ)
    → (poll jb now ≡ some ([], jb)) ⊎ (poll jb now ≡ poll_loop (poll_fuel jb) jb 0 now)
unfolding poll
poll_cases jb now = ground arith

-- On a well-formed buffer `poll` always returns, with a well-formed buffer: its loop ends within the
-- fuel. The frames go out in the order of their sequence numbers from the cursor on; a track that
-- resyncs leaves no number out between them, any other at most `capacity` in one call.
pub poll-Drained : (jb : JitterBuffer) (now : ℕ) → IsBuffer jb → Drained jb 0 (poll jb now)
poll-Drained jb now v = elim (poll_cases jb now) [
  | inl e ↦ record {
    out = [];
    after = jb;
    result = e;
    valid = v;
    order = OrderFrom-nil (budget jb.cfg 0) jb.next_seq;
  }
  | inr e ↦ subst (Drained jb 0) (sym e) (poll_loop-Drained (poll_fuel jb) jb 0 now v (omega arith))
]
