-- ===== src/Pick/Jitter/Invariant.antt =====
-- The invariant of the ring, and that a push keeps it.
use stross.Base.{
  ℕ, ◌+◌, ◌%◌, ◌≤◌, ◌<◌, ◌≡◌, refl, false, List, Option, none, some, arith, length, set, length-set,
  length-replicate, Bool-cases, Option-cases, inl, inr, max, subst, sym, ◌∙◌,
}
use stross.Base.Bytes.{IsU32}
use stross.Proto.Frame.{Frame, is_keyframe}
use stross.Pick.Jitter.{
  JitterBuffer, JitterConfig, new, push, place, push_keyframe, push_other, arrive, count_occupied,
  slot_at, clear_slots, seq_of, seq_lt, count_stale,
}
use stross.Pick.Jitter.Order.{seq_lt_self}
use stross.Pick.Jitter.Slots.{
  Each, Each-set, Each-clear, count-set_free, count-set_taken, count-clear, count-replicate,
  length-clear, slot_at-replicate,
}

-- A slot's frame belongs to the slot, is in range, and is not behind the cursor.
abbrev pub Placed : ℕ → ℕ → ℕ → Frame → Type 0
Placed capacity next i f =
    (seq_of f % capacity ≡ i) × IsU32 (seq_of f) × (seq_lt (seq_of f) next ≡ false)

-- The frames of a buffer with a cursor; with no cursor there are none.
abbrev pub Held : ℕ → Option ℕ → List (Option Frame) → Type 0
Held capacity none slots = Each (λ i f. ⊥) slots
Held capacity (some next) slots = IsU32 next × Each (Placed capacity next) slots

-- The ring has `capacity` slots, each frame stands in its own slot and is not behind the cursor, and
-- every frame that went out, was counted as dropped or still waits was received.
pub record IsBuffer (jb : JitterBuffer) : Type 0 where
  pub positive : 0 < jb.cfg.capacity
  pub size : length jb.slots ≡ jb.cfg.capacity
  pub held : Held jb.cfg.capacity jb.next_seq jb.slots
  pub counted :
      jb.stats.emitted + jb.stats.dropped_resync + jb.stats.dropped_stale + count_occupied jb.slots
      ≤ jb.stats.received

pub new-IsBuffer : (cfg : JitterConfig) → 0 < cfg.capacity → IsBuffer (new cfg)
unfolding new
new-IsBuffer cfg h = record {
  positive = h;
  size = omega (arith, length-replicate {A = Option Frame} (max cfg.capacity 1) none);
  held = λ i f e. ground (arith, slot_at-replicate (max cfg.capacity 1) i);
  counted = omega (arith, count-replicate (max cfg.capacity 1));
}

-- `place` puts a frame in range, not behind the cursor, into its slot.
-- Its premise counts the frame as received and not yet accounted for.
module _ (jb : JitterBuffer) (f : Frame) (next : ℕ) where
  pub record Arriving : Type 0 where
    pub positive : 0 < jb.cfg.capacity
    pub size : length jb.slots ≡ jb.cfg.capacity
    pub cursor : jb.next_seq ≡ some next
    pub next_u32 : IsU32 next
    pub seq_u32 : IsU32 (seq_of f)
    pub ahead : seq_lt (seq_of f) next ≡ false
    pub each : Each (Placed jb.cfg.capacity next) jb.slots
    pub counted :
        jb.stats.emitted
          + jb.stats.dropped_resync
          + jb.stats.dropped_stale
          + count_occupied jb.slots
        < jb.stats.received

  abbrev home : ℕ
  home = seq_of f % jb.cfg.capacity

  home-lt-size : Arriving → home < length jb.slots
  home-lt-size a = grind (arith, a.positive, a.size)

  keep-Held : Arriving → Held jb.cfg.capacity jb.next_seq jb.slots
  keep-Held a = subst (λ c. Held jb.cfg.capacity c jb.slots) (sym a.cursor) (a.next_u32, a.each)

  store-Held : Arriving → Held jb.cfg.capacity jb.next_seq (set jb.slots home (some f))
  store-Held a =
      subst (λ c. Held jb.cfg.capacity c (set jb.slots home (some f))) (sym a.cursor)
        (
          a.next_u32,
          Each-set (Placed jb.cfg.capacity next) jb.slots home f (home-lt-size a)
              (refl, a.seq_u32, a.ahead) a.each,
        )

  place-IsBuffer : Arriving → IsBuffer (place jb f)
  unfolding place
  place-IsBuffer a = elim (Option-cases (slot_at jb.slots home)) [
    | inl e ↦
        rw (e, place)
          (record {
            positive = a.positive;
            size = omega (arith, length-set jb.slots home (some f), a.size);
            held = store-Held a;
            counted = omega (arith, a.counted, count-set_free jb.slots home f);
          })
    | inr (g, e) ↦ elim (Bool-cases (seq_lt (seq_of g) (seq_of f))) [
      | inl newer ↦
          rw (e, place, newer)
            (record {
              positive = a.positive;
              size = omega (arith, length-set jb.slots home (some f), a.size);
              held = store-Held a;
              counted = omega (arith, a.counted, count-set_taken jb.slots home g f e);
            })
      | inr older ↦
          rw (e, place, older)
            (record {
              positive = a.positive;
              size = a.size;
              held = keep-Held a;
              counted = omega (arith, a.counted);
            })
    ]
  ]

-- A buffer that has counted one more frame as received than it accounts for.
record IsPending (jb : JitterBuffer) : Type 0 where
  positive : 0 < jb.cfg.capacity
  size : length jb.slots ≡ jb.cfg.capacity
  held : Held jb.cfg.capacity jb.next_seq jb.slots
  counted :
      jb.stats.emitted + jb.stats.dropped_resync + jb.stats.dropped_stale + count_occupied jb.slots
      < jb.stats.received

arrive-IsPending : (jb : JitterBuffer) (now : ℕ) → IsBuffer jb → IsPending (arrive jb now)
unfolding arrive
arrive-IsPending jb now v = elim (Option-cases jb.last_arrival) [
  | inl e ↦
      rw (e, arrive)
        (record {
          positive = v.positive;
          size = v.size;
          held = v.held;
          counted = omega (arith, v.counted);
        })
  | inr (last, e) ↦
      rw (e, arrive)
        (record {
          positive = v.positive;
          size = v.size;
          held = v.held;
          counted = omega (arith, v.counted);
        })
]

stale-IsBuffer : (jb : JitterBuffer) → IsPending jb → IsBuffer (count_stale jb)
stale-IsBuffer jb p = record {
  positive = p.positive;
  size = p.size;
  held = p.held;
  counted = omega (arith, p.counted);
}

accept_key-IsBuffer :
    (jb : JitterBuffer) (f : Frame) (now : ℕ)
    → IsU32 (seq_of f)
    → IsPending jb
    → IsBuffer (
        place
          (record jb {
            slots = clear_slots jb.slots;
            next_seq = some (seq_of f);
            highest_seq = some (seq_of f);
            awaiting_keyframe = false;
            last_progress = some now;
          })
          f)
accept_key-IsBuffer jb f now u p = place-IsBuffer _ f (seq_of f) (record {
  positive = p.positive;
  size = length-clear jb.slots ∙ p.size;
  cursor = refl;
  next_u32 = u;
  seq_u32 = u;
  ahead = seq_lt_self (seq_of f) u;
  each = Each-clear (Placed jb.cfg.capacity (seq_of f)) jb.slots;
  counted = omega (arith, p.counted, count-clear jb.slots);
})

push_keyframe-IsBuffer :
    (jb : JitterBuffer) (f : Frame) (now : ℕ)
    → IsU32 (seq_of f)
    → IsPending jb
    → IsBuffer (push_keyframe jb f now)
unfolding push_keyframe
push_keyframe-IsBuffer jb f now u p = elim (Option-cases jb.next_seq) [
  | inl e ↦ rw (e, push_keyframe) (accept_key-IsBuffer jb f now u p)
  | inr (next, e) ↦ elim (Bool-cases (seq_lt (seq_of f) next)) [
    | inl behind ↦ rw (e, push_keyframe, behind) (stale-IsBuffer jb p)
    | inr ahead ↦ rw (e, push_keyframe, ahead) (accept_key-IsBuffer jb f now u p)
  ]
]

push_other-IsBuffer :
    (jb : JitterBuffer) (f : Frame) (now : ℕ)
    → IsU32 (seq_of f)
    → IsPending jb
    → IsBuffer (push_other jb f now)
unfolding push_other
push_other-IsBuffer jb f now u p = elim (Bool-cases jb.awaiting_keyframe) [
  | inl waiting ↦
      rw (waiting, push_other)
        (record {
          positive = p.positive;
          size = p.size;
          held = p.held;
          counted = omega (arith, p.counted);
        })
  | inr flowing ↦ elim (Option-cases jb.next_seq) [
    | inl e ↦
        rw (flowing, e, push_other)
          (place-IsBuffer _ f (seq_of f) (record {
            positive = p.positive;
            size = p.size;
            cursor = refl;
            next_u32 = u;
            seq_u32 = u;
            ahead = seq_lt_self (seq_of f) u;
            each = λ i g s. absurd (subst (λ c. Held jb.cfg.capacity c jb.slots) e p.held i g s);
            counted = p.counted;
          }))
    | inr (next, e) ↦ elim (Bool-cases (seq_lt (seq_of f) next)) [
      | inl behind ↦ rw (flowing, e, push_other, behind) (stale-IsBuffer jb p)
      | inr ahead ↦
          let held = subst (λ c. Held jb.cfg.capacity c jb.slots) e p.held in
          rw (flowing, e, push_other, ahead)
            (place-IsBuffer _ f next (record {
              positive = p.positive;
              size = p.size;
              cursor = e;
              next_u32 = held.0;
              seq_u32 = u;
              ahead = ahead;
              each = held.1;
              counted = p.counted;
            }))
    ]
  ]
]

-- Pushing a frame with a sequence number in range keeps the invariant of the ring: a key frame, a
-- frame that is too old, one that is waited for, and one dropped during a resync alike.
pub push-IsBuffer :
    (jb : JitterBuffer) (f : Frame) (now : ℕ)
    → IsU32 (seq_of f)
    → IsBuffer jb
    → IsBuffer (push jb f now)
unfolding push
push-IsBuffer jb f now u v =
    let p = arrive-IsPending jb now v in
    elim (Bool-cases (is_keyframe f.header)) [
      | inl key ↦ rw key (push_keyframe-IsBuffer (arrive jb now) f now u p)
      | inr other ↦ rw other (push_other-IsBuffer (arrive jb now) f now u p)
    ]
