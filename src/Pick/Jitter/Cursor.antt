-- ===== src/Pick/Jitter/Cursor.antt =====
-- Moving the cursor of `poll` by one: the order of what goes out, and the invariant.
use stross.Base.{
  ℕ, suc, ◌+◌, ◌-◌, ◌%◌, ◌≤◌, ◌<◌, ◌≡◌, ◌≢◌, refl, subst, List, [], ◌∷◌, Option, none, some, arith,
  length, set, length-set,
}
use stross.Base.Bytes.{IsU32, u32_mod}
use stross.Proto.Frame.{Frame}
use stross.Pick.Jitter.{JitterBuffer, ready_frame, take_ready, skip_hole, slot_at, seq_of, seq_next}
use stross.Pick.Jitter.Order.{seq_lt-seq_next}
use stross.Pick.Jitter.Slots.{Each, slot_at-set-none, count-set-none}
use stross.Pick.Jitter.Invariant.{IsBuffer, Placed, Held}

-- Sequence numbers `n`, `n + 1`, … with at most `k` left out in all.
abbrev pub InOrder : ℕ → ℕ → List Frame → Type 0
InOrder k n [] = Unit {0}
InOrder k n (f ∷ fs) =
    (d : ℕ) × (d ≤ k) × (seq_of f ≡ (n + d) % u32_mod) × InOrder (k - d) (seq_next (seq_of f)) fs

-- In order from the cursor; with no cursor nothing goes out.
abbrev pub OrderFrom : ℕ → Option ℕ → List Frame → Type 0
OrderFrom k none fs = fs ≡ []
OrderFrom k (some n) fs = InOrder k n fs

pub OrderFrom-nil : (k : ℕ) (c : Option ℕ) → OrderFrom k c []
OrderFrom-nil k none = refl
OrderFrom-nil k (some n) = tt

pub InOrder-skip :
    (k n : ℕ) (fs : List Frame) → IsU32 n → InOrder k (seq_next n) fs → InOrder (suc k) n fs
InOrder-skip k n [] h o = tt
InOrder-skip k n (f ∷ fs) h (d, le, e, o) = (
  suc d,
  omega arith,
  omega arith,
  subst (λ j. InOrder j (seq_next (seq_of f)) fs) (omega arith) o,
)

pub InOrder-emit :
    (k n : ℕ) (f : Frame) (fs : List Frame)
    → IsU32 n
    → seq_of f ≡ n
    → InOrder k (seq_next (seq_of f)) fs
    → InOrder k n (f ∷ fs)
InOrder-emit k n f fs h e o =
    (0, omega arith, omega arith, subst (λ j. InOrder j (seq_next (seq_of f)) fs) (omega arith) o)

module _ (jb : JitterBuffer) (next : ℕ) where
  pub ready_frame-some :
      (f : Frame)
      → ready_frame jb next ≡ some f
      → (slot_at jb.slots (next % jb.cfg.capacity) ≡ some f) × (seq_of f ≡ next)
  unfolding ready_frame
  ready_frame-some f e = ground arith

  -- A frame whose number is the cursor's is ready, if it stands in its slot.
  pub ready_frame-none :
      (f : Frame)
      → ready_frame jb next ≡ none
      → slot_at jb.slots (next % jb.cfg.capacity) ≡ some f
      → seq_of f ≢ next
  unfolding ready_frame
  ready_frame-none f e s same = ground arith

-- Moving the cursor past `next`, where no slot holds that number any more.
Each-advance :
    (capacity next : ℕ) (slots : List (Option Frame))
    → IsU32 next
    → ((i : ℕ) (f : Frame) → slot_at slots i ≡ some f → Placed capacity next i f)
    → ((i : ℕ) (f : Frame) → slot_at slots i ≡ some f → seq_of f ≢ next)
    → Each (Placed capacity (seq_next next)) slots
Each-advance capacity next slots u each gone i f e =
    let p = each i f e in (p.0, p.1, seq_lt-seq_next (seq_of f) next p.1 u p.2 (gone i f e))

pub held_at :
    (jb : JitterBuffer) (next : ℕ)
    → jb.next_seq ≡ some next
    → IsBuffer jb
    → IsU32 next × Each (Placed jb.cfg.capacity next) jb.slots
held_at jb next e v = subst (λ c. Held jb.cfg.capacity c jb.slots) e v.held

module _ (jb : JitterBuffer) (next : ℕ) (cursor : jb.next_seq ≡ some next) (v : IsBuffer jb) where
  pub skip_hole-IsBuffer : ready_frame jb next ≡ none → IsBuffer (skip_hole jb next)
  unfolding skip_hole
  skip_hole-IsBuffer hole =
      let (u, each) = held_at jb next cursor v in
      record {
        positive = v.positive;
        size = v.size;
        held = (
          omega arith,
          Each-advance jb.cfg.capacity next jb.slots u each
              (λ i f e same. ready_frame-none jb next f hole (rw (← same, (each i f e).0) e) same),
        );
        counted = v.counted;
      }

  pub take_ready-IsBuffer :
      (f : Frame) (now : ℕ) → ready_frame jb next ≡ some f → IsBuffer (take_ready jb next now)
  unfolding take_ready
  take_ready-IsBuffer f now ready =
      let (u, each) = held_at jb next cursor v in
      let (here, same) = ready_frame-some jb next f ready in
      let idx = next % jb.cfg.capacity in
      let room : idx < length jb.slots = grind (arith, v.positive, v.size) in
      record {
        positive = v.positive;
        size = omega (arith, length-set jb.slots idx none, v.size);
        held = (
          omega arith,
          Each-advance jb.cfg.capacity next (set jb.slots idx none) u
              (λ i g e. each i g (slot_at-set-none jb.slots idx i g room e).1)
              (λ i g e same_seq.
                (slot_at-set-none jb.slots idx i g room e).0
                  (rw (← same_seq) (each i g (slot_at-set-none jb.slots idx i g room e).1).0)),
        );
        counted = omega (arith, v.counted, count-set-none jb.slots idx f here);
      }
