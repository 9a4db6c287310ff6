-- ===== src/Pick/Jitter/Order.antt =====
-- The order of sequence numbers, and the averages behind the waiting window.
use stross.Base.{ℕ, ◌+◌, ◌%◌, ◌^◌, ◌≤◌, ◌≡◌, ◌&&◌, false, ltb, leb, arith, min, max}
use stross.Base.Bytes.{IsU32, u32_mod}
use stross.Pick.Jitter.{seq_lt, seq_next, ewma, effective_wait, JitterBuffer}

-- `seq_lt` is decided by the distance ahead, also across the wrap: `b` is ahead of `a` exactly if it
-- is between 1 and 2 ^ 31 steps further on.
pub seq_lt_ahead :
    (a d : ℕ) → IsU32 a → IsU32 d → seq_lt a ((a + d) % u32_mod) ≡ (ltb 0 d && leb d (2 ^ 31))
unfolding seq_lt
seq_lt_ahead a d ha hd = ground arith

-- A sequence number that is not behind the cursor, and is not at it, is not behind the next one.
pub seq_lt-seq_next :
    (a b : ℕ) → IsU32 a → IsU32 b → seq_lt a b ≡ false → (a ≡ b → ⊥) → seq_lt a (seq_next b) ≡ false
unfolding seq_lt
seq_lt-seq_next a b ha hb h ne = ground arith

-- A sequence number is not behind itself.
pub seq_lt_self : (a : ℕ) → IsU32 a → seq_lt a a ≡ false
unfolding seq_lt
seq_lt_self a h = ground arith

-- The window lies between its two bounds, adaptive or not, if the lower is not above the upper.
pub effective_wait_bounds :
    (jb : JitterBuffer)
    → jb.cfg.min_wait ≤ jb.cfg.max_wait
    → (jb.cfg.min_wait ≤ effective_wait jb) × (effective_wait jb ≤ jb.cfg.max_wait)
unfolding effective_wait
effective_wait_bounds jb h = ground arith

-- An average moves towards the sample and never past it.
pub ewma_between :
    (cur sample : ℕ) → (min cur sample ≤ ewma cur sample) × (ewma cur sample ≤ max cur sample)
unfolding ewma
ewma_between cur sample = ground arith
