-- ===== src/Proto/Ids/Node.antt =====
-- The text of a node id.
use stross.Base.{
  ℕ, zero, suc, subst, Bool-cases, ==→eq, ◌<◌, ◌*◌, ◌+◌, ◌/◌, ◌%◌, ◌≡◌, ◌≢◌, refl, sym, ap, ap₂,
  ◌∙◌, List, [], ◌∷◌, ◌++◌, Option, none, some, arith, All, All-append, length, length-append, ◌==◌,
  Option-cases, inl, inr,
}
use stross.Base.Bytes.{IsByte, to_le, to_le-IsByte, length-to_le}
use stross.Base.Split.{strip_prefix, or_else}
use stross.Proto.Message.{Text}
use stross.Proto.Ids.{
  hex_nibble, hex_digit, to_hex, hex_bytes, from_hex, join_byte, node_prefix, dev_prefix, from_str,
  from_seed, seed_hash, without_prefix, unwrap_or, sized_hex,
}

hex_nibble-hex_digit : (n : ℕ) → n < 16 → hex_nibble (hex_digit n) ≡ some n
unfolding hex_nibble hex_digit
hex_nibble-hex_digit n h = ground arith

hex_digit_range : (n : ℕ) → n < 16 → (hex_digit n ≢ b'v') × (hex_digit n ≢ b'n')
unfolding hex_digit
hex_digit_range n h = (λ e. ground (arith, e), λ e. ground (arith, e))

hex_bytes-to_hex : (bs : List ℕ) → All IsByte bs → hex_bytes (to_hex bs) ≡ some bs
unfolding hex_bytes to_hex
hex_bytes-to_hex [] h = refl
hex_bytes-to_hex (b ∷ bs) h = ground (
  arith,
  hex_nibble-hex_digit (b / 16),
  hex_nibble-hex_digit (b % 16),
  hex_bytes-to_hex bs h.1,
  h.0,
)

length-to_hex : (bs : List ℕ) → length (to_hex bs) ≡ 2 * length bs
unfolding to_hex
length-to_hex [] = refl
length-to_hex (b ∷ bs) = omega (arith, length-to_hex bs)

no_node : (bs : List ℕ) → All IsByte bs → strip_prefix node_prefix (to_hex bs) ≡ none
unfolding to_hex
no_node [] h = refl
no_node (b ∷ bs) h = ground (arith, hex_digit_range (b / 16), h.0)

no_dev : (bs : List ℕ) → All IsByte bs → strip_prefix dev_prefix (to_hex bs) ≡ none
unfolding to_hex
no_dev [] h = refl
no_dev (b ∷ []) h = ground arith
no_dev (b ∷ c ∷ bs) h = ground (arith, hex_digit_range (c / 16), h.1.0)

no_prefix : (bs : List ℕ) → All IsByte bs → without_prefix (to_hex bs) ≡ to_hex bs
unfolding without_prefix
no_prefix bs h = ap₂ (λ a b. unwrap_or (or_else a b) (to_hex bs)) (no_node bs h) (no_dev bs h)

sized : (cs : Text) (o : Option (List ℕ)) → length cs ≡ 32 → hex_bytes cs ≡ o → sized_hex cs ≡ o
sized cs o l e = ground (arith, l, e)

from_hex-to_hex : (bs : List ℕ) → length bs ≡ 16 → All IsByte bs → from_hex (to_hex bs) ≡ some bs
unfolding from_hex
from_hex-to_hex bs l h =
    ap sized_hex (no_prefix bs h)
    ∙ sized (to_hex bs) (some bs) (omega (arith, length-to_hex bs, l)) (hex_bytes-to_hex bs h)

after_node : (s : Text) → without_prefix (node_prefix ++ s) ≡ s
unfolding without_prefix
after_node s = refl

after_dev : (s : Text) → without_prefix (dev_prefix ++ s) ≡ s
unfolding without_prefix
after_dev s = refl

module _ (bs : List ℕ) (l : length bs ≡ 16) (h : All IsByte bs) where
  from_str-digits : (s : Text) → without_prefix s ≡ to_hex bs → from_str s ≡ bs
  unfolding from_str from_hex
  from_str-digits s e =
      let read : from_hex s ≡ some bs =
        ap sized_hex (e ∙ sym (no_prefix bs h)) ∙ from_hex-to_hex bs l h in
      rw (read, from_str) refl

  -- Sixteen bytes are read back from their digits, alone, after `node-` and after `dev-`.
  pub from_str-to_hex :
      (from_str (to_hex bs) ≡ bs)
      × (from_str (node_prefix ++ to_hex bs) ≡ bs)
      × (from_str (dev_prefix ++ to_hex bs) ≡ bs)
  from_str-to_hex = (
    from_str-digits (to_hex bs) (no_prefix bs h),
    from_str-digits (node_prefix ++ to_hex bs) (after_node (to_hex bs)),
    from_str-digits (dev_prefix ++ to_hex bs) (after_dev (to_hex bs)),
  )

-- Sixteen bytes.
abbrev pub IsNodeId : List ℕ → Type 0
IsNodeId bs = (length bs ≡ 16) × All IsByte bs

hex_nibble-lt : (c n : ℕ) → hex_nibble c ≡ some n → n < 16
unfolding hex_nibble
hex_nibble-lt c n e = ground (arith, e)

join_byte-some :
    (h l : Option ℕ) (r : Option (List ℕ)) (bs : List ℕ)
    → join_byte h l r ≡ some bs
    → (x : ℕ) × (y : ℕ) × (cs : List ℕ) × (h ≡ some x)
      × (l ≡ some y)
      × (r ≡ some cs)
      × (bs ≡ (x * 16 + y) ∷ cs)
join_byte-some none l r bs e = cc
join_byte-some (some x) none r bs e = cc
join_byte-some (some x) (some y) none bs e = cc
join_byte-some (some x) (some y) (some cs) bs e = (x, y, cs, refl, refl, refl, ground (arith, e))

hex_bytes-IsByte :
    (k : ℕ) (cs bs : List ℕ)
    → length cs ≡ 2 * k
    → hex_bytes cs ≡ some bs
    → (length bs ≡ k) × All IsByte bs
unfolding hex_bytes
hex_bytes-IsByte zero [] bs l e =
    let empty : bs ≡ [] = ground (arith, e) in (ap length empty, subst (All IsByte) (sym empty) tt)
hex_bytes-IsByte zero (c ∷ cs) bs l e = absurd (omega (arith, l))
hex_bytes-IsByte (suc k) [] bs l e = absurd (omega (arith, l))
hex_bytes-IsByte (suc k) (c ∷ []) bs l e = absurd (omega (arith, l))
hex_bytes-IsByte (suc k) (c ∷ d ∷ cs) bs l e =
    let (x, y, rest, high, low, more, made) =
      join_byte-some (hex_nibble c) (hex_nibble d) (hex_bytes cs) bs e in
    let (long, bytes) = hex_bytes-IsByte k cs rest (omega (arith, l)) more in
    (
      ground (arith, made, long),
      subst (All IsByte) (sym made)
          (omega (arith, hex_nibble-lt c x high, hex_nibble-lt d y low), bytes),
    )

from_hex-IsNodeId : (s : Text) (bs : List ℕ) → from_hex s ≡ some bs → IsNodeId bs
unfolding from_hex
from_hex-IsNodeId s bs e = elim (Bool-cases (length (without_prefix s) == 32)) [
  | inl long ↦ hex_bytes-IsByte 16 (without_prefix s) bs (==→eq _ 32 long) (ground (arith, e, long))
  | inr short ↦ absurd (ground (arith, e, short))
]

from_seed-IsNodeId : (s : Text) → IsNodeId (from_seed s)
unfolding from_seed
from_seed-IsNodeId s =
    let (h1, h2) = seed_hash 0xcbf29ce484222325 0x84222325cbf29ce4 s in
    (
      omega (arith, length-append (to_le 8 h1) (to_le 8 h2), length-to_le 8 h1, length-to_le 8 h2),
      All-append IsByte (to_le 8 h1) (to_le 8 h2) (to_le-IsByte 8 h1) (to_le-IsByte 8 h2),
    )

-- Every text gives sixteen bytes.
pub from_str-IsNodeId : (s : Text) → IsNodeId (from_str s)
unfolding from_str
from_str-IsNodeId s = elim (Option-cases (from_hex s)) [
  | inl bad ↦ rw (bad, from_str) (from_seed-IsNodeId s)
  | inr (bs, good) ↦ rw (good, from_str) (from_hex-IsNodeId s bs good)
]
