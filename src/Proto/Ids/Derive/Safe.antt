-- ===== src/Proto/Ids/Derive/Safe.antt =====
-- A derived id is short and can stand in a URL.
use mathlib.Core.List.{reverse, reverse-cons}
use stross.Base.{
  ℕ, zero, suc, ◌<◌, ◌≤◌, ◌/◌, ◌%◌, ◌^◌, ◌≡◌, refl, sym, subst, true, [], ◌∷◌, ◌++◌, arith, All,
  All-append, All-take, length, length-append, length-take, Bool-cases, inl, inr, ◌==◌,
}
use stross.Proto.Message.{Text}
use stross.Proto.Ids.{EndpointId, to_wire_str, hex_digit}
use stross.Proto.Ids.Derive.{
  ReliabilityProfile, PickRule, lossless, realtime, profile_short, pick_short, is_safe, clean_byte,
  push_clean, clean_loop, pop_dashes, or_letter, cleaned, id_prefix, hex_word, derive_stream_id,
  dash, fnv_loop,
}

abbrev pub IsSafe : Text → Type 0
IsSafe = All (λ b. is_safe b ≡ true)

clean_byte_safe : (b : ℕ) → is_safe (clean_byte b) ≡ true
unfolding clean_byte
clean_byte_safe b = ground arith

dash_safe : is_safe dash ≡ true
unfolding is_safe
dash_safe = refl

push_clean-IsSafe : (acc : Text) (b : ℕ) → IsSafe acc → IsSafe (push_clean acc (clean_byte b))
unfolding push_clean
push_clean-IsSafe acc b h = ground (arith, h, clean_byte_safe b)

clean_loop-IsSafe : (acc bs : Text) → IsSafe acc → IsSafe (clean_loop acc bs)
unfolding clean_loop
clean_loop-IsSafe acc [] h = h
clean_loop-IsSafe acc (b ∷ bs) h =
    clean_loop-IsSafe (push_clean acc (clean_byte b)) bs (push_clean-IsSafe acc b h)

pop_dashes-IsSafe : (acc : Text) → IsSafe acc → IsSafe (pop_dashes acc)
unfolding pop_dashes
pop_dashes-IsSafe [] h = tt
pop_dashes-IsSafe (c ∷ acc) h = elim (Bool-cases (c == dash)) [
  | inl e ↦ rw e (pop_dashes-IsSafe acc h.1)
  | inr e ↦ rw e h
]

or_letter-IsSafe : (cs : Text) → IsSafe cs → IsSafe (or_letter cs)
unfolding is_safe
or_letter-IsSafe [] h = (refl, tt)
or_letter-IsSafe (c ∷ cs) h = h

reverse-IsSafe : (cs : Text) → IsSafe cs → IsSafe (reverse cs)
reverse-IsSafe [] h = tt
reverse-IsSafe (c ∷ cs) h =
    subst IsSafe (sym (reverse-cons c cs))
      (All-append (λ b. is_safe b ≡ true) (reverse cs) (c ∷ []) (reverse-IsSafe cs h.1) (h.0, tt))

pub cleaned-IsSafe : (raw : Text) → IsSafe (cleaned raw)
unfolding cleaned
cleaned-IsSafe raw =
    All-take (λ b. is_safe b ≡ true) 48 (or_letter (reverse (pop_dashes (clean_loop [] raw))))
      (or_letter-IsSafe (reverse (pop_dashes (clean_loop [] raw))) (
        reverse-IsSafe (pop_dashes (clean_loop [] raw))
          (pop_dashes-IsSafe (clean_loop [] raw) (clean_loop-IsSafe [] raw tt))))

length-cleaned-le : (raw : Text) → length (cleaned raw) ≤ 48
unfolding cleaned
length-cleaned-le raw =
    omega (arith, length-take 48 (or_letter (reverse (pop_dashes (clean_loop [] raw)))))

hex_digit-safe : (n : ℕ) → n < 16 → is_safe (hex_digit n) ≡ true
unfolding hex_digit is_safe
hex_digit-safe n h = ground arith

hex_word-IsSafe : (k n : ℕ) → IsSafe (hex_word k n)
unfolding hex_word
hex_word-IsSafe zero n = tt
hex_word-IsSafe (suc k) n =
    All-append (λ b. is_safe b ≡ true) (hex_word k (n / 16)) (hex_digit (n % 16) ∷ [])
      (hex_word-IsSafe k (n / 16)) (hex_digit-safe (n % 16) (omega arith), tt)

length-hex_word : (k n : ℕ) → length (hex_word k n) ≡ k
unfolding hex_word
length-hex_word zero n = refl
length-hex_word (suc k) n = omega (
  arith,
  length-append (hex_word k (n / 16)) (hex_digit (n % 16) ∷ []),
  length-hex_word k (n / 16),
)

-- The short names, joined by a dash.
shorts-IsSafe :
    (p : ReliabilityProfile) (r : PickRule)
    → IsSafe (dash ∷ (profile_short p ++ dash ∷ pick_short r))
      × (length (dash ∷ (profile_short p ++ dash ∷ pick_short r)) ≤ 6)
unfolding is_safe profile_short pick_short
shorts-IsSafe lossless realtime = ground arith
shorts-IsSafe _ _ = ground arith

id_prefix-IsSafe :
    (e : EndpointId) (p : ReliabilityProfile) (r : PickRule)
    → IsSafe (id_prefix e p r) × (length (id_prefix e p r) ≤ 54)
unfolding id_prefix
id_prefix-IsSafe e p r =
    let tail = dash ∷ (profile_short p ++ dash ∷ pick_short r) in
    let (safe, short) = shorts-IsSafe p r in
    (
      All-append (λ b. is_safe b ≡ true) (cleaned (to_wire_str e)) tail
          (cleaned-IsSafe (to_wire_str e)) safe,
      omega (
        arith,
        length-append (cleaned (to_wire_str e)) tail,
        length-cleaned-le (to_wire_str e),
        short,
      ),
    )

-- A derived id has letters, digits, dots, underscores and dashes only, and at most 63 of them.
pub derive_stream_id-IsSafe :
    (e : EndpointId) (p : ReliabilityProfile) (r : PickRule)
    → IsSafe (derive_stream_id e p r) × (length (derive_stream_id e p r) ≤ 63)
unfolding derive_stream_id
derive_stream_id-IsSafe e p r =
    let (safe, short) = id_prefix-IsSafe e p r in
    let hash = fnv_loop 0xcbf29ce484222325 (id_prefix e p r) % 2 ^ 32 in
    (
      All-append (λ b. is_safe b ≡ true) (id_prefix e p r) (dash ∷ hex_word 8 hash) safe
          (dash_safe, hex_word-IsSafe 8 hash),
      omega (
        arith,
        length-append (id_prefix e p r) (dash ∷ hex_word 8 hash),
        length-hex_word 8 hash,
        short,
      ),
    )
