-- ===== src/Channel/FileName/Safe.antt =====
-- A sanitized name stays in its directory.
use stross.Base.{
  ℕ, suc, zero, ◌+◌, ◌/◌, ◌%◌, ◌<◌, ◌≡◌, ◌≢◌, refl, [], ◌∷◌, map, arith, All, Bool, Bool-cases, inl,
  inr, true, false, ltb, ◌&&◌, not, ltb→lt,
}
use mathlib.Core.List.{reverse_aux}
use stross.Proto.Message.{Text}
use stross.Channel.FileName.{
  is_control, is_whitespace, trim_start, trim_both, digits, fallback_name, clean, trimmed_name,
  sanitize_file_name, is_component, is_parent,
}

-- Neither a separator of a path, on any system, nor a control character.
abbrev pub SafeChar : ℕ → Type 0
SafeChar c = (c ≢ 47) × (c ≢ 92) × (is_control c ≡ false)

clean-SafeChar : (c : ℕ) → SafeChar (clean c)
unfolding clean is_control
clean-SafeChar c = ground arith

map-clean : (cs : Text) → All SafeChar (map clean cs)
map-clean [] = tt
map-clean (c ∷ cs) = (clean-SafeChar c, map-clean cs)

trim_start-All : (P : ℕ → Type 0) (p : ℕ → Bool) (cs : Text) → All P cs → All P (trim_start p cs)
unfolding trim_start
trim_start-All P p [] h = tt
trim_start-All P p (c ∷ cs) h = elim (Bool-cases (p c)) [
  | inl e ↦ rw e (trim_start-All P p cs h.1)
  | inr e ↦ rw e h
]

reverse_aux-All :
    (P : ℕ → Type 0) (cs acc : Text) → All P cs → All P acc → All P (reverse_aux cs acc)
reverse_aux-All P [] acc h k = k
reverse_aux-All P (c ∷ cs) acc h k = reverse_aux-All P cs (c ∷ acc) h.1 (h.0, k)

trim_both-All : (P : ℕ → Type 0) (p : ℕ → Bool) (cs : Text) → All P cs → All P (trim_both p cs)
unfolding trim_both
trim_both-All P p cs h =
    reverse_aux-All P _ []
      (trim_start-All P p _ (reverse_aux-All P _ [] (trim_start-All P p cs h) tt)) tt

digit-SafeChar : (n : ℕ) → n < 10 → SafeChar (48 + n)
unfolding is_control
digit-SafeChar n h = ground arith

digits-All : (fuel n : ℕ) (acc : Text) → All SafeChar acc → All SafeChar (digits fuel n acc)
unfolding digits
digits-All zero n acc h = h
digits-All (suc fuel) n acc h = elim (Bool-cases (ltb n 10)) [
  | inl e ↦ rw e (digit-SafeChar n (ltb→lt _ _ e), h)
  | inr e ↦
      rw e
        (digits-All fuel (n / 10) ((48 + n % 10) ∷ acc) (digit-SafeChar (n % 10) (omega arith), h))
]

plain : (c : ℕ) → 92 < c → c < 127 → SafeChar c
unfolding is_control
plain c a b = ground arith

trimmed_name-All : (raw : Text) → All SafeChar (trimmed_name raw)
unfolding trimmed_name
trimmed_name-All raw =
    trim_both-All SafeChar _ _ (trim_both-All SafeChar is_whitespace _ (map-clean _))

-- Whatever name a peer gives, the sanitized one has no separator and no control character, is not
-- empty, and is neither the directory itself nor its parent.
pub sanitize_file_name-Safe :
    (secs : ℕ) (raw : Text)
    → All SafeChar (sanitize_file_name secs raw)
      × (is_component (sanitize_file_name secs raw) ≡ true)
      × (is_parent (sanitize_file_name secs raw) ≡ false)
unfolding sanitize_file_name fallback_name is_component is_parent
sanitize_file_name-Safe secs raw =
    elim (Bool-cases (is_component (trimmed_name raw) && not (is_parent (trimmed_name raw)))) [
      | inl e ↦ rw e (trimmed_name-All raw, ground (arith, e), ground (arith, e))
      | inr e ↦ rw e (
        (
          plain 102 (omega arith) (omega arith),
          (
            plain 105 (omega arith) (omega arith),
            (
              plain 108 (omega arith) (omega arith),
              (
                plain 101 (omega arith) (omega arith),
                (plain 95 (omega arith) (omega arith), digits-All 20 secs [] tt),
              ),
            ),
          ),
        ),
        refl,
        refl,
      )
    ]
