-- ===== src/Channel/FileName.antt =====
-- crates/stross-kernel/src/channel/session.rs, `sanitize_file_name`: a file name from a peer, made safe.
-- A name is the list of its characters as code points, and `Path` is that of Unix.
pub mod Safe
mod Tests
use stross.Base.{
  ℕ, suc, zero, ◌+◌, ◌/◌, ◌%◌, List, [], ◌∷◌, map, Option, none, some, ltb, leb, ◌==◌,
  if◌then◌else◌, Bool, ◌||◌, ◌&&◌, not, true, false,
}
use stross.Proto.Message.{Text}
use mathlib.Core.List.{reverse}

abbrev pub slash : ℕ
slash = 47

abbrev pub backslash : ℕ
backslash = 92

abbrev pub dot : ℕ
dot = 46

abbrev pub underscore : ℕ
underscore = 95

-- `char::is_control`.
unfoldable pub is_control : ℕ → Bool
is_control c = ltb c 32 || leb 127 c && leb c 159

-- `char::is_whitespace`.
unfoldable pub is_whitespace : ℕ → Bool
is_whitespace c =
    leb 9 c && leb c 13
    || c == 32
    || c == 133
    || c == 160
    || c == 5760
    || leb 8192 c && leb c 8202
    || c == 8232
    || c == 8233
    || c == 8239
    || c == 8287
    || c == 12288

-- `str::trim_start_matches`.
unfoldable pub trim_start : (ℕ → Bool) → Text → Text
trim_start p [] = []
trim_start p (c ∷ cs) = let rest = trim_start p cs in if p c then rest else c ∷ cs

unfoldable pub trim_both : (ℕ → Bool) → Text → Text
trim_both p cs = reverse (trim_start p (reverse (trim_start p cs)))

-- The pieces between slashes.
unfoldable pub split_slash : Text → List Text
split_slash [] = [] ∷ []
split_slash (c ∷ cs) =
    let rest = split_slash cs in
    if c == slash
    then [] ∷ rest
    else elim rest [ [] ↦ (c ∷ []) ∷ [] | piece ∷ pieces ↦ (c ∷ piece) ∷ pieces ]

-- A piece that is empty or a dot is no component.
unfoldable pub is_component : Text → Bool
is_component [] = false
is_component (c ∷ []) = not (c == dot)
is_component (c ∷ d ∷ cs) = true

unfoldable pub is_parent : Text → Bool
is_parent [] = false
is_parent (c ∷ []) = false
is_parent (c ∷ d ∷ []) = c == dot && d == dot
is_parent (c ∷ d ∷ e ∷ cs) = false

unfoldable pub last_component : List Text → Option Text
last_component [] = none
last_component (p ∷ ps) = elim (last_component ps) [
  | some q ↦ some q
  | none ↦ if is_component p then some p else none
]

-- `Path::file_name`.
unfoldable pub file_name : Text → Option Text
file_name path = elim (last_component (split_slash path)) [
  | none ↦ none
  | some p ↦ if is_parent p then none else some p
]

unfoldable pub digits : ℕ → ℕ → Text → Text
digits zero n acc = acc
digits (suc fuel) n acc =
    let rest = digits fuel (n / 10) ((48 + n % 10) ∷ acc) in
    if ltb n 10 then (48 + n) ∷ acc else rest

-- `file_{secs}`, where a `u64` has at most 20 decimal digits.
unfoldable pub fallback_name : ℕ → Text
fallback_name secs = 102 ∷ 105 ∷ 108 ∷ 101 ∷ 95 ∷ digits 20 secs []

unfoldable pub clean : ℕ → ℕ
clean c = if c == slash || c == backslash || is_control c then underscore else c

unfoldable pub normalize : ℕ → ℕ
normalize c = if c == backslash then slash else c

-- What is left of the base name after cleaning and trimming.
unfoldable pub trimmed_name : Text → Text
trimmed_name raw_name =
    let base : Text = elim (file_name (map normalize raw_name)) [ none ↦ [] | some p ↦ p ] in
    trim_both (λ c. c == dot) (trim_both is_whitespace (map clean base))

unfoldable pub sanitize_file_name : ℕ → Text → Text
sanitize_file_name secs raw_name =
    let trimmed = trimmed_name raw_name in
    if is_component trimmed && not (is_parent trimmed) then trimmed else fallback_name secs
