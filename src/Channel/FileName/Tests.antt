-- ===== src/Channel/FileName/Tests.antt =====
-- File names from a peer, made safe, and the theorem at one of them.
use stross.Base.{ℕ, ◌≡◌, refl, true, false, [], ◌∷◌, All}
use stross.Channel.FileName.{
  sanitize_file_name, trimmed_name, trim_both, trim_start, clean, normalize, file_name,
  last_component, split_slash, is_component, is_parent, is_control, is_whitespace, fallback_name,
  digits,
}
use stross.Channel.FileName.Safe.{SafeChar, sanitize_file_name-Safe}
use stross.Proto.Message.{Text}

sanitized : ℕ → Text → Text
unfolding sanitize_file_name trimmed_name trim_both trim_start clean normalize file_name
    last_component split_slash is_component is_parent is_control is_whitespace fallback_name digits
sanitized secs raw = sanitize_file_name secs raw

-- `..\..\a` is `a`.
sanitize_file_name_up : sanitized 7 (46 ∷ 46 ∷ 92 ∷ 46 ∷ 46 ∷ 92 ∷ 97 ∷ []) ≡ 97 ∷ []
unfolding sanitized
sanitize_file_name_up = refl

-- `a/..` and ` . ` are `file_7`.
sanitize_file_name_parent :
    sanitized 7 (97 ∷ 47 ∷ 46 ∷ 46 ∷ []) ≡ 102 ∷ 105 ∷ 108 ∷ 101 ∷ 95 ∷ 55 ∷ []
unfolding sanitized
sanitize_file_name_parent = refl

sanitize_file_name_dot : sanitized 7 (32 ∷ 46 ∷ 32 ∷ []) ≡ 102 ∷ 105 ∷ 108 ∷ 101 ∷ 95 ∷ 55 ∷ []
unfolding sanitized
sanitize_file_name_dot = refl

sanitize_file_name-Safe_example :
    All SafeChar (sanitize_file_name 7 (46 ∷ 46 ∷ 47 ∷ 97 ∷ []))
    × (is_component (sanitize_file_name 7 (46 ∷ 46 ∷ 47 ∷ 97 ∷ [])) ≡ true)
    × (is_parent (sanitize_file_name 7 (46 ∷ 46 ∷ 47 ∷ 97 ∷ [])) ≡ false)
sanitize_file_name-Safe_example = sanitize_file_name-Safe 7 (46 ∷ 46 ∷ 47 ∷ 97 ∷ [])
