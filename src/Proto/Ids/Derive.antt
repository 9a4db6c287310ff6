-- ===== src/Proto/Ids/Derive.antt =====
-- crates/stross-proto/src/message/ids/derive.rs: the stream id of an endpoint under a profile and a rule.
mod Plain
pub mod Distinct
pub mod Safe
use Prim.Native.Nat.{bit_xor}
use mathlib.Core.List.{reverse}
use stross.Base.{
  ℕ, zero, suc, ◌/◌, ◌%◌, ◌^◌, Bool, true, false, not, ◌&&◌, ◌||◌, List, [], ◌∷◌, ◌++◌,
  if◌then◌else◌, ◌==◌, leb, take,
}
use stross.Proto.Message.{Text}
use stross.Proto.Ids.{EndpointId, to_wire_str, fnv_step, hex_digit}

pub data ReliabilityProfile : Type 0 where
  lossless lossy adaptive : ReliabilityProfile

-- `no_rule` is the source's `None`.
pub data PickRule : Type 0 where
  realtime strict_ordered no_rule : PickRule

unfoldable pub profile_short : ReliabilityProfile → Text
profile_short lossless = b'l' ∷ b'l' ∷ []
profile_short lossy = b'l' ∷ b'y' ∷ []
profile_short adaptive = b'a' ∷ b'd' ∷ []

unfoldable pub pick_short : PickRule → Text
pick_short realtime = b'r' ∷ b't' ∷ []
pick_short strict_ordered = b's' ∷ b'o' ∷ []
pick_short no_rule = b'n' ∷ []

abbrev pub dash : ℕ
dash = b'-'

-- The bytes that an id may have.
unfoldable pub is_safe : ℕ → Bool
is_safe b =
    (leb b'A' b && leb b b'Z')
    || (leb b'a' b && leb b b'z')
    || (leb b'0' b && leb b b'9')
    || (b == b'.')
    || (b == b'_')
    || (b == dash)

unfoldable pub clean_byte : ℕ → ℕ
unfolding is_safe
clean_byte b = if is_safe b then b else dash

-- The cleaned bytes are kept with the last one first.
abbrev pub last_is : Text → ℕ → Bool
last_is [] c = false
last_is (d ∷ ds) c = d == c

unfoldable pub push_clean : Text → ℕ → Text
push_clean acc c = if not (last_is acc c) || not (c == dash) then c ∷ acc else acc

unfoldable pub clean_loop : Text → Text → Text
unfolding push_clean clean_byte
clean_loop acc [] = acc
clean_loop acc (b ∷ bs) = clean_loop (push_clean acc (clean_byte b)) bs

unfoldable pub pop_dashes : Text → Text
pop_dashes [] = []
pop_dashes (c ∷ acc) = if c == dash then pop_dashes acc else c ∷ acc

abbrev pub or_letter : Text → Text
or_letter [] = b'e' ∷ []
or_letter (c ∷ cs) = c ∷ cs

unfoldable pub cleaned : Text → Text
unfolding clean_loop pop_dashes
cleaned raw = take 48 (or_letter (reverse (pop_dashes (clean_loop [] raw))))

unfoldable pub id_prefix : EndpointId → ReliabilityProfile → PickRule → Text
unfolding cleaned
id_prefix e profile pick =
    cleaned (to_wire_str e) ++ dash ∷ (profile_short profile ++ dash ∷ pick_short pick)

unfoldable pub fnv_loop : ℕ → Text → ℕ
fnv_loop h [] = h
fnv_loop h (b ∷ bs) = fnv_loop (fnv_step h b) bs

-- So many hexadecimal digits of a number, the highest first.
unfoldable pub hex_word : ℕ → ℕ → Text
unfolding hex_digit
hex_word zero n = []
hex_word (suc k) n = hex_word k (n / 16) ++ hex_digit (n % 16) ∷ []

unfoldable pub derive_stream_id : EndpointId → ReliabilityProfile → PickRule → Text
unfolding id_prefix fnv_loop hex_word
derive_stream_id e profile pick =
    let prefix = id_prefix e profile pick in
    prefix ++ dash ∷ hex_word 8 (fnv_loop 0xcbf29ce484222325 prefix % 2 ^ 32)
