-- ===== src/Proto/Ids.antt =====
-- crates/stross-proto/src/message/ids: media kinds, endpoint ids and node ids with their texts, and the
-- derivation of stream ids.
-- A text is the list of its codes; an id is a `u32`, a node id sixteen bytes.
pub mod Endpoint
pub mod Node
pub mod Derive
mod Tests
use Prim.Native.Nat.{bit_xor}
use stross.Base.{
  ℕ, zero, suc, ◌+◌, ◌-◌, ◌*◌, ◌/◌, ◌%◌, ◌^◌, Bool, true, false, not, ◌&&◌, ◌||◌, List, [], ◌∷◌,
  ◌++◌, Option, none, some, if◌then◌else◌, ◌==◌, leb, ltb, length, take,
}
use stross.Base.Split.{strip_prefix, split_once, or_else}
use stross.Base.Bytes.{to_le}
use stross.Base.Decimal.{to_decimal, from_decimal}
use stross.Proto.Frame.{bytes_eq}
use stross.Proto.Message.{Text}

pub data MediaKind : Type 0 where
  screen window camera mic system_audio input clipboard file service : MediaKind

pub record EndpointId : Type 0 where
  pub kind : MediaKind
  pub id : ℕ

unfoldable pub as_str : MediaKind → Text
as_str screen = b's' ∷ b'c' ∷ b'r' ∷ b'e' ∷ b'e' ∷ b'n' ∷ []
as_str window = b'w' ∷ b'i' ∷ b'n' ∷ b'd' ∷ b'o' ∷ b'w' ∷ []
as_str camera = b'c' ∷ b'a' ∷ b'm' ∷ b'e' ∷ b'r' ∷ b'a' ∷ []
as_str mic = b'm' ∷ b'i' ∷ b'c' ∷ []
as_str system_audio =
    b's' ∷ b'y' ∷ b's' ∷ b't' ∷ b'e' ∷ b'm' ∷ b'A' ∷ b'u' ∷ b'd' ∷ b'i' ∷ b'o' ∷ []
as_str input = b'i' ∷ b'n' ∷ b'p' ∷ b'u' ∷ b't' ∷ []
as_str clipboard = b'c' ∷ b'l' ∷ b'i' ∷ b'p' ∷ b'b' ∷ b'o' ∷ b'a' ∷ b'r' ∷ b'd' ∷ []
as_str file = b'f' ∷ b'i' ∷ b'l' ∷ b'e' ∷ []
as_str service = b's' ∷ b'e' ∷ b'r' ∷ b'v' ∷ b'i' ∷ b'c' ∷ b'e' ∷ []

abbrev pub all_kinds : List MediaKind
all_kinds = screen ∷ window ∷ camera ∷ mic ∷ system_audio ∷ input ∷ clipboard ∷ file ∷ service ∷ []

-- The arms of `from_wire`, one after the other.
unfoldable pub first_kind : Text → List MediaKind → Option MediaKind
unfolding bytes_eq as_str
first_kind s [] = none
first_kind s (k ∷ ks) = if bytes_eq s (as_str k) then some k else first_kind s ks

unfoldable pub from_wire : Text → Option MediaKind
unfolding first_kind
from_wire s = first_kind s all_kinds

abbrev pub colon : ℕ
colon = b':'

abbrev pub u32_bound : ℕ
u32_bound = 4294967296

abbrev pub with_kind : Option MediaKind → Option ℕ → Option EndpointId
with_kind (some kind) (some id) = some (record { kind = kind; id = id })
with_kind _ _ = none

abbrev pub at_colon : Option (Text × Text) → Option EndpointId
at_colon none = none
at_colon (some (kind, id)) = with_kind (from_wire kind) (from_decimal u32_bound id)

-- `EndpointId::parse`.
unfoldable pub parse : Text → Option EndpointId
unfolding from_wire
parse s = at_colon (split_once colon s)

-- A `u32` has at most ten digits.
unfoldable pub to_wire_str : EndpointId → Text
unfolding as_str
to_wire_str e = as_str e.kind ++ colon ∷ to_decimal 10 e.id

unfoldable pub hex_nibble : ℕ → Option ℕ
hex_nibble b =
    if leb b'0' b && leb b b'9'
    then some (b - b'0')
    else if leb b'a' b && leb b b'f'
    then some (b - b'a' + 10)
    else if leb b'A' b && leb b b'F'
    then some (b - b'A' + 10)
    else none

-- A digit of `{:02x}`.
unfoldable pub hex_digit : ℕ → ℕ
hex_digit n = if ltb n 10 then b'0' + n else b'a' + (n - 10)

unfoldable pub to_hex : List ℕ → Text
unfolding hex_digit
to_hex [] = []
to_hex (b ∷ bs) = hex_digit (b / 16) ∷ hex_digit (b % 16) ∷ to_hex bs

abbrev pub join_byte : Option ℕ → Option ℕ → Option (List ℕ) → Option (List ℕ)
join_byte (some hi) (some lo) (some bs) = some ((hi * 16 + lo) ∷ bs)
join_byte _ _ _ = none

-- The loop over pairs of digits.
unfoldable pub hex_bytes : Text → Option (List ℕ)
unfolding hex_nibble
hex_bytes (h ∷ l ∷ cs) = join_byte (hex_nibble h) (hex_nibble l) (hex_bytes cs)
hex_bytes _ = some []

abbrev pub node_prefix : Text
node_prefix = b'n' ∷ b'o' ∷ b'd' ∷ b'e' ∷ b'-' ∷ []

abbrev pub dev_prefix : Text
dev_prefix = b'd' ∷ b'e' ∷ b'v' ∷ b'-' ∷ []

abbrev pub unwrap_or : Option Text → Text → Text
unwrap_or none s = s
unwrap_or (some r) s = r

unfoldable pub without_prefix : Text → Text
without_prefix s = unwrap_or (or_else (strip_prefix node_prefix s) (strip_prefix dev_prefix s)) s

abbrev pub sized_hex : Text → Option (List ℕ)
sized_hex hex = if length hex == 32 then hex_bytes hex else none

unfoldable pub from_hex : Text → Option (List ℕ)
unfolding without_prefix hex_bytes
from_hex s = sized_hex (without_prefix s)

abbrev pub fnv_prime : ℕ
fnv_prime = 0x100000001b3

-- A step of the hash, on a `u64`.
abbrev pub fnv_step : ℕ → ℕ → ℕ
fnv_step h b = (bit_xor h b * fnv_prime) % 2 ^ 64

abbrev pub rotate_left_3 : ℕ → ℕ
rotate_left_3 b = (b * 8) % 256 + b / 32

unfoldable pub seed_hash : ℕ → ℕ → List ℕ → ℕ × ℕ
seed_hash h1 h2 [] = (h1, h2)
seed_hash h1 h2 (b ∷ bs) = seed_hash (fnv_step h1 b) (fnv_step h2 (rotate_left_3 b)) bs

unfoldable pub from_seed : Text → List ℕ
unfolding seed_hash
from_seed seed =
    let (h1, h2) = seed_hash 0xcbf29ce484222325 0x84222325cbf29ce4 seed in to_le 8 h1 ++ to_le 8 h2

-- `NodeId::from_str`, which does not fail.
unfoldable pub from_str : Text → List ℕ
unfolding from_hex from_seed
from_str s = elim (from_hex s) [ some id ↦ id | none ↦ from_seed s ]
