-- ===== src/Proto/Ids/Tests.antt =====
-- Ids and their texts, and their theorems at concrete inputs.
use stross.Base.{ℕ, ◌≡◌, refl, none, List, [], ◌∷◌, ◌++◌, replicate, arith}
use stross.Base.Split.{split_once}
use stross.Base.Decimal.{to_decimal, from_decimal}
use stross.Proto.Ids.{
  screen, EndpointId, parse, to_wire_str, from_str, to_hex, node_prefix, dev_prefix,
}
use stross.Proto.Ids.Node.{from_str-to_hex}
use stross.Proto.Ids.Derive.{lossy, realtime, profile_short, pick_short, id_prefix}
use stross.Proto.Ids.Derive.Distinct.{derive_stream_id-distinct}

abbrev first_screen : EndpointId
first_screen = record { kind = screen; id = 0 }

-- `screen:0`
prints : to_wire_str first_screen ≡ b's' ∷ b'c' ∷ b'r' ∷ b'e' ∷ b'e' ∷ b'n' ∷ b':' ∷ b'0' ∷ []
unfolding to_wire_str to_decimal
prints = refl

-- `mic:builtin`
refused :
    parse (b'm' ∷ b'i' ∷ b'c' ∷ b':' ∷ b'b' ∷ b'u' ∷ b'i' ∷ b'l' ∷ b't' ∷ b'i' ∷ b'n' ∷ []) ≡ none
unfolding parse split_once from_decimal
refused = refl

-- The prefix is `screen-0-ly-rt`.
derived :
    id_prefix first_screen lossy realtime
    ≡ b's' ∷ b'c' ∷ b'r' ∷ b'e' ∷ b'e' ∷ b'n' ∷ b'-' ∷ b'0' ∷ b'-' ∷ b'l' ∷ b'y' ∷ b'-' ∷ b'r'
      ∷ b't' ∷ []
unfolding id_prefix to_wire_str to_decimal profile_short pick_short
derived = refl

abbrev node : List ℕ
node = 0xde ∷ 0xad ∷ replicate 14 1

from_str-to_hex_example :
    (from_str (to_hex node) ≡ node)
    × (from_str (node_prefix ++ to_hex node) ≡ node)
    × (from_str (dev_prefix ++ to_hex node) ≡ node)
from_str-to_hex_example = from_str-to_hex node refl (omega arith)

derive_stream_id-distinct_example :
    (first_screen ≡ first_screen) × (lossy ≡ lossy) × (realtime ≡ realtime)
derive_stream_id-distinct_example =
    derive_stream_id-distinct first_screen first_screen lossy lossy realtime realtime (omega arith)
      (omega arith) refl
