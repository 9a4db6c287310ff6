-- ===== src/Proto/Ids/Endpoint.antt =====
-- The readable text of an endpoint id.
use stross.Base.{◌<◌, ◌≡◌, refl, ap, ap₂, ◌∙◌, false, some, arith}
use stross.Base.Split.{contains, split_once-append, contains_false→Lacks}
use stross.Base.Decimal.{to_decimal, from_decimal-to_decimal}
use stross.Proto.Ids.{
  MediaKind, screen, EndpointId, as_str, from_wire, parse, to_wire_str, at_colon, with_kind, colon,
  u32_bound,
}

as_str-colon : (k : MediaKind) → contains (as_str k) colon ≡ false
unfolding as_str
as_str-colon screen = refl
as_str-colon _ = refl

-- Each media kind reads back from its text.
pub from_wire-as_str : (k : MediaKind) → from_wire (as_str k) ≡ some k
unfolding from_wire
from_wire-as_str screen = refl
from_wire-as_str _ = refl

-- An endpoint id whose number is a `u32` parses back from its text.
pub parse-to_wire_str : (e : EndpointId) → e.id < u32_bound → parse (to_wire_str e) ≡ some e
unfolding parse to_wire_str
parse-to_wire_str e h =
    ap at_colon (
      split_once-append colon (as_str e.kind) (to_decimal 10 e.id)
        (contains_false→Lacks colon (as_str e.kind) (as_str-colon e.kind)))
    ∙ ap₂ with_kind (from_wire-as_str e.kind)
        (from_decimal-to_decimal u32_bound 9 e.id h (omega (arith, h)))
