-- ===== src/Codec/Units.antt =====
-- crates/stross-endpoint/src/codec/nal.rs: NAL units put together to access units.
pub mod Frames
use stross.Base.{
  ℕ, suc, List, [], ◌∷◌, ◌++◌, Option, none, some, leb, ◌==◌, ◌||◌, if◌then◌else◌, length, Bool,
  true, false, bit_and, ◌&&◌, ◌+◌,
}
use stross.Codec.Emulation.{first_mb_in_slice}

abbrev pub Nal : Type 0
Nal = List ℕ

abbrev pub nal_slice_non_idr : ℕ
nal_slice_non_idr = 1

abbrev pub nal_slice_idr : ℕ
nal_slice_idr = 5

unfoldable pub nal_type : Nal → Option ℕ
nal_type [] = none
nal_type (b ∷ bs) = some (bit_and b 0x1f)

pub record AccessUnit : Type 0 where
  pub nals : List Nal
  pub keyframe : Bool

unfoldable pub to_annex_b : List Nal → List ℕ
to_annex_b [] = []
to_annex_b (nal ∷ nals) = (0 ∷ 0 ∷ 1 ∷ nal) ++ to_annex_b nals

unfoldable pub payload_len : List Nal → ℕ
payload_len [] = 0
payload_len (nal ∷ nals) = length nal + payload_len nals

pub record AccessUnitBuilder : Type 0 where
  pub pending : List Nal
  pub current : List Nal
  pub keyframe : Bool

abbrev pub new_builder : AccessUnitBuilder
new_builder = record { pending = []; current = []; keyframe = false }

unfoldable pub is_idr : Nal → Bool
is_idr nal = elim (nal_type nal) [ none ↦ false | some kind ↦ kind == nal_slice_idr ]

unfoldable pub is_slice : Nal → Bool
is_slice nal = elim (nal_type nal) [
  | none ↦ false
  | some kind ↦ (kind == nal_slice_non_idr) || (kind == nal_slice_idr)
]

-- A slice whose first macroblock cannot be read counts as the first of its frame.
unfoldable pub is_first_slice : Nal → Bool
is_first_slice nal = elim (first_mb_in_slice nal) [ none ↦ true | some v ↦ v == 0 ]

unfoldable pub finished : AccessUnitBuilder → Option AccessUnit
finished b = elim b.current [
  | [] ↦ none
  | nal ∷ nals ↦ some (record { nals = nal ∷ nals; keyframe = b.keyframe })
]

unfoldable pub push : AccessUnitBuilder → Nal → Option AccessUnit × AccessUnitBuilder
push b nal =
    if is_slice nal
    then (if is_first_slice nal
        then (
          finished b,
          record { pending = []; current = b.pending ++ nal ∷ []; keyframe = is_idr nal },
        )
        else (none, record b { current = b.current ++ nal ∷ []; keyframe = is_idr nal }))
    else (
      none,
      record b { pending = (if leb 32 (length b.pending) then [] else b.pending) ++ nal ∷ [] },
    )

unfoldable pub finish : AccessUnitBuilder → Option AccessUnit × AccessUnitBuilder
finish b =
    let all = b.pending ++ b.current in
    if length all == 0
    then (none, b)
    else (some (record { nals = all; keyframe = b.keyframe }), new_builder)
