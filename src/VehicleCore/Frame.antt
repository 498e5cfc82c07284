-- ===== src/VehicleCore/Frame.antt =====
-- components/vehicle_core/include/vehicle_core/frame.hpp and src/vehicle_core.cpp.
use esp32_vehicle_can_core.Prelude.{
  ℕ, ◌^◌, ◌<◌, ◌≤◌, ◌≡◌, refl, ◌↔◌, Bool, true, false, List, arith, ltb, leb, if◌then◌else◌,
}

abbrev pub can_classic_payload_bytes : ℕ
can_classic_payload_bytes = 8

-- The enumeration has a fixed underlying type, so a value outside it can be stored.
pub data CanIdentifierFormat : Type 0 where
  standard extended : CanIdentifierFormat
  out_of_enum : ℕ → CanIdentifierFormat

pub record RawCanFrame : Type 0 where
  pub timestamp_us : ℕ
  pub bus_id : ℕ
  pub identifier : ℕ
  pub identifier_format : CanIdentifierFormat
  pub remote_request : Bool
  pub dlc : ℕ
  pub data_bytes : List ℕ

unfoldable pub is_extended : RawCanFrame → Bool
is_extended f = elim f.identifier_format [ extended ↦ true | _ ↦ false ]

-- The `switch` of `is_valid`; the last case is the `return false` below it.
unfoldable pub identifier_fits : CanIdentifierFormat → ℕ → Bool
identifier_fits standard i = leb i 0x7ff
identifier_fits extended i = leb i 0x1fffffff
identifier_fits (out_of_enum n) i = false

unfoldable pub is_valid : RawCanFrame → Bool
unfolding identifier_fits
is_valid f =
    if ltb can_classic_payload_bytes f.dlc
    then false
    else identifier_fits f.identifier_format f.identifier

-- What a classic CAN frame is: an 11-bit or a 29-bit identifier, and at most eight bytes.
pub data IsClassic (f : RawCanFrame) : Type 0 where
  base_frame : f.identifier_format ≡ standard → f.identifier < 2 ^ 11 → f.dlc ≤ 8 → IsClassic f
  extended_frame : f.identifier_format ≡ extended → f.identifier < 2 ^ 29 → f.dlc ≤ 8 → IsClassic f

is_valid_sound :
    (k : CanIdentifierFormat) (f : RawCanFrame)
    → f.identifier_format ≡ k
    → is_valid f ≡ true
    → IsClassic f
unfolding is_valid
is_valid_sound standard f e h = base_frame e (ground arith) (ground arith)
is_valid_sound extended f e h = extended_frame e (ground arith) (ground arith)
is_valid_sound (out_of_enum n) f e h = absurd (ground arith)

is_valid_complete : (f : RawCanFrame) → IsClassic f → is_valid f ≡ true
unfolding is_valid
is_valid_complete f (base_frame e i d) = ground arith
is_valid_complete f (extended_frame e i d) = ground arith

-- `is_valid` accepts exactly the classic CAN frames: a standard identifier of 11 bits or an
-- extended one of 29 bits, with at most eight data bytes.
pub is_valid_iff : (f : RawCanFrame) → (is_valid f ≡ true) ↔ IsClassic f
is_valid_iff f = (is_valid_sound f.identifier_format f refl, is_valid_complete f)
