-- ===== src/Tests/Frames.antt =====
-- Frames and rings that the tests share.
use native.Mathlib.Nat.{dvd_of_mod-eq-zero}
use esp32_vehicle_can_core.Prelude.{ℕ, ◌≡◌, refl, true, false, arith, replicate}
use esp32_vehicle_can_core.VehicleCore.Frame.{RawCanFrame, standard, is_valid}
use esp32_vehicle_can_core.CanBus.Ring.Window.{IsFit}

abbrev pub frame_of : ℕ → RawCanFrame
frame_of n = record {
  timestamp_us = n;
  bus_id = 0;
  identifier = n;
  identifier_format = standard;
  remote_request = false;
  dlc = 8;
  data_bytes = replicate 8 n;
}

abbrev wide : RawCanFrame
wide = record (frame_of 0x800) { dlc = 9 }

pub two-IsFit : IsFit 2
two-IsFit = record {
  positive = omega arith;
  small = omega arith;
  divides = dvd_of_mod-eq-zero 2 refl;
}

pub capacity-IsFit : IsFit 64
capacity-IsFit = record {
  positive = omega arith;
  small = omega arith;
  divides = dvd_of_mod-eq-zero 64 refl;
}

f_wide : is_valid wide ≡ false
unfolding is_valid
f_wide = refl

f_last : is_valid (frame_of 0x7ff) ≡ true
unfolding is_valid
f_last = refl
