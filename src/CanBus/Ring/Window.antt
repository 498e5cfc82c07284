-- ===== src/CanBus/Ring/Window.antt =====
-- The frames in consecutive slots of the ring, across the wrap of the indices.
use Prim.Native.Nat.{◌∣◌}
use native.Mathlib.Nat.{mod-mod_of_dvd}
use esp32_vehicle_can_core.Prelude.{
  ℕ, ◌+◌, ◌%◌, ◌<◌, ◌^◌, ◌≡◌, ap, ◌∙◌, List, arith, u32, window, window-mod,
}
use esp32_vehicle_can_core.VehicleCore.Frame.{RawCanFrame}
use esp32_vehicle_can_core.CanBus.Ring.{FrameRing, no_frame}
use esp32_vehicle_can_core.CanBus.Ring.Invariant.{distance}

-- The capacities at which the ring works across the wrap of size_t: the divisors of 2 ^ 32.
pub record IsFit (capacity : ℕ) : Type 0 where
  pub positive : 0 < capacity
  pub small : capacity < 2 ^ 32
  pub divides : capacity ∣ 2 ^ 32

-- What the ring holds, oldest first.
abbrev pub contents : ℕ → FrameRing → List RawCanFrame
contents capacity r = window no_frame capacity r.frames r.tail (distance r)

module _ (capacity : ℕ) where
  -- The slot that `push` writes is the one past the window, also where the head has wrapped.
  pub head_slot :
      (r : FrameRing)
      → IsFit capacity
      → r.head < 2 ^ 32
      → r.tail < 2 ^ 32
      → r.head % capacity ≡ (r.tail + distance r) % capacity
  head_slot r fit hi ti =
      let wrapped : r.head ≡ (r.tail + distance r) % 2 ^ 32 = omega arith in
      ap (λ i. i % capacity) wrapped ∙ mod-mod_of_dvd capacity (r.tail + distance r) fit.divides

  pub tail_step :
      (r : FrameRing) (n : ℕ)
      → IsFit capacity
      → window no_frame capacity r.frames (u32 (r.tail + 1)) n
        ≡ window no_frame capacity r.frames (r.tail + 1) n
  tail_step r n fit =
      window-mod no_frame capacity r.frames _ _ n (mod-mod_of_dvd capacity (r.tail + 1) fit.divides)
