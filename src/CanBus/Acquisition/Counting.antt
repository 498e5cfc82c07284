-- ===== src/CanBus/Acquisition/Counting.antt =====
-- What collect_driver_status of components/can_bus/src/can_bus.cpp counts.
use esp32_vehicle_can_core.Prelude.{
  ℕ, ◌+◌, ◌-◌, ◌^◌, ◌≤◌, ◌<◌, ◌≡◌, ◌≢◌, refl, ◌⊎◌, inl, inr, true, false, arith, u32, u64, sub32,
}
use esp32_vehicle_can_core.CanBus.Types.{counter_delta}
use esp32_vehicle_can_core.CanBus.Ring.{record_bus_error, record_driver_rx_missed}
use esp32_vehicle_can_core.CanBus.Platform.{
  Platform, EspErr, esp_ok, esp_timeout, esp_failure, StatusInfo,
}
use esp32_vehicle_can_core.CanBus.Acquisition.{
  Bus, latch_terminal_fault, status_read, collect_driver_status,
}

delta_lem : (e e' : ℕ) → e ≤ e' → e' < e + 2 ^ 32 → sub32 (u32 e') (u32 e) ≡ e' - e
delta_lem e e' le lt = omega arith

count_one : (base e e' : ℕ) → e ≤ e' → u64 (u64 (base + e) + (e' - e)) ≡ u64 (base + e')
count_one base e e' le = omega arith

count_two :
    (base m o m' o' : ℕ)
    → m ≤ m'
    → o ≤ o'
    → u64 (u64 (base + m + o) + u64 (m' - m + (o' - o))) ≡ u64 (base + m' + o')
count_two base m o m' o' lm lo = omega arith

module _ (P : Platform) where
  -- The driver's counters count events modulo 2 ^ 32, and fewer than 2 ^ 32 happen between two
  -- readings; `base` is where the ring's counters stood. This is what the globals know after a
  -- reading at which `e` bus errors, `m` missed frames and `o` overruns had happened.
  pub record Counts (base_errors base_missed e m o : ℕ) (b : Bus P) : Type 0 where
    pub last_errors : b.last_driver_bus_errors ≡ u32 e
    pub last_missed : b.last_driver_rx_missed ≡ u32 m
    pub last_overrun : b.last_driver_rx_overrun ≡ u32 o
    pub errors : b.frames.bus_errors ≡ u64 (base_errors + e)
    pub missed : b.frames.driver_rx_missed ≡ u64 (base_missed + m + o)

  module _ (be bm e m o e' m' o' : ℕ) (b : Bus P) (c : Counts be bm e m o b) (e1 : e ≤ e')
      (e2 : e' < e + 2 ^ 32) (m1 : m ≤ m') (m2 : m' < m + 2 ^ 32) (o1 : o ≤ o')
      (o2 : o' < o + 2 ^ 32) where
    abbrev reading : StatusInfo
    reading = record {
      bus_error_count = u32 e';
      rx_missed_count = u32 m';
      rx_overrun_count = u32 o';
    }

    status_read-Counts :
        (w : P.World) (r : EspErr)
        → let (b', counted) = status_read P (record b { world = w }) r reading in
          ((r ≡ esp_ok) × (counted ≡ true) × Counts be bm e' m' o' b')
          ⊎ ((r ≢ esp_ok)
              × (counted ≡ false)
              × (b'.receive_requested ≡ false)
              × (b'.frames ≡ b.frames))
    unfolding status_read record_bus_error record_driver_rx_missed counter_delta
        latch_terminal_fault
    status_read-Counts w esp_ok = inl (
      refl,
      refl,
      record {
        last_errors = refl;
        last_missed = refl;
        last_overrun = refl;
        errors = rw (c.last_errors, c.errors, delta_lem e e' e1 e2) (count_one be e e' e1);
        missed =
            rw (c.last_missed, c.last_overrun, c.missed, delta_lem m m' m1 m2, delta_lem o o' o1 o2)
              (count_two bm m o m' o' m1 o1);
      },
    )
    status_read-Counts w esp_timeout = inr ((λ e. cc), refl, refl, refl)
    status_read-Counts w esp_failure = inr ((λ e. cc), refl, refl, refl)

  -- If fewer than 2 ^ 32 events of each kind happen between two readings, reading the driver's
  -- status with the driver's ESP_OK, across any wrap of its 32-bit counters, adds to the statistics
  -- exactly the bus errors, and the missed frames and overruns, that happened since the reading
  -- before; with any other answer of the driver the status counts nothing and ends the requests for
  -- rounds.
  pub collect_driver_status-Counts :
      (be bm e m o e' m' o' : ℕ) (b : Bus P)
      → Counts be bm e m o b
      → e ≤ e'
      → e' < e + 2 ^ 32
      → m ≤ m'
      → m' < m + 2 ^ 32
      → o ≤ o'
      → o' < o + 2 ^ 32
      → (P.get_status_info b.world).2
        ≡ record { bus_error_count = u32 e'; rx_missed_count = u32 m'; rx_overrun_count = u32 o' }
      → let (b', counted) = collect_driver_status P b in
        (((P.get_status_info b.world).1 ≡ esp_ok) × (counted ≡ true) × Counts be bm e' m' o' b')
        ⊎ (((P.get_status_info b.world).1 ≢ esp_ok)
            × (counted ≡ false)
            × (b'.receive_requested ≡ false)
            × (b'.frames ≡ b.frames))
  unfolding collect_driver_status
  collect_driver_status-Counts be bm e m o e' m' o' b c e1 e2 m1 m2 o1 o2 s =
      rw (s, collect_driver_status)
        (status_read-Counts be bm e m o e' m' o' b c e1 e2 m1 m2 o1 o2 (P.get_status_info b.world).0
          (P.get_status_info b.world).1)
