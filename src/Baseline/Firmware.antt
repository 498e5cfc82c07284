-- ===== src/Baseline/Firmware.antt =====
-- firmware/runtime-synthetic-baseline/main/main.cpp: the platform of the ESP32, the idle hooks and
-- the scenarios as the build configures them. What runs under `idle_lock` is one step.
pub mod Idle
pub mod Measuring
use esp32_vehicle_can_core.Prelude.{
  ℕ, zero, suc, ◌+◌, ◌*◌, ◌/◌, ◌≤◌, ◌<◌, ◌≡◌, refl, Bool, true, false, not, ◌&&◌, ◌||◌, Option,
  none, some, List, arith, Bool-cases, inl, inr, ◌^◌, ltb, leb, ◌==◌, if◌then◌else◌, get_or, set,
  u64,
}
use esp32_vehicle_can_core.Baseline.Fixture.{Scenario}

-- EspPlatform::wait delays by that many ticks.
unfoldable pub wait_ticks : ℕ → ℕ → ℕ
wait_ticks tick_rate_hz us =
    let ticks = (us * tick_rate_hz + 999999) / 1000000 in if ticks == 0 then 1 else ticks

-- A delay is of one tick at least and never shorter than was asked for.
pub wait_ticks_enough :
    (tick_rate_hz us : ℕ)
    → (1 ≤ wait_ticks tick_rate_hz us) × (us * tick_rate_hz ≤ wait_ticks tick_rate_hz us * 1000000)
unfolding wait_ticks
wait_ticks_enough tick_rate_hz us = ground arith

module _ {World : Type 0} (now : World → World × ℕ) where
  -- The loop of EspPlatform::busy; `none` means that the clock has not come to the end yet.
  unfoldable pub busy_until : ℕ → ℕ → World → Option World
  busy_until zero until w = none
  busy_until (suc fuel) until w =
      let (w1, t) = now w in
      let rest = busy_until fuel until w1 in if ltb t until then rest else some w1

  unfoldable pub busy : ℕ → ℕ → World → Option World
  unfolding busy_until
  busy fuel us w =
      let (w1, t) = now w in if us == 0 then some w else busy_until fuel (u64 (t + us)) w1

  -- What the loop sees of a clock that gains at least a microsecond at each reading.
  abbrev pub Advances : (World → ℕ) → Type 0
  Advances time = (w : World) → ((now w).1 ≡ time w) × (time w < time (now w).0)

  busy_until-ends :
      (time : World → ℕ) (fuel until : ℕ) (w : World)
      → Advances time
      → until ≤ time w + fuel
      → (w' : World) × (busy_until (suc fuel) until w ≡ some w') × (until ≤ time w')
  unfolding busy_until
  busy_until-ends time zero until w adv enough =
      ((now w).0, ground (arith, adv w), ground (arith, adv w))
  busy_until-ends time (suc fuel) until w adv enough = elim (Bool-cases (ltb (now w).1 until)) [
    | inl more ↦
        let (w', same, late) =
          busy_until-ends time fuel until (now w).0 adv (omega (arith, adv w)) in
        (w', ground (arith, same), late)
    | inr over ↦ ((now w).0, ground arith, ground (arith, adv w))
  ]

  -- A busy wait ends, on a clock that gains a microsecond at each reading, and not before its time:
  -- it takes no more readings than it has microseconds, and one more.
  pub busy_ends :
      (time : World → ℕ) (us : ℕ) (w : World)
      → Advances time
      → 0 < us
      → time w + us < 2 ^ 64
      → (w' : World) × (busy (suc us) us w ≡ some w') × (time w + us ≤ time w')
  unfolding busy
  busy_ends time us w adv some_time in_range =
      let end : ℕ = u64 ((now w).1 + us) in
      let whole : end ≡ time w + us = ground (arith, adv w) in
      let (w', same, late) =
        busy_until-ends time us end (now w).0 adv (omega (arith, whole, adv w)) in
      (w', ground (arith, same), omega (arith, whole, late))

-- EspPlatform::after_float on the cores that the FreeRTOS getters name.
unfoldable pub count_core : ℕ → List ℕ → List ℕ
count_core cpu counts = if ltb cpu 2 then set counts cpu (u64 (get_or counts cpu 0 + 1)) else counts

-- The build's CONFIG_BASELINE values.
pub record BuildConfig : Type 0 where
  pub scenario : ℕ
  pub processor_work_us : ℕ
  pub observer_work_us : ℕ
  pub arrival_batch : ℕ
  pub arrival_interval_us : ℕ

unfoldable pub is_selected : BuildConfig → ℕ → Bool
is_selected b index = b.scenario == 0 || b.scenario == index + 1

-- The scenario of that index as it is run.
unfoldable pub configured : BuildConfig → ℕ → Scenario → Scenario
configured b index s =
    let s1 = if index == 4 then s else record s { processor_work_us = b.processor_work_us } in
    let s2 =
      if index == 2 || index == 3
      then record s1 {
        initial_frames = b.arrival_batch;
        arrival_batch = b.arrival_batch;
        arrival_interval_us = b.arrival_interval_us;
      }
      else s1 in
    if index == 3 then record s2 { observer_work_us = b.observer_work_us } else s2
