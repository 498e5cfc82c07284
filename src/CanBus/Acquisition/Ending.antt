-- ===== src/CanBus/Acquisition/Ending.antt =====
-- The end of receive_task of components/can_bus/src/can_bus.cpp.
use esp32_vehicle_can_core.Prelude.{
  ℕ, zero, suc, ◌≡◌, refl, inl, inr, ◌∙◌, true, false, some, Bool-cases,
}
use esp32_vehicle_can_core.CanBus.Platform.{Platform}
use esp32_vehicle_can_core.CanBus.Acquisition.{Bus, receive_round, finish_task, receive_task}
use esp32_vehicle_can_core.CanBus.Acquisition.Task.{receive_round-Part}

module _ (P : Platform) where
  module _ (others : ℕ → Bus P → Bus P) (fuel : ℕ) (b : Bus P) where
    abbrev tested : Bus P
    tested = others fuel b

    leaves :
        tested.receive_requested ≡ false
        → receive_task P others (suc fuel) b ≡ some (finish_task P tested)
    unfolding receive_task
    leaves off = simp off

    breaks :
        tested.receive_requested ≡ true
        → (receive_round P tested).1 ≡ false
        → receive_task P others (suc fuel) b ≡ some (finish_task P (receive_round P tested).0)
    unfolding receive_task
    breaks on broken = simp (on, broken)

    continues :
        tested.receive_requested ≡ true
        → (receive_round P tested).1 ≡ true
        → receive_task P others (suc fuel) b ≡ receive_task P others fuel (receive_round P tested).0
    unfolding receive_task
    continues on goes_on = simp (on, goes_on)

  abbrev pub EndsBy : (ℕ → Bus P → Bus P) → ℕ → Bus P → Type 0
  EndsBy others fuel b =
      (b' : Bus P) × (receive_task P others fuel b ≡ some b')
      × (b'.lifecycle.task_owned ≡ false)
      × (b'.receive_requested ≡ false)

  finish_task_lem :
      (b : Bus P)
      → b.receive_requested ≡ false
      → ((finish_task P b).lifecycle.task_owned ≡ false)
        × ((finish_task P b).receive_requested ≡ false)
  unfolding finish_task
  finish_task_lem b off = (refl, off)

  -- The task ends: if in the last round looked at, at the latest, another task asks it to, it
  -- leaves its loop, and then it has given up its ownership and no rounds are requested.
  pub receive_task_ends :
      (others : ℕ → Bus P → Bus P) (fuel : ℕ) (b : Bus P)
      → ((b' : Bus P) → (others 0 b').receive_requested ≡ false)
      → EndsBy others (suc fuel) b
  receive_task_ends others zero b asked = (
    finish_task P (others 0 b),
    leaves others 0 b (asked b),
    (finish_task_lem (others 0 b) (asked b)).0,
    (finish_task_lem (others 0 b) (asked b)).1,
  )
  receive_task_ends others (suc fuel) b asked =
      elim (Bool-cases (others (suc fuel) b).receive_requested) [
        | inr off ↦ (
          finish_task P (others (suc fuel) b),
          leaves others (suc fuel) b off,
          (finish_task_lem (others (suc fuel) b) off).0,
          (finish_task_lem (others (suc fuel) b) off).1,
        )
        | inl on ↦ elim (Bool-cases (receive_round P (others (suc fuel) b)).1) [
          | inr broken ↦
              let last = (receive_round P (others (suc fuel) b)).0 in
              let off = ((receive_round-Part P (others (suc fuel) b)).5 broken).0 in
              (
                finish_task P last,
                breaks others (suc fuel) b on broken,
                (finish_task_lem last off).0,
                (finish_task_lem last off).1,
              )
          | inl goes_on ↦
              let next = (receive_round P (others (suc fuel) b)).0 in
              let (b', e, owned, off) = receive_task_ends others fuel next asked in
              (b', continues others (suc fuel) b on goes_on ∙ e, owned, off)
        ]
      ]
