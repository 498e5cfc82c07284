-- ===== src/CanBus/Acquisition/Starting.antt =====
-- What a start of the acquisition leaves behind, on every path.
use esp32_vehicle_can_core.Prelude.{
  ℕ, zero, suc, ◌+◌, ◌<◌, ◌≡◌, refl, ◌∙◌, ◌⊎◌, inl, inr, Bool, true, false, Bool-cases, arith,
}
use esp32_vehicle_can_core.CanBus.Types.{
  ok, invalid_configuration, driver_failure, task_failure, stopped, running, faulted, Configuration,
  queue_capacity, is_configuration_valid,
}
use esp32_vehicle_can_core.CanBus.Ring.Invariant.{Inv}
use esp32_vehicle_can_core.CanBus.Lifecycle.{begin_start}
use esp32_vehicle_can_core.CanBus.Platform.{Platform, Semaphores}
use esp32_vehicle_can_core.CanBus.Acquisition.{Bus}
use esp32_vehicle_can_core.CanBus.Acquisition.Start.{
  StartOutcome, outcome, drain, create_semaphores, drain_semaphores, undo_launch, launch,
  undo_install, open_driver, acquire, start_with_ownership,
}

-- One round more than the tokens of a semaphore empties it.
pub drain_empties :
    {W : Type 0} (take : W → W × Bool) (tokens : W → ℕ)
    → ((w : W) → (take w).1 ≡ true → tokens (take w).0 + 1 ≡ tokens w)
    → ((w : W) → (take w).1 ≡ false → (tokens w ≡ 0) × (tokens (take w).0 ≡ 0))
    → (fuel : ℕ) (w : W) → tokens w < fuel
    → tokens (drain take fuel w) ≡ 0
unfolding drain
drain_empties take tokens taken refused zero w lt = absurd (omega arith)
drain_empties take tokens taken refused (suc fuel) w lt = elim (Bool-cases (take w).1) [
  | inl e ↦
      let fewer = taken w e in
      rw e (drain_empties take tokens taken refused fuel (take w).0 (omega arith))
  | inr e ↦ rw e (refused w e).1
]

drain_keeps :
    {W : Type 0} (take : W → W × Bool) (tokens : W → ℕ)
    → ((w : W) → tokens (take w).0 ≡ tokens w)
    → (fuel : ℕ) (w : W) → tokens (drain take fuel w) ≡ tokens w
unfolding drain
drain_keeps take tokens kept zero w = refl
drain_keeps take tokens kept (suc fuel) w = elim (Bool-cases (take w).1) [
  | inl e ↦ rw e (drain_keeps take tokens kept fuel (take w).0 ∙ kept w)
  | inr e ↦ rw e (kept w)
]

-- If the semaphores behave as documented, the drain loops of a start have fuel enough: afterwards
-- neither semaphore holds a token.
pub drain_semaphores_lem :
    (P : Platform) (s : Semaphores P) (b : Bus P)
    → (s.available_tokens (drain_semaphores P b).world ≡ 0)
      × (s.stopped_tokens (drain_semaphores P b).world ≡ 0)
unfolding drain_semaphores
drain_semaphores_lem P s b =
    let w = drain P.take_available (queue_capacity + 1) b.world in
    let few = s.available_bound b.world in
    let at_most_one = s.stopped_bound w in
    (
      drain_keeps P.take_task_stopped s.available_tokens s.available_apart 2 w
          ∙ drain_empties P.take_available s.available_tokens s.available_taken s.available_refused
              (queue_capacity + 1) b.world (omega arith),
      drain_empties P.take_task_stopped s.stopped_tokens s.stopped_taken s.stopped_refused 2 w
          (omega arith),
    )

module _ (P : Platform) where
  -- Who owns what between two calls: nobody owns anything while stopped, and a started driver and a
  -- task have an installed driver.
  pub record Owned (b : Bus P) : Type 0 where
    pub clean :
        b.lifecycle.state ≡ stopped
        → (b.lifecycle.driver_installed ≡ false)
          × (b.lifecycle.driver_started ≡ false)
          × (b.lifecycle.task_owned ≡ false)
    pub started_installed : b.lifecycle.driver_started ≡ true → b.lifecycle.driver_installed ≡ true
    pub task_installed : b.lifecycle.task_owned ≡ true → b.lifecycle.driver_installed ≡ true
    pub ring : Inv queue_capacity b.frames

  abbrev pub Runs : Bus P → StartOutcome → Type 0
  Runs b o =
      (o.result ≡ ok)
      × (o.cleanup_required ≡ true)
      × (b.lifecycle.state ≡ running)
      × (b.lifecycle.driver_installed ≡ true)
      × (b.lifecycle.driver_started ≡ true)
      × (b.lifecycle.task_owned ≡ true)
      × (b.receive_requested ≡ true)

  abbrev pub Released : Bus P → StartOutcome → Type 0
  Released b o =
      ((o.result ≡ driver_failure) ⊎ (o.result ≡ task_failure))
      × (o.cleanup_required ≡ false)
      × (b.lifecycle.state ≡ stopped)
      × (b.lifecycle.driver_installed ≡ false)
      × (b.lifecycle.driver_started ≡ false)
      × (b.lifecycle.task_owned ≡ false)

  abbrev pub Retained : Bus P → StartOutcome → Type 0
  Retained b o =
      ((o.result ≡ driver_failure) ⊎ (o.result ≡ task_failure))
      × (o.cleanup_required ≡ true)
      × (b.lifecycle.state ≡ faulted)
      × (b.lifecycle.driver_installed ≡ true)
      × (b.lifecycle.task_owned ≡ false)

  -- The three ends of a start that reserved the controller.
  abbrev pub Ended : Bus P × StartOutcome → Type 0
  Ended (b, o) = Runs b o ⊎ Released b o ⊎ Retained b o

  -- The controller as `begin_start` leaves it.
  abbrev Reserved : Bus P → Type 0
  Reserved b =
      (b.lifecycle.state ≡ running)
      × (b.lifecycle.driver_installed ≡ false)
      × (b.lifecycle.driver_started ≡ false)
      × (b.lifecycle.task_owned ≡ false)

  undo_launch-Ended :
      (b : Bus P)
      → b.lifecycle.state ≡ running
      → b.lifecycle.driver_installed ≡ true
      → Ended (undo_launch P b)
  unfolding undo_launch
  undo_launch-Ended b st inst = ground arith

  launch-Ended :
      (c : Configuration) (b : Bus P)
      → b.lifecycle.state ≡ running
      → b.lifecycle.driver_installed ≡ true
      → Ended (launch P c b)
  unfolding launch undo_launch
  launch-Ended c b st inst = ground arith

  undo_install-Ended :
      (b : Bus P)
      → b.lifecycle.driver_installed ≡ true
      → b.lifecycle.driver_started ≡ false
      → b.lifecycle.task_owned ≡ false
      → Ended (undo_install P b)
  unfolding undo_install
  undo_install-Ended b inst st own = ground arith

  pub create_semaphores_keeps :
      (b : Bus P)
      → ((create_semaphores P b).lifecycle ≡ b.lifecycle)
        × ((create_semaphores P b).frames ≡ b.frames)
        × ((create_semaphores P b).has_started_before ≡ b.has_started_before)
  unfolding create_semaphores
  create_semaphores_keeps b = ground arith

  open_driver-Ended : (c : Configuration) (b : Bus P) → Reserved b → Ended (open_driver P c b)
  unfolding open_driver undo_install launch undo_launch
  open_driver-Ended c b res = ground arith

  acquire-Ended : (c : Configuration) (b : Bus P) → Reserved b → Ended (acquire P c b)
  unfolding acquire
  acquire-Ended c b res =
      let keeps = create_semaphores_keeps b in
      let opened = open_driver-Ended c (drain_semaphores P (create_semaphores P b)) in
      ground (arith, keeps, opened)

  pub start_with_ownership_lem :
      (others : Bus P → Bus P) (c : Configuration) (b : Bus P)
      → Owned b
      → b.lifecycle.state ≡ stopped
      → let r = start_with_ownership P others c b in
        ((is_configuration_valid c ≡ true) × Ended r)
        ⊎ ((is_configuration_valid c ≡ false) × (r ≡ (b, outcome invalid_configuration false)))
  unfolding start_with_ownership
  start_with_ownership_lem others c b v st =
      let acquired = acquire-Ended c (record b { lifecycle = (begin_start b.lifecycle).0 }) in
      ground (arith, acquired)
