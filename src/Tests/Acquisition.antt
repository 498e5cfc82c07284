-- ===== src/Tests/Acquisition.antt =====
-- The acquisition on the platform of Tests/Sim.
use esp32_vehicle_can_core.Prelude.{
  ℕ, zero, suc, ◌+◌, ◌-◌, ◌^◌, ◌≡◌, ◌≢◌, refl, ◌⊎◌, true, false, [], ◌∷◌, arith, replicate,
}
use esp32_vehicle_can_core.CanBus.Types.{ok, running, faulted, no_counts, queue_capacity}
use esp32_vehicle_can_core.CanBus.Ring.{clear, fresh_ring}
use esp32_vehicle_can_core.CanBus.Ring.Window.{contents}
use esp32_vehicle_can_core.CanBus.Lifecycle.{LifecycleController, begin_start, begin_stop}
use esp32_vehicle_can_core.CanBus.Platform.{Platform, esp_ok, Message}
use esp32_vehicle_can_core.CanBus.Acquisition.{Bus, receive_round, collect_driver_status}
use esp32_vehicle_can_core.CanBus.Acquisition.Start.{
  drain, drain_semaphores, create_semaphores, acquire, open_driver, launch, prepare_run,
  start_with_ownership,
}
use esp32_vehicle_can_core.CanBus.Acquisition.Stop.{stop_driver, stop, receive}
use esp32_vehicle_can_core.CanBus.Acquisition.Starting.{Owned}
use esp32_vehicle_can_core.CanBus.Acquisition.Interval.{start_opens_interval}
use esp32_vehicle_can_core.CanBus.Acquisition.Stopping.{stop_succeeds}
use esp32_vehicle_can_core.CanBus.Acquisition.Counting.{Counts, collect_driver_status-Counts}
use esp32_vehicle_can_core.CanBus.Acquisition.Task.{
  Part, receive_round-Part, task_steps, task_steps-IsTaskLike,
}
use esp32_vehicle_can_core.CanBus.Acquisition.Ending.{EndsBy, receive_task_ends}
use esp32_vehicle_can_core.CanBus.Acquisition.Receiving.{Received, receive_lem}
use esp32_vehicle_can_core.Tests.Frames.{capacity-IsFit}
use esp32_vehicle_can_core.Tests.Sim.{
  Sim, sim, willing, half_megabit, initial, initial-Owned, alone, no_events,
}

-- The lifecycle.
abbrev active : LifecycleController
active = record {
  state = running;
  driver_installed = true;
  driver_started = true;
  task_owned = true;
}

abbrev begun : Bus sim
begun = (start_with_ownership sim alone half_megabit (initial willing)).0

f_begun : (start_with_ownership sim alone half_megabit (initial willing)).1.result ≡ ok
unfolding start_with_ownership acquire create_semaphores drain_semaphores drain open_driver launch
    prepare_run begin_start clear
f_begun = refl

start_opens_interval_example :
    (contents queue_capacity begun.frames ≡ [])
    × (begun.frames.counters ≡ record no_counts { controller_resets = 0 })
    × (begun.frames.queue_high_watermark ≡ 0)
start_opens_interval_example =
    start_opens_interval sim alone half_megabit (initial willing) (initial-Owned willing) refl
      f_begun

-- A running acquisition.
abbrev pub live : Sim → Bus sim
live w = record (initial w) {
  has_available = true;
  has_receive_task = true;
  has_task_stopped = true;
  receive_requested = true;
  lifecycle = active;
}

pub live-Owned : (w : Sim) → Owned sim (live w)
live-Owned w = record {
  clean = λ st. absurd cc;
  started_installed = λ h. refl;
  task_installed = λ h. refl;
  ring = (initial-Owned w).ring;
}

abbrev ping : Message
ping = record {
  identifier = 0x123;
  extd = false;
  rtr = false;
  data_length_code = 8;
  data_bytes = replicate 8 1;
}

abbrev sending : Sim
sending = record willing { inbox = ping ∷ [] }

-- A platform whose driver always uninstalls.
abbrev pub sound : Platform
sound = record sim { driver_uninstall = λ w. (w, esp_ok) }

-- The task has signalled its end, and only the driver is left.
abbrev pub left_over : Bus sound
left_over = record {
  world = record willing { task_stopped = 1 };
  frames = fresh_ring queue_capacity;
  has_available = true;
  has_receive_task = true;
  has_task_stopped = true;
  receive_requested = false;
  lifecycle = record active { state = faulted };
  bus_id = 0;
  has_started_before = true;
  last_driver_rx_missed = 0;
  last_driver_rx_overrun = 0;
  last_driver_bus_errors = 0;
}

stop_succeeds_example : (stop sound (λ b. b) left_over).1 ≡ ok
unfolding stop_driver begin_stop
stop_succeeds_example =
    stop_succeeds sound (λ b. b) left_over (λ e. cc) refl (λ h. refl) (λ w. refl)

-- The driver's count of bus errors wraps from 2 ^ 32 - 1 to 2.
abbrev before_wrap : Bus sim
before_wrap = record (live (record willing { status = record no_events { bus_error_count = 2 } })) {
  frames = record (fresh_ring queue_capacity) {
    counters = record no_counts { bus_errors = 2 ^ 32 - 1 };
  };
  last_driver_bus_errors = 2 ^ 32 - 1;
}

before_wrap-Counts : Counts sim 0 0 (2 ^ 32 - 1) 0 0 before_wrap
unfolding fresh_ring
before_wrap-Counts = record {
  last_errors = refl;
  last_missed = refl;
  last_overrun = refl;
  errors = refl;
  missed = refl;
}

collect_driver_status-Counts_example :
    let (b', counted) = collect_driver_status sim before_wrap in
    ((esp_ok ≡ esp_ok) × (counted ≡ true) × Counts sim 0 0 (2 ^ 32 + 2) 0 0 b')
    ⊎ ((esp_ok ≢ esp_ok)
        × (counted ≡ false)
        × (b'.receive_requested ≡ false)
        × (b'.frames ≡ before_wrap.frames))
collect_driver_status-Counts_example =
    collect_driver_status-Counts sim 0 0 (2 ^ 32 - 1) 0 0 (2 ^ 32 + 2) 0 0 before_wrap
      before_wrap-Counts (omega arith) (omega arith) (omega arith) (omega arith) (omega arith)
      (omega arith) refl

receive_round-Part_example : Part sim (live sending) (receive_round sim (live sending))
receive_round-Part_example = receive_round-Part sim (live sending)

-- Another task asks the task to end at its fourth test.
abbrev asks : ℕ → Bus sim → Bus sim
asks zero b = record b { receive_requested = false }
asks (suc n) b = b

receive_task_ends_example : EndsBy sim asks 4 (live sending)
receive_task_ends_example = receive_task_ends sim asks 3 (live sending) (λ b. refl)

-- The task delivers a frame while a receive waits.
receive_lem_example :
    Received sim (task_steps sim 1) (live sending) (receive sim (task_steps sim 1) (live sending))
receive_lem_example =
    receive_lem sim (task_steps sim 1) (live sending) capacity-IsFit
      ((task_steps-IsTaskLike sim 1).ring_kept (live sending) (live-Owned sending).ring)
