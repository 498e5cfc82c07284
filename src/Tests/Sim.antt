-- ===== src/Tests/Sim.antt =====
-- A platform to run the acquisition on: a world that scripts the driver's answers, counts the tokens
-- of the two semaphores and holds the messages that wait in the driver.
use esp32_vehicle_can_core.Prelude.{
  ℕ, ◌+◌, ◌-◌, refl, Bool, true, false, List, [], ◌∷◌, leb, ◌==◌, if◌then◌else◌,
}
use esp32_vehicle_can_core.CanBus.Types.{queue_capacity, Configuration}
use esp32_vehicle_can_core.CanBus.Ring.{fresh_ring}
use esp32_vehicle_can_core.CanBus.Ring.Invariant.{fresh_ring-Inv}
use esp32_vehicle_can_core.CanBus.Lifecycle.{new_controller}
use esp32_vehicle_can_core.CanBus.Platform.{
  Platform, EspErr, esp_ok, esp_timeout, Message, StatusInfo,
}
use esp32_vehicle_can_core.CanBus.Acquisition.{Bus}
use esp32_vehicle_can_core.CanBus.Acquisition.Starting.{Owned}

pub record Sim : Type 0 where
  pub starts : EspErr
  pub stops : EspErr
  pub uninstalls : EspErr
  pub tasks_created : Bool
  pub available : ℕ
  pub task_stopped : ℕ
  pub inbox : List Message
  pub status : StatusInfo
  pub is_bus_off : Bool
  pub now : ℕ

-- A semaphore holds no more tokens than its maximum.
abbrev clamp : ℕ → ℕ → ℕ
clamp most n = if leb most n then most else n

abbrev no_message : Message
no_message = record {
  identifier = 0;
  extd = false;
  rtr = false;
  data_length_code = 0;
  data_bytes = [];
}

abbrev receive : Sim → List Message → Sim × EspErr × Message
receive w [] = (w, esp_timeout, no_message)
receive w (m ∷ rest) = (record w { inbox = rest }, esp_ok, m)

abbrev pub sim : Platform
sim = record {
  World = Sim;
  driver_install = λ c w. (w, esp_ok);
  driver_start = λ w. (w, w.starts);
  driver_stop = λ w. (w, w.stops);
  driver_uninstall = λ w. (w, w.uninstalls);
  read_alerts = λ w. (w, esp_ok, w.is_bus_off);
  get_status_info = λ w. (w, esp_ok, w.status);
  driver_receive = λ w. receive w w.inbox;
  timer_us = λ w. (record w { now = w.now + 10 }, w.now);
  create_available = λ w. (record w { available = 0 }, true);
  create_task_stopped = λ w. (record w { task_stopped = 0 }, true);
  take_available = λ w.
      if clamp queue_capacity w.available == 0
      then (w, false)
      else (record w { available = clamp queue_capacity w.available - 1 }, true);
  take_task_stopped = λ w.
      if clamp 1 w.task_stopped == 0
      then (w, false)
      else (record w { task_stopped = clamp 1 w.task_stopped - 1 }, true);
  give_available = λ w. record w { available = w.available + 1 };
  give_task_stopped = λ w. record w { task_stopped = w.task_stopped + 1 };
  create_task = λ w. (w, w.tasks_created);
}

abbrev pub no_events : StatusInfo
no_events = record { bus_error_count = 0; rx_missed_count = 0; rx_overrun_count = 0 }

-- A world in which everything succeeds.
abbrev pub willing : Sim
willing = record {
  starts = esp_ok;
  stops = esp_ok;
  uninstalls = esp_ok;
  tasks_created = true;
  available = 0;
  task_stopped = 0;
  inbox = [];
  status = no_events;
  is_bus_off = false;
  now = 1000;
}

abbrev pub half_megabit : Configuration
half_megabit = record { bitrate_bps = 500000; bus_id = 1 }

-- The globals before the first start.
abbrev pub initial : Sim → Bus sim
initial w = record {
  world = w;
  frames = fresh_ring queue_capacity;
  has_available = false;
  has_receive_task = false;
  has_task_stopped = false;
  receive_requested = false;
  lifecycle = new_controller;
  bus_id = 0;
  has_started_before = false;
  last_driver_rx_missed = 0;
  last_driver_rx_overrun = 0;
  last_driver_bus_errors = 0;
}

pub initial-Owned : (w : Sim) → Owned sim (initial w)
initial-Owned w = record {
  clean = λ st. (refl, refl, refl);
  started_installed = λ h. h;
  task_installed = λ h. absurd cc;
  ring = fresh_ring-Inv queue_capacity;
}

-- No other task does anything.
abbrev pub alone : Bus sim → Bus sim
alone b = b
