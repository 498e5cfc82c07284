-- ===== src/CanBus/Platform.antt =====
-- What components/can_bus/src/can_bus.cpp calls and this repository does not hold: the TWAI driver
-- (with the pins and the mode that the linked driver binding chose), the two FreeRTOS semaphores,
-- task creation and the timer. A call takes the world to the world after it and answers.
use esp32_vehicle_can_core.Prelude.{ℕ, ◌+◌, ◌≤◌, ◌≡◌, Bool, true, false, List}
use esp32_vehicle_can_core.CanBus.Types.{queue_capacity}

pub data EspErr : Type 0 where
  esp_ok esp_timeout esp_failure : EspErr

-- The TWAI_TIMING_CONFIG macros.
pub data TimingConfig : Type 0 where
  kbits_125 kbits_250 kbits_500 mbits_1 : TimingConfig

pub data Alert : Type 0 where
  bus_error rx_queue_full above_err_warn err_pass bus_off : Alert

pub record InstallConfig : Type 0 where
  pub rx_queue_len : ℕ
  pub alerts_enabled : List Alert
  pub timing : TimingConfig

-- twai_message_t, as far as it is read.
pub record Message : Type 0 where
  pub identifier : ℕ
  pub extd : Bool
  pub rtr : Bool
  pub data_length_code : ℕ
  pub data_bytes : List ℕ

-- twai_status_info_t, as far as it is read; uint32_t counters.
pub record StatusInfo : Type 0 where
  pub bus_error_count : ℕ
  pub rx_missed_count : ℕ
  pub rx_overrun_count : ℕ

pub record Platform : Type 1 where
  pub World : Type 0
  pub driver_install : InstallConfig → World → World × EspErr
  pub driver_start : World → World × EspErr
  pub driver_stop : World → World × EspErr
  pub driver_uninstall : World → World × EspErr
  -- The alert mask counts only where the answer is `esp_ok`; the flag is TWAI_ALERT_BUS_OFF in it.
  pub read_alerts : World → World × EspErr × Bool
  pub get_status_info : World → World × EspErr × StatusInfo
  pub driver_receive : World → World × EspErr × Message
  pub timer_us : World → World × ℕ
  pub create_available : World → World × Bool
  pub create_task_stopped : World → World × Bool
  -- xSemaphoreTake at the moment at which it is decided, and xSemaphoreGive.
  pub take_available : World → World × Bool
  pub take_task_stopped : World → World × Bool
  pub give_available : World → World
  pub give_task_stopped : World → World
  pub create_task : World → World × Bool

-- The documented behaviour of the semaphores on which the drain loops rely: a take succeeds exactly
-- while tokens are left and removes one, and there are at most as many as the semaphore was created
-- for; the two semaphores do not touch each other.
pub record Semaphores (P : Platform) : Type 0 where
  pub available_tokens : P.World → ℕ
  pub stopped_tokens : P.World → ℕ
  pub available_bound : (w : P.World) → available_tokens w ≤ queue_capacity
  pub stopped_bound : (w : P.World) → stopped_tokens w ≤ 1
  pub available_taken :
      (w : P.World)
      → (P.take_available w).1 ≡ true
      → available_tokens (P.take_available w).0 + 1 ≡ available_tokens w
  pub available_refused :
      (w : P.World)
      → (P.take_available w).1 ≡ false
      → (available_tokens w ≡ 0) × (available_tokens (P.take_available w).0 ≡ 0)
  pub stopped_taken :
      (w : P.World)
      → (P.take_task_stopped w).1 ≡ true
      → stopped_tokens (P.take_task_stopped w).0 + 1 ≡ stopped_tokens w
  pub stopped_refused :
      (w : P.World)
      → (P.take_task_stopped w).1 ≡ false
      → (stopped_tokens w ≡ 0) × (stopped_tokens (P.take_task_stopped w).0 ≡ 0)
  pub available_apart :
      (w : P.World) → available_tokens (P.take_task_stopped w).0 ≡ available_tokens w
