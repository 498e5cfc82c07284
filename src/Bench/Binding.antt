-- ===== src/Bench/Binding.antt =====
-- components/bench_can_ack: the pins, and the driver binding that the bench firmware links. The
-- general configuration of the TWAI driver is modelled by the fields that the binding chooses and
-- those that TWAI_GENERAL_CONFIG_DEFAULT documents.
use esp32_vehicle_can_core.Prelude.{ℕ}

pub record CanPins : Type 0 where
  pub tx : ℕ
  pub rx : ℕ

abbrev pub can_pins : CanPins
can_pins = record { tx = 27; rx = 26 }

pub data TwaiMode : Type 0 where
  normal no_ack listen_only : TwaiMode

pub record GeneralConfig : Type 0 where
  pub mode : TwaiMode
  pub tx_io : ℕ
  pub rx_io : ℕ
  pub tx_queue_len : ℕ
  pub rx_queue_len : ℕ

-- The default macro of the driver is an argument, from its pins and mode.
unfoldable pub configure_driver : (ℕ → ℕ → TwaiMode → GeneralConfig) → GeneralConfig → GeneralConfig
configure_driver general_config_default configuration =
    record (general_config_default can_pins.tx can_pins.rx normal) { tx_queue_len = 0 }
