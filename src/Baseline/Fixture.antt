-- ===== src/Baseline/Fixture.antt =====
-- tools/runtime_baseline/fixture.hpp: the synthetic source, processor and observer over one record
-- of metrics. The platform, with the single-precision arithmetic, is a parameter. The source's
-- methods `start` to `statistics` are in the child Source, the rest in the child Processing.
pub mod Source
pub mod Processing
pub mod Receiving
pub mod Composition
pub mod Conservation
pub mod Running
use Prim.Native.String.{String}
use esp32_vehicle_can_core.Prelude.{ℕ, Bool, true, false, List, [], ◌∷◌}
use esp32_vehicle_can_core.Baseline.Queue.{Queue, empty_queue}
use esp32_vehicle_can_core.Baseline.Metrics.{Metrics, no_metrics}

-- What Platform declares, and the arithmetic of the checksum: `half` is 0.5F, and `blend c n` is
-- c * 0.99F + n * 0.001F. A wait also tells whether another task called `stop` meanwhile.
pub record Platform : Type 1 where
  pub World : Type 0
  pub now : World → World × ℕ
  pub busy : ℕ → World → World
  pub wait : ℕ → Bool → World → World × Bool
  pub wake : World → World
  pub after_float : List ℕ → List ℕ → World → World × List ℕ × List ℕ
  pub Float : Type 0
  pub half : Float
  pub blend : Float → ℕ → Float

pub record Scenario : Type 0 where
  pub name : String
  pub initial_frames : ℕ
  pub arrival_batch : ℕ
  pub arrival_interval_us : ℕ
  pub processor_work_us : ℕ
  pub observer_work_us : ℕ
  pub frame_limit : ℕ
  pub mixed : Bool

abbrev pub scenarios : List Scenario
scenarios =
    record {
      name = "ready";
      initial_frames = 1;
      arrival_batch = 1;
      arrival_interval_us = 0;
      processor_work_us = 10;
      observer_work_us = 0;
      frame_limit = 0xFFFFFFFF;
      mixed = false;
    }
    ∷ record {
      name = "mixed";
      initial_frames = 1;
      arrival_batch = 1;
      arrival_interval_us = 0;
      processor_work_us = 10;
      observer_work_us = 0;
      frame_limit = 0xFFFFFFFF;
      mixed = true;
    }
    ∷ record {
      name = "burst";
      initial_frames = 64;
      arrival_batch = 64;
      arrival_interval_us = 1000;
      processor_work_us = 10;
      observer_work_us = 0;
      frame_limit = 0xFFFFFFFF;
      mixed = true;
    }
    ∷ record {
      name = "slow_observer";
      initial_frames = 64;
      arrival_batch = 64;
      arrival_interval_us = 1000;
      processor_work_us = 10;
      observer_work_us = 200;
      frame_limit = 0xFFFFFFFF;
      mixed = false;
    }
    ∷ record {
      name = "cancel_wait";
      initial_frames = 0;
      arrival_batch = 0;
      arrival_interval_us = 0;
      processor_work_us = 0;
      observer_work_us = 0;
      frame_limit = 0xFFFFFFFF;
      mixed = false;
    }
    ∷ []

pub record SourceState : Type 0 where
  pub queue : Queue
  pub cancelled : Bool
  pub generated : ℕ
  pub dropped : ℕ
  pub arrivals_at_us : ℕ

pub record Fixture (P : Platform) : Type 0 where
  pub world : P.World
  pub config : Scenario
  pub metrics : Metrics
  pub source : SourceState
  pub checksum : P.Float

module _ (P : Platform) where
  unfoldable pub new_fixture : P.World → Scenario → Bool → Fixture P
  new_fixture w config timing = record {
    world = w;
    config = config;
    metrics = no_metrics timing;
    source = record {
      queue = empty_queue;
      cancelled = false;
      generated = 0;
      dropped = 0;
      arrivals_at_us = 0;
    };
    checksum = P.half;
  }

  abbrev pub read_now : Fixture P → Fixture P × ℕ
  read_now f = let (w, now) = P.now f.world in (record f { world = w }, now)
