-- ===== src/Baseline/Report.antt =====
-- tools/runtime_baseline/report.hpp: the table of the runs, a header and a row for each run. A cell
-- holds a text or a number; the commas between the cells are left out.
use Prim.Native.String.{String}
use package.text.Mathlib.Text.{◌==◌ as str_eq}
use esp32_vehicle_can_core.Prelude.{
  ℕ, ◌*◌, ◌/◌, Bool, Option, none, some, List, [], ◌∷◌, ◌++◌, ◌==◌, if◌then◌else◌, get_or, length,
  ◌≡◌, u64,
}
use esp32_vehicle_can_core.Baseline.Metrics.{Cost, frames}
use esp32_vehicle_can_core.Baseline.Fixture.{Platform, Scenario, Fixture}
use esp32_vehicle_can_core.Baseline.Residency.{TaskResidency, no_core}

pub data Cell : Type 0 where
  text : String → Cell
  number : ℕ → Cell

pub record Run : Type 0 where
  pub elapsed_us : ℕ
  pub stop_us : ℕ
  pub idle_calls : List ℕ
  pub maximum_idle_gap_us : List ℕ
  pub residency : TaskResidency
  pub watchdog_events : ℕ

abbrev pub header : List String
header =
    "record" ∷ "platform" ∷ "scenario" ∷ "repeat" ∷ "timing" ∷ "initial" ∷ "batch" ∷ "interval_us"
    ∷ "processor_work_us" ∷ "observer_work_us" ∷ "frame_limit" ∷ "run_us" ∷ "stop_us"
    ∷ "frames_per_second" ∷ "processed" ∷ "ignored" ∷ "malformed" ∷ "generated" ∷ "consumed"
    ∷ "dropped" ∷ "backlog" ∷ "max_backlog" ∷ "source_waits" ∷ "max_frames_between_waits"
    ∷ "max_checkpoint_wall_span_us" ∷ "receive_calls" ∷ "receive_total_us" ∷ "receive_max_us"
    ∷ "wait_calls" ∷ "wait_total_us" ∷ "wait_max_us" ∷ "process_calls" ∷ "process_total_us"
    ∷ "process_max_us" ∷ "frame_observer_calls" ∷ "frame_observer_total_us"
    ∷ "frame_observer_max_us" ∷ "diagnostic_calls" ∷ "diagnostic_total_us" ∷ "diagnostic_max_us"
    ∷ "diagnostic_processed" ∷ "diagnostic_ignored" ∷ "diagnostic_malformed" ∷ "running_core0"
    ∷ "running_core1" ∷ "affinity_core0" ∷ "affinity_core1" ∷ "idle0" ∷ "idle1" ∷ "max_idle_gap0_us"
    ∷ "max_idle_gap1_us" ∷ "scheduler_trace" ∷ "max_residency0_us" ∷ "max_residency1_us"
    ∷ "residency_segments0" ∷ "residency_segments1" ∷ "same_task_reselections0"
    ∷ "same_task_reselections1" ∷ "watchdog_events" ∷ []

abbrev flag : Bool → Cell
flag b = number (if b then 1 else 0)

-- The two elements of an array.
abbrev pair : List ℕ → List Cell
pair ns = number (get_or ns 0 0) ∷ number (get_or ns 1 0) ∷ []

abbrev cost : Cost → List Cell
cost c = number c.count ∷ number c.total_us ∷ number c.maximum_us ∷ []

unfoldable pub frames_per_second : ℕ → ℕ → ℕ
frames_per_second count elapsed_us =
    if elapsed_us == 0 then 0 else u64 (count * 1000000) / elapsed_us

-- A reader of the table: the cell below a column's name.
unfoldable pub cell_below : String → List String → List Cell → Option Cell
cell_below name [] row = none
cell_below name (column ∷ columns) [] = none
cell_below name (column ∷ columns) (cell ∷ row) =
    if str_eq column name then some cell else cell_below name columns row

module _ (P : Platform) where
  unfoldable pub print_run : String → Scenario → ℕ → Fixture P → Run → List Cell
  print_run platform scenario repeat fixture run =
      let m = fixture.metrics in
      let q = fixture.source.queue in
      let d = m.last_diagnostics in
      let core0 = get_or run.residency.cores 0 no_core in
      let core1 = get_or run.residency.cores 1 no_core in
      (text "baseline"
        ∷ text platform
        ∷ text scenario.name
        ∷ number repeat
        ∷ flag m.timing
        ∷ number scenario.initial_frames
        ∷ number scenario.arrival_batch
        ∷ number scenario.arrival_interval_us
        ∷ number scenario.processor_work_us
        ∷ number scenario.observer_work_us
        ∷ number scenario.frame_limit
        ∷ number run.elapsed_us
        ∷ number run.stop_us
        ∷ number (frames_per_second (frames m) run.elapsed_us)
        ∷ number m.processed
        ∷ number m.ignored
        ∷ number m.malformed
        ∷ number q.generated
        ∷ number q.consumed
        ∷ number q.dropped
        ∷ number q.size
        ∷ number q.maximum_backlog
        ∷ number m.source_waits
        ∷ number m.maximum_frames_between_waits
        ∷ number m.maximum_checkpoint_span_us
        ∷ [])
      ++ (cost m.receive_cost
          ++ (cost m.source_wait_cost
              ++ (cost m.processor_cost
                  ++ (cost m.frame_observer_cost
                      ++ (cost m.diagnostic_observer_cost
                          ++ ((number d.frames_processed
                                ∷ number d.frames_ignored
                                ∷ number d.frames_malformed
                                ∷ [])
                              ++ (pair m.running_core_after_float
                                  ++ (pair m.affinity_after_float
                                      ++ (pair run.idle_calls
                                          ++ (pair run.maximum_idle_gap_us
                                              ++ (flag run.residency.enabled
                                                  ∷ number core0.maximum_us
                                                  ∷ number core1.maximum_us
                                                  ∷ number core0.segments
                                                  ∷ number core1.segments
                                                  ∷ number core0.reselections
                                                  ∷ number core1.reselections
                                                  ∷ number run.watchdog_events
                                                  ∷ [])))))))))))

  -- A row has a cell for each column, and below each name stands the value of the run.
  abbrev pub Labels : String → Scenario → ℕ → Fixture P → Run → List Cell → Type 0
  Labels platform scenario repeat fixture run row =
      let m = fixture.metrics in
      let q = fixture.source.queue in
      let d = m.last_diagnostics in
      let core0 = get_or run.residency.cores 0 no_core in
      let core1 = get_or run.residency.cores 1 no_core in
      (length row ≡ length header)
      × (cell_below "record" header row ≡ some (text "baseline"))
      × (cell_below "platform" header row ≡ some (text platform))
      × (cell_below "scenario" header row ≡ some (text scenario.name))
      × (cell_below "repeat" header row ≡ some (number repeat))
      × (cell_below "timing" header row ≡ some (number (if m.timing then 1 else 0)))
      × (cell_below "initial" header row ≡ some (number scenario.initial_frames))
      × (cell_below "batch" header row ≡ some (number scenario.arrival_batch))
      × (cell_below "interval_us" header row ≡ some (number scenario.arrival_interval_us))
      × (cell_below "processor_work_us" header row ≡ some (number scenario.processor_work_us))
      × (cell_below "observer_work_us" header row ≡ some (number scenario.observer_work_us))
      × (cell_below "frame_limit" header row ≡ some (number scenario.frame_limit))
      × (cell_below "run_us" header row ≡ some (number run.elapsed_us))
      × (cell_below "stop_us" header row ≡ some (number run.stop_us))
      × (cell_below "frames_per_second" header row
          ≡ some (number (frames_per_second (frames m) run.elapsed_us)))
      × (cell_below "processed" header row ≡ some (number m.processed))
      × (cell_below "ignored" header row ≡ some (number m.ignored))
      × (cell_below "malformed" header row ≡ some (number m.malformed))
      × (cell_below "generated" header row ≡ some (number q.generated))
      × (cell_below "consumed" header row ≡ some (number q.consumed))
      × (cell_below "dropped" header row ≡ some (number q.dropped))
      × (cell_below "backlog" header row ≡ some (number q.size))
      × (cell_below "max_backlog" header row ≡ some (number q.maximum_backlog))
      × (cell_below "source_waits" header row ≡ some (number m.source_waits))
      × (cell_below "max_frames_between_waits" header row
          ≡ some (number m.maximum_frames_between_waits))
      × (cell_below "max_checkpoint_wall_span_us" header row
          ≡ some (number m.maximum_checkpoint_span_us))
      × (cell_below "receive_calls" header row ≡ some (number m.receive_cost.count))
      × (cell_below "receive_total_us" header row ≡ some (number m.receive_cost.total_us))
      × (cell_below "receive_max_us" header row ≡ some (number m.receive_cost.maximum_us))
      × (cell_below "wait_calls" header row ≡ some (number m.source_wait_cost.count))
      × (cell_below "wait_total_us" header row ≡ some (number m.source_wait_cost.total_us))
      × (cell_below "wait_max_us" header row ≡ some (number m.source_wait_cost.maximum_us))
      × (cell_below "process_calls" header row ≡ some (number m.processor_cost.count))
      × (cell_below "process_total_us" header row ≡ some (number m.processor_cost.total_us))
      × (cell_below "process_max_us" header row ≡ some (number m.processor_cost.maximum_us))
      × (cell_below "frame_observer_calls" header row ≡ some (number m.frame_observer_cost.count))
      × (cell_below "frame_observer_total_us" header row
          ≡ some (number m.frame_observer_cost.total_us))
      × (cell_below "frame_observer_max_us" header row
          ≡ some (number m.frame_observer_cost.maximum_us))
      × (cell_below "diagnostic_calls" header row ≡ some (number m.diagnostic_observer_cost.count))
      × (cell_below "diagnostic_total_us" header row
          ≡ some (number m.diagnostic_observer_cost.total_us))
      × (cell_below "diagnostic_max_us" header row
          ≡ some (number m.diagnostic_observer_cost.maximum_us))
      × (cell_below "diagnostic_processed" header row ≡ some (number d.frames_processed))
      × (cell_below "diagnostic_ignored" header row ≡ some (number d.frames_ignored))
      × (cell_below "diagnostic_malformed" header row ≡ some (number d.frames_malformed))
      × (cell_below "running_core0" header row
          ≡ some (number (get_or m.running_core_after_float 0 0)))
      × (cell_below "running_core1" header row
          ≡ some (number (get_or m.running_core_after_float 1 0)))
      × (cell_below "affinity_core0" header row ≡ some (number (get_or m.affinity_after_float 0 0)))
      × (cell_below "affinity_core1" header row ≡ some (number (get_or m.affinity_after_float 1 0)))
      × (cell_below "idle0" header row ≡ some (number (get_or run.idle_calls 0 0)))
      × (cell_below "idle1" header row ≡ some (number (get_or run.idle_calls 1 0)))
      × (cell_below "max_idle_gap0_us" header row
          ≡ some (number (get_or run.maximum_idle_gap_us 0 0)))
      × (cell_below "max_idle_gap1_us" header row
          ≡ some (number (get_or run.maximum_idle_gap_us 1 0)))
      × (cell_below "scheduler_trace" header row
          ≡ some (number (if run.residency.enabled then 1 else 0)))
      × (cell_below "max_residency0_us" header row ≡ some (number core0.maximum_us))
      × (cell_below "max_residency1_us" header row ≡ some (number core1.maximum_us))
      × (cell_below "residency_segments0" header row ≡ some (number core0.segments))
      × (cell_below "residency_segments1" header row ≡ some (number core1.segments))
      × (cell_below "same_task_reselections0" header row ≡ some (number core0.reselections))
      × (cell_below "same_task_reselections1" header row ≡ some (number core1.reselections))
      × (cell_below "watchdog_events" header row ≡ some (number run.watchdog_events))
