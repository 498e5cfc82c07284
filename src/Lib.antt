-- ===== src/Lib.antt =====
-- A model of the receive-only CAN core of this repository: frames and signals, the bounded
-- acquisition ring between two threads, the ownership of the TWAI driver and of its receive task,
-- and the telemetry runtime with its source and its fairness budget.
--
-- The parts and how they meet. components/can_bus owns one driver and one receive task. `start`
-- reserves the lifecycle controller, installs and starts the driver and creates the task; the task
-- moves frames from the driver into the ring and gives a semaphore; `receive` waits for that
-- semaphore and takes the oldest frame; `stop` releases task and driver and can be retried. A
-- `CanBusSource` of components/vehicle_telemetry is the runtime's view of that bus and remembers
-- whether it has to clean up. The `Runtime` starts such a source and a worker, which polls it, hands
-- frames to a processor and diagnostics to an observer, and pauses as its work budget says. The
-- frames and signals are those of components/vehicle_core. The baseline of tools/runtime_baseline runs
-- that runtime on a synthetic source and measures it, on the ESP32 together with
-- firmware/runtime-synthetic-baseline; firmware/tcan485-bench-ack-only drives the CAN bus itself, on
-- the pins of components/bench_can_ack; the sketches of examples/arduino start and stop a runtime.
--
-- Files, with the sources that they model:
-- - VehicleCore/Frame: components/vehicle_core/include/vehicle_core/frame.hpp and
--   components/vehicle_core/src/vehicle_core.cpp
-- - VehicleCore/Health: components/vehicle_core/include/vehicle_core/health.hpp and
--   components/vehicle_core/include/vehicle_core/telemetry_contracts.hpp
-- - VehicleCore/Signal: components/vehicle_core/include/vehicle_core/signal.hpp
-- - CanBus/Types: components/can_bus/include/can_bus/can_bus.h and
--   components/can_bus/private_include/can_bus/configuration.hpp
-- - CanBus/Fifo: the abstract bounded queue
-- - CanBus/Ring: components/can_bus/private_include/can_bus/frame_ring.hpp, one call at a time. Its
--   children Depth, Invariant, Window and Refine reason about single calls; Interleaving takes push
--   and pop apart into steps of one shared access each, and Order and Threads reason about those.
-- - CanBus/Lifecycle: components/can_bus/private_include/can_bus/lifecycle.hpp
-- - CanBus/Platform: what can_bus.cpp calls and the repository does not hold
-- - CanBus/Acquisition: components/can_bus/src/can_bus.cpp, the globals and the receive task, with
--   start_with_ownership and start in its child Start, and stop, receive and statistics in Stop; the
--   other children reason about them.
-- - Telemetry/Types: the value types of components/vehicle_telemetry/include/vehicle_telemetry, and
--   valid_config of components/vehicle_telemetry/src/runtime.cpp
-- - Telemetry/Budget: components/vehicle_telemetry/src/runtime_budget.hpp
-- - Telemetry/Source: components/vehicle_telemetry/src/can_bus_source.cpp
-- - Telemetry/Runtime: components/vehicle_telemetry/src/runtime.cpp, the state and what it reports,
--   with the attempts to stop the source in its child Cleanup, configure, start and stop in Control,
--   the worker in Loop and the destruction in Shutdown; the other children reason about them.
--   Looping is the induction over the worker's rounds, and Pausing counts the pauses among them.
-- - Baseline: tools/runtime_baseline/fixture.hpp in Queue, Metrics and Fixture, with its children
--   Source and Processing; tools/runtime_baseline/task_residency.hpp in Residency;
--   firmware/runtime-synthetic-baseline/main/trace.cpp in Residency/Trace;
--   tools/runtime_baseline/report.hpp in Report; and of
--   firmware/runtime-synthetic-baseline/main/main.cpp the platform and the scenarios in Firmware, the
--   idle hooks in Firmware/Idle, and the measurement of a run in Firmware/Measuring. Fixture/Composition puts
--   fixture and runtime together.
-- - Bench: components/bench_can_ack in Binding, and of firmware/tcan485-bench-ack-only/main
--   tcan485_bench_board.cpp in Board and main.cpp in App; the other children reason about them.
-- - Arduino: examples/arduino/ReceiveOnlyRuntime in Control and, its objects, in ReceiveOnly;
--   examples/arduino/RuntimeSyntheticHarness in Harness and, its waits, in Waiting; the other
--   children reason about them.
-- - Tests: concrete runs, and each theorem at a concrete input
-- A definition bears the name of the function that it models; a method takes its object as an
-- argument and returns it with the answer. A part of a long function is a definition of its own.
--
-- How the code is read. Numbers are natural numbers with the wrap of their word written out: indices
-- are the 32-bit size_t of the ESP32, statistics wrap at 2 ^ 64, driver counters at 2 ^ 32. Driver,
-- semaphores, task creation and timer are the fields of a record `Platform`, with a world that every
-- call may change; source, processor, observer and clocks of the runtime are those of a record
-- `Surroundings`. The baseline's clock, waits and floating point operations are the fields of its own
-- `Platform`, the bench's GPIO driver a function of the calls made so far, a sketch's board a record.
-- What other tasks do while a call waits is an argument `others`. A loop that
-- retries a compare-exchange takes the list of the values that the exchanges that fail find. Of the
-- runtime the code of ESP_PLATFORM is modelled; a section that a mutex guards is one step.
--
-- Fuel. `drain` runs one round more than the maximum of its semaphore, and every round takes a
-- token. `coherent_depth` needs one round more than there are incoherent samples before a coherent
-- one. `busy` needs one round more than it has microseconds, and `wait_for` of the harness sketch
-- three rounds more than its deadline has milliseconds. `receive_task`, `run_loop`,
-- `await_worker` and the loop of the bench's `app_main` run as long as nobody asks them to end; their
-- fuel counts the rounds that are looked at.
--
-- Not modelled: the host thread of the runtime; how long a wait lasts, of which only the answer and
-- what others do meanwhile count; the memory order of single accesses beyond the order
-- of the steps in Ring/Interleaving; what is logged and printed, but for the columns and values of
-- the baseline's report and the bench's summaries; the loops of the baseline's app_main over its
-- scenarios, and its host program; the checks that the harness sketch runs; the tests.
pub mod Prelude
pub mod VehicleCore
pub mod CanBus
pub mod Telemetry
pub mod Baseline
pub mod Bench
pub mod Arduino
pub mod Tests
