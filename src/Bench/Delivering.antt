-- ===== src/Bench/Delivering.antt =====
-- What the calls of app_main of firmware/tcan485-bench-ack-only/main/main.cpp do to the number of
-- frames that the bus has delivered.
use mathlib.Core.Path.{subst}
use esp32_vehicle_can_core.Prelude.{
  ℕ, ◌+◌, ◌≡◌, ◌≢◌, ◌⊎◌, inl, inr, refl, ◌∙◌, Bool, ◌&&◌, Option, none, some, arith, ◌==◌, if_elim,
  u64,
}
use esp32_vehicle_can_core.VehicleCore.Frame.{RawCanFrame}
use esp32_vehicle_can_core.CanBus.Types.{Result, LifecycleState}
use esp32_vehicle_can_core.CanBus.Ring.{FrameRing, pop}
use esp32_vehicle_can_core.CanBus.Platform.{Platform}
use esp32_vehicle_can_core.CanBus.Acquisition.{Bus}
use esp32_vehicle_can_core.CanBus.Acquisition.Stop.{
  stop, release, stop_driver, join_task, uninstall_driver, drain_available_if_any, receive, woken,
  pop_frame, ended, unless_ended, or_else, pop_result,
}
use esp32_vehicle_can_core.CanBus.Lifecycle.{begin_stop, reconcile}
use esp32_vehicle_can_core.Bench.App.{next_frame, verdict, Scheduler}

module _ (P : Platform) (S : Scheduler P) where
  abbrev pub delivered : Bus P → ℕ
  delivered b = b.frames.counters.frames_delivered

  -- What other tasks leave alone while app_main waits.
  abbrev pub LeavesDelivered : Type 0
  LeavesDelivered = (b : Bus P) → delivered (S.others b) ≡ delivered b

  -- A receive delivers a frame exactly if it answers `ok`.
  abbrev pub Delivers : ℕ → Bus P × Result × Option RawCanFrame → Type 0
  Delivers n (b, result, frame) =
      ((verdict result ≡ next_frame) × (delivered b ≡ u64 (n + 1)))
      ⊎ ((verdict result ≢ next_frame) × (delivered b ≡ n))

  pop_frame-Delivers : (b : Bus P) → Delivers (delivered b) (pop_frame P b)
  unfolding pop_frame pop verdict
  pop_frame-Delivers b =
      if_elim
        (λ (p : FrameRing × Option RawCanFrame).
          Delivers (delivered b) (record b { frames = p.0 }, pop_result p.1, p.1))
        (b.frames.tail == b.frames.head) (inr ((λ e. cc), refl)) (inl (refl, refl))

  ended-refuses : (k : LifecycleState) (r : Result) → ended k ≡ some r → verdict r ≢ next_frame
  unfolding verdict
  ended-refuses LifecycleState.stopped r e v = ground arith
  ended-refuses LifecycleState.stopping r e v = ground arith
  ended-refuses LifecycleState.faulted r e v = ground arith
  ended-refuses LifecycleState.running r e v = absurd cc

  unless_ended-Delivers :
      (n : ℕ) (e : Option Result) (b : Bus P) (next : Bus P × Result × Option RawCanFrame)
      → ((r : Result) → e ≡ some r → verdict r ≢ next_frame)
      → delivered b ≡ n
      → Delivers n next
      → Delivers n (unless_ended P e b next)
  unless_ended-Delivers n none b next refuses same h = h
  unless_ended-Delivers n (some r) b next refuses same h = inr (refuses r refl, same)

  timed_out-refuses : (k : LifecycleState) → verdict (or_else (ended k) Result.timeout) ≢ next_frame
  unfolding verdict
  timed_out-refuses LifecycleState.stopped v = cc
  timed_out-refuses LifecycleState.stopping v = cc
  timed_out-refuses LifecycleState.faulted v = cc
  timed_out-refuses LifecycleState.running v = cc

  woken-Delivers : (b : Bus P) (taken : Bool) → Delivers (delivered b) (woken P b taken)
  unfolding woken
  woken-Delivers b taken =
      if_elim (Delivers (delivered b)) taken
        (unless_ended-Delivers (delivered b) (ended b.lifecycle.state) b (pop_frame P b)
          (ended-refuses b.lifecycle.state) refl (pop_frame-Delivers b))
        (inr (timed_out-refuses b.lifecycle.state, refl))

  pub receive-Delivers :
      (b : Bus P) → LeavesDelivered → Delivers (delivered b) (receive P S.others b)
  unfolding receive
  receive-Delivers b leaves =
      let b' : Bus P = S.others b in
      let (w, taken) = P.take_available b'.world in
      unless_ended-Delivers (delivered b) (ended b.lifecycle.state) b
        (woken P (record b' { world = w }) taken) (ended-refuses b.lifecycle.state) refl
        (subst (λ n. Delivers n (woken P (record b' { world = w }) taken)) (leaves b)
          (woken-Delivers (record b' { world = w }) taken))

  -- A stop delivers nothing.
  stop_driver-delivered : (b : Bus P) → delivered (stop_driver P b).0 ≡ delivered b
  unfolding stop_driver
  stop_driver-delivered b = ground arith

  join_task-delivered :
      (b : Bus P) → LeavesDelivered → delivered (join_task P S.others b).0 ≡ delivered b
  unfolding join_task
  join_task-delivered b leaves = ground (arith, leaves b)

  uninstall_driver-delivered :
      (d t : Bool) (b : Bus P) → delivered (uninstall_driver P d t b).0 ≡ delivered b
  unfolding uninstall_driver
  uninstall_driver-delivered d t b = ground arith

  drain_available-delivered : (b : Bus P) → delivered (drain_available_if_any P b) ≡ delivered b
  unfolding drain_available_if_any
  drain_available-delivered b = ground arith

  release-delivered :
      (b : Bus P) → LeavesDelivered → delivered (release P S.others b).0 ≡ delivered b
  unfolding release
  release-delivered b leaves =
      let (b1, d) = stop_driver P b in
      let (b2, t) = join_task P S.others b1 in
      let (b3, u) = uninstall_driver P d t b2 in
      let b4 : Bus P = record b3 { lifecycle = reconcile b3.lifecycle } in
      let kept : delivered b3 ≡ delivered b =
        uninstall_driver-delivered d t b2
        ∙ join_task-delivered b1 leaves
        ∙ stop_driver-delivered b in
      if_elim (λ (p : Bus P × Result). delivered p.0 ≡ delivered b) (d && t && u)
        (drain_available-delivered b4 ∙ kept) kept

  pub stop-delivered : (b : Bus P) → LeavesDelivered → delivered (stop P S.others b).0 ≡ delivered b
  unfolding stop
  stop-delivered b leaves =
      if_elim (λ (p : Bus P × Result). delivered p.0 ≡ delivered b) (begin_stop b.lifecycle).1
        (release-delivered _ leaves) refl
