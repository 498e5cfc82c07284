-- ===== src/Baseline/Residency/Measuring.antt =====
-- A measurement of firmware/runtime-synthetic-baseline/main/trace.cpp, from baseline_trace_begin to
-- baseline_trace_end.
use esp32_vehicle_can_core.Prelude.{
  ℕ, zero, suc, ◌<◌, ◌≡◌, ◌≢◌, refl, sym, ◌∙◌, Bool, true, false, ◌&&◌, List, [], ◌∷◌, ◌++◌, arith,
  ◌==◌, if◌then◌else◌, get_or, length, set,
}
use mathlib.Core.Path.{subst}
use esp32_vehicle_can_core.Baseline.Residency.{
  no_core, TaskResidency, no_residency, close, select_core, select,
}
use esp32_vehicle_can_core.Baseline.Residency.Segments.{
  Switch, switched, switch_all, stays, InPhase, Measured, switch_all-Measured,
}
use esp32_vehicle_can_core.Baseline.Residency.Trace.{
  Trace, baseline_trace_begin, baseline_trace_end, switch_context,
}

-- The switches of both cores in turn; whether the task selected is named as the worker is a part of
-- each.
unfoldable pub trace_all : (ℕ → ℕ) → List Switch → Trace → Trace
trace_all current [] t = t
trace_all current (s ∷ later) t =
    trace_all (switched current s) later
      (switch_context (λ task. s.named) s.cpu (current s.cpu) s.task s.at t)

abbrev pub Unnamed : List Switch → Type 0
Unnamed [] = Unit {0}
Unnamed (s ∷ later) = (s.named ≡ false) × Unnamed later

-- The tasks that are selected after some switches.
unfoldable pub after_all : (ℕ → ℕ) → List Switch → ℕ → ℕ
after_all current [] = current
after_all current (s ∷ later) = after_all (switched current s) later

select-known :
    (cpu old new at : ℕ) (named : Bool) (t : TaskResidency)
    → select cpu old new at (t.worker == 0 && named) t ≡ select cpu old new at named t
unfolding select
select-known cpu old new at named t = ground arith

trace_all-switch_all :
    (current : ℕ → ℕ) (events : List Switch) (t : Trace)
    → t.measuring ≡ true
    → (trace_all current events t).residency ≡ switch_all current events t.residency
unfolding trace_all switch_all switch_context
trace_all-switch_all current [] t m = refl
trace_all-switch_all current (s ∷ later) t m = ground (
  arith,
  select-known s.cpu (current s.cpu) s.task s.at s.named t.residency,
  trace_all-switch_all (switched current s) later
      (switch_context (λ task. s.named) s.cpu (current s.cpu) s.task s.at t),
)

abbrev begun : Bool → TaskResidency
begun enabled = record no_residency { enabled = enabled }

set_fresh : (cpu : ℕ) → set (no_core ∷ no_core ∷ []) cpu no_core ≡ no_core ∷ no_core ∷ []
set_fresh zero = refl
set_fresh (suc zero) = refl
set_fresh (suc (suc cpu)) = refl

fresh_core : (cpu : ℕ) → get_or (no_core ∷ no_core ∷ []) cpu no_core ≡ no_core
fresh_core zero = refl
fresh_core (suc zero) = refl
fresh_core (suc (suc cpu)) = refl

-- While no worker is known, a switch that names none is not recorded.
select-begun :
    (enabled : Bool) (cpu old new at : ℕ)
    → select cpu old new at false (begun enabled) ≡ begun enabled
unfolding select select_core close
select-begun enabled cpu old new at = ground (arith, set_fresh cpu, fresh_core cpu)

switch_all-Unnamed :
    (enabled : Bool) (current : ℕ → ℕ) (before later : List Switch)
    → Unnamed before
    → switch_all current (before ++ later) (begun enabled)
      ≡ switch_all (after_all current before) later (begun enabled)
unfolding switch_all after_all
switch_all-Unnamed enabled current [] later u = refl
switch_all-Unnamed enabled current (s ∷ before) later (u, us) =
    rw (u, select-begun enabled s.cpu (current s.cpu) s.task s.at)
      (switch_all-Unnamed enabled (switched current s) before later us)

-- The first switch to the worker: its core is in the first stay, and the other core knows of none.
abbrev FirstSelected : ℕ → ℕ → ℕ → ℕ → ℕ → TaskResidency → Type 0
FirstSelected c cpu task other at t =
    (t.worker ≡ task)
    × (length t.cores ≡ 2)
    × ((get_or t.cores c no_core).segments ≡ 0)
    × ((get_or t.cores c no_core).maximum_us ≡ 0)
    × InPhase task (if cpu == c then task else other) at (get_or t.cores c no_core)

select_first :
    (c cpu old task other at : ℕ)
    → task ≢ 0
    → cpu < 2
    → c < 2
    → old ≢ task
    → other ≢ task
    → FirstSelected c cpu task other at (select cpu old task at true (begun true))
unfolding select select_core close
select_first zero zero old task other at e p q o1 o2 = ground arith
select_first zero (suc zero) old task other at e p q o1 o2 = ground arith
select_first (suc zero) zero old task other at e p q o1 o2 = ground arith
select_first (suc zero) (suc zero) old task other at e p q o1 o2 = ground arith
select_first c (suc (suc n)) old task other at e p q o1 o2 = absurd (omega arith)
select_first (suc (suc n)) cpu old task other at e p q o1 o2 = absurd (omega arith)

-- A measurement with the scheduler's wrapper: switches to tasks without the worker's name leave
-- nothing, and from the first task that has it on, if no core has that task selected before then,
-- each core ends with the number and the longest of the worker's stays there.
pub trace_measures :
    (current : ℕ → ℕ) (before later : List Switch) (first : Switch) (end c : ℕ) (t : Trace)
    → Unnamed before
    → first.named ≡ true
    → first.task ≢ 0
    → first.cpu < 2
    → c < 2
    → ((k : ℕ) → after_all current before k ≢ first.task)
    → Measured no_core
        (stays first.task c (switched (after_all current before) first) first.at later end)
        (get_or
          (baseline_trace_end end
            (trace_all current (before ++ (first ∷ later)) (baseline_trace_begin true t))).1.cores
          c
          no_core)
unfolding baseline_trace_begin baseline_trace_end switch_all
trace_measures current before later first end c t unnamed named exists cpu small elsewhere =
    let now : ℕ → ℕ = after_all current before in
    let t1 : TaskResidency =
      select first.cpu (now first.cpu) first.task first.at first.named (begun true) in
    let begins : FirstSelected c first.cpu first.task (now c) first.at t1 =
      subst
        (λ b.
          FirstSelected c first.cpu first.task (now c) first.at
            (select first.cpu (now first.cpu) first.task first.at b (begun true)))
        (sym named)
        (select_first c first.cpu (now first.cpu) first.task (now c) first.at exists cpu small
          (elsewhere first.cpu) (elsewhere c)) in
    let (known, two, none_before, none_yet, phase) = begins in
    let measured =
      switch_all-Measured first.task c (switched now first) first.at end later t1 exists known two
        small phase in
    let same =
      trace_all-switch_all current (before ++ (first ∷ later)) (baseline_trace_begin true t) refl
      ∙ switch_all-Unnamed true current before (first ∷ later) unnamed in
    rw same (ground (arith, measured, none_before, none_yet))
