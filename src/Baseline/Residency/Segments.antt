-- ===== src/Baseline/Residency/Segments.antt =====
-- What tools/runtime_baseline/task_residency.hpp measures: the stays of the worker on each core.
use mathlib.Core.Path.{subst}
use mathlib.Core.List.{map}
use esp32_vehicle_can_core.Prelude.{
  ℕ, zero, suc, ◌+◌, ◌<◌, ◌≡◌, ◌≢◌, ◌^◌, refl, sym, inl, inr, Bool, true, false, not, ◌&&◌, List,
  [], ◌∷◌, arith, Bool-cases, ltb, ◌==◌, if◌then◌else◌, length, length-set, get_or, get_or-set_self,
  get_or-set_ne, u64,
}
use esp32_vehicle_can_core.Baseline.Residency.{
  Core, no_core, duration, close, TaskResidency, select_core, select, finish,
}

-- A context switch on a core: the task selected, when, and whether its name is the worker's.
pub record Switch : Type 0 where
  pub cpu : ℕ
  pub task : ℕ
  pub at : ℕ
  pub named : Bool

-- `current c` is the task on core `c`, from which the next switch there comes.
abbrev pub switched : (ℕ → ℕ) → Switch → ℕ → ℕ
switched current s c = if s.cpu == c then s.task else current c

unfoldable pub switch_all : (ℕ → ℕ) → List Switch → TaskResidency → TaskResidency
switch_all current [] t = t
switch_all current (s ∷ later) t =
    switch_all (switched current s) later (select s.cpu (current s.cpu) s.task s.at s.named t)

-- The reference: the lengths of the worker's stays on core `c`, from the selection of the worker
-- there to the next selection of another task, or to the end.
unfoldable pub stays : ℕ → ℕ → (ℕ → ℕ) → ℕ → List Switch → ℕ → List ℕ
stays worker c current since [] end = if current c == worker then duration since end ∷ [] else []
stays worker c current since (s ∷ later) end =
    let moved = s.cpu == c && not (s.task == current c) in
    let next = stays worker c (switched current s) (if moved then s.at else since) later end in
    if moved && current c == worker then duration since s.at ∷ next else next

unfoldable pub largest : ℕ → List ℕ → ℕ
largest n [] = n
largest n (m ∷ ms) = largest (if ltb n m then m else n) ms

-- The core's record knows of the stay that has begun.
abbrev pub InPhase : ℕ → ℕ → ℕ → Core → Type 0
InPhase worker task since core =
    (core.active ≡ (task == worker))
    × (task ≡ worker → core.started_us ≡ since)
    × (core.segments < 2 ^ 64)

-- Once the switches on it are over, the core has counted the stays and holds the longest.
abbrev pub Measured : Core → List ℕ → Core → Type 0
Measured before lengths after =
    (after.segments ≡ u64 (before.segments + length lengths))
    × (after.maximum_us ≡ largest before.maximum_us lengths)

get_or-map-close :
    (now : ℕ) (cores : List Core) (c : ℕ)
    → get_or (map (close now) cores) c no_core ≡ close now (get_or cores c no_core)
unfolding close
get_or-map-close now [] c = refl
get_or-map-close now (core ∷ cores) zero = refl
get_or-map-close now (core ∷ cores) (suc c) = get_or-map-close now cores c

close_measures :
    (worker task since end : ℕ) (core : Core)
    → InPhase worker task since core
    → Measured core (if task == worker then duration since end ∷ [] else []) (close end core)
unfolding close largest
close_measures worker task since end core phase = ground arith

-- A switch of the core from `old` to `new`.
select_core-InPhase :
    (worker old new at since : ℕ) (core : Core)
    → worker ≢ 0
    → InPhase worker old since core
    → InPhase worker new
        (if not (new == old) then at else since)
        (select_core worker old new at core)
unfolding select_core
select_core-InPhase worker old new at since core known phase = ground arith

select_core-Measured :
    (worker old new at since : ℕ) (core after : Core) (later : List ℕ)
    → worker ≢ 0
    → InPhase worker old since core
    → Measured (select_core worker old new at core) later after
    → Measured core
        (if not (new == old) && old == worker then duration since at ∷ later else later)
        after
unfolding select_core largest
select_core-Measured worker old new at since core after later known phase m = ground arith

-- The core of a switch takes it, and the other core does not.
pub get_or-select :
    (worker c : ℕ) (current : ℕ → ℕ) (s : Switch) (t : TaskResidency)
    → worker ≢ 0
    → t.worker ≡ worker
    → length t.cores ≡ 2
    → c < 2
    → let t1 = select s.cpu (current s.cpu) s.task s.at s.named t in
      let core = get_or t.cores c no_core in
      (t1.worker ≡ worker)
      × (length t1.cores ≡ 2)
      × (get_or t1.cores c no_core
          ≡ (if s.cpu == c then select_core worker (current c) s.task s.at core else core))
unfolding select
get_or-select worker c current s t known same two small = elim (Bool-cases (s.cpu == c)) [
  | inl e ↦
      let here : s.cpu ≡ c = ground arith in
      let kept : (if s.named && t.worker == 0 then s.task else t.worker) ≡ worker = ground arith in
      let after : Core = select_core worker (current c) s.task s.at (get_or t.cores c no_core) in
      ground
        (arith, here, kept, length-set t.cores c after, get_or-set_self t.cores c after no_core)
  | inr e ↦
      let apart : s.cpu ≢ c = ground arith in
      let kept : (if s.named && t.worker == 0 then s.task else t.worker) ≡ worker = ground arith in
      let other : Core =
        select_core worker (current s.cpu) s.task s.at (get_or t.cores s.cpu no_core) in
      ground
        (arith, kept, length-set t.cores s.cpu other, get_or-set_ne t.cores other no_core apart)
]

-- The same, for a core that takes the switch or does not.
step-InPhase :
    (worker old new at since : ℕ) (b : Bool) (core : Core)
    → worker ≢ 0
    → InPhase worker old since core
    → InPhase worker
        (if b then new else old)
        (if b && not (new == old) then at else since)
        (if b then select_core worker old new at core else core)
step-InPhase worker old new at since true core known phase =
    select_core-InPhase worker old new at since core known phase
step-InPhase worker old new at since false core known phase = phase

step-Measured :
    (worker old new at since : ℕ) (b : Bool) (core after : Core) (later : List ℕ)
    → worker ≢ 0
    → InPhase worker old since core
    → Measured (if b then select_core worker old new at core else core) later after
    → Measured core
        (if (b && not (new == old)) && old == worker then duration since at ∷ later else later)
        after
step-Measured worker old new at since true core after later known phase m =
    select_core-Measured worker old new at since core after later known phase m
step-Measured worker old new at since false core after later known phase m = m

-- The residency of a run: on each core, among switches of both cores in any order, the number of
-- segments and the longest are those of the worker's stays there, from its selection to that of
-- another task, or to the end; a switch that selects the same task again ends none. The worker is
-- known by then, and the core is in phase.
pub switch_all-Measured :
    (worker c : ℕ) (current : ℕ → ℕ) (since end : ℕ) (events : List Switch) (t : TaskResidency)
    → worker ≢ 0
    → t.worker ≡ worker
    → length t.cores ≡ 2
    → c < 2
    → InPhase worker (current c) since (get_or t.cores c no_core)
    → Measured
        (get_or t.cores c no_core)
        (stays worker c current since events end)
        (get_or (finish end (switch_all current events t)).cores c no_core)
unfolding stays switch_all finish
switch_all-Measured worker c current since end [] t known same two small phase =
    rw (get_or-map-close end t.cores c)
      (close_measures worker (current c) since end (get_or t.cores c no_core) phase)
switch_all-Measured worker c current since end (s ∷ later) t known same two small phase =
    let t1 : TaskResidency = select s.cpu (current s.cpu) s.task s.at s.named t in
    let core : Core = get_or t.cores c no_core in
    let b : Bool = s.cpu == c in
    let old : ℕ = current c in
    let (same1, two1, core1) = get_or-select worker c current s t known same two small in
    let since1 : ℕ = if b && not (s.task == old) then s.at else since in
    let next : List ℕ = stays worker c (switched current s) since1 later end in
    let after : Core =
      get_or (finish end (switch_all (switched current s) later t1)).cores c no_core in
    let phase1 =
      subst (InPhase worker (switched current s c) since1) (sym core1)
        (step-InPhase worker old s.task s.at since b core known phase) in
    let measured =
      switch_all-Measured worker c (switched current s) since1 end later t1 known same1 two1 small
        phase1 in
    step-Measured worker old s.task s.at since b core after next known phase
      (subst (λ k. Measured k next after) core1 measured)
