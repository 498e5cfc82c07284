-- ===== src/Baseline/Firmware/Idle.antt =====
-- The idle hooks of firmware/runtime-synthetic-baseline/main/main.cpp.
use esp32_vehicle_can_core.Prelude.{
  ℕ, zero, suc, ◌+◌, ◌<◌, ◌≡◌, ◌≢◌, refl, Bool, true, false, ◌&&◌, List, [], ◌∷◌, arith, Bool-cases,
  inl, inr, ltb, ◌==◌, if◌then◌else◌, length, length-set, get_or, set, get_or-set_self,
  get_or-set_ne, replicate, u32, sub64,
}
use esp32_vehicle_can_core.Baseline.Queue.{max}
use esp32_vehicle_can_core.Baseline.Residency.Segments.{largest}
use esp32_vehicle_can_core.Baseline.Report.{Run}

pub record Idle : Type 0 where
  pub count : ℕ
  pub maximum_gap_us : ℕ
  pub last_us : ℕ

abbrev pub no_idle : Idle
no_idle = record { count = 0; maximum_gap_us = 0; last_us = 0 }

pub record IdleHooks : Type 0 where
  pub idle : List Idle
  pub measuring : Bool

abbrev pub sampled : ℕ → Idle → Idle
sampled now s = record {
  count = u32 (s.count + 1);
  maximum_gap_us = max s.maximum_gap_us (u32 (sub64 now s.last_us));
  last_us = now;
}

-- The hook's call on core `cpu` at `now`.
unfoldable pub idle_hook : ℕ → ℕ → IdleHooks → IdleHooks
idle_hook cpu now h =
    if h.measuring && ltb cpu 2
    then record h { idle = set h.idle cpu (sampled now (get_or h.idle cpu no_idle)) }
    else h

unfoldable pub begin_idle : ℕ → IdleHooks → IdleHooks
begin_idle started h = record {
  idle = replicate 2 (record { count = 0; maximum_gap_us = 0; last_us = started });
  measuring = true;
}

abbrev final_gap : ℕ → Idle → ℕ
final_gap stopped s = max s.maximum_gap_us (u32 (sub64 stopped s.last_us))

unfoldable pub end_idle : ℕ → Run → IdleHooks → IdleHooks × Run
end_idle stopped run h =
    let idle0 = get_or h.idle 0 no_idle in
    let idle1 = get_or h.idle 1 no_idle in
    (
      record h { measuring = false },
      record run {
        idle_calls = idle0.count ∷ idle1.count ∷ [];
        maximum_idle_gap_us = final_gap stopped idle0 ∷ final_gap stopped idle1 ∷ [];
      },
    )

-- The hooks' calls, each with its core and time, in turn.
unfoldable pub hooks : List (ℕ × ℕ) → IdleHooks → IdleHooks
hooks [] h = h
hooks ((cpu, now) ∷ later) h = hooks later (idle_hook cpu now h)

-- The reference: the gaps between the calls on core `c`, with the start and the end of the run.
unfoldable pub gaps : ℕ → ℕ → List (ℕ × ℕ) → ℕ → List ℕ
gaps c last [] stopped = u32 (sub64 stopped last) ∷ []
gaps c last ((cpu, now) ∷ later) stopped =
    let next = gaps c (if cpu == c then now else last) later stopped in
    if cpu == c then u32 (sub64 now last) ∷ next else next

unfoldable pub calls : ℕ → List (ℕ × ℕ) → ℕ
calls c [] = 0
calls c ((cpu, now) ∷ later) = (if cpu == c then 1 else 0) + calls c later

-- The hook samples its own core only.
get_or-idle_hook :
    (c cpu now : ℕ) (h : IdleHooks)
    → h.measuring ≡ true
    → length h.idle ≡ 2
    → c < 2
    → let h1 = idle_hook cpu now h in
      let s = get_or h.idle c no_idle in
      (h1.measuring ≡ true)
      × (length h1.idle ≡ 2)
      × (get_or h1.idle c no_idle ≡ (if cpu == c then sampled now s else s))
unfolding idle_hook
get_or-idle_hook c cpu now h on two small = elim (Bool-cases (cpu == c)) [
  | inl e ↦
      let here : cpu ≡ c = ground arith in
      let s : Idle = sampled now (get_or h.idle c no_idle) in
      ground (arith, here, length-set h.idle c s, get_or-set_self h.idle c s no_idle)
  | inr e ↦
      let apart : cpu ≢ c = ground arith in
      let s : Idle = sampled now (get_or h.idle cpu no_idle) in
      ground (arith, length-set h.idle cpu s, get_or-set_ne h.idle s no_idle apart)
]

idle_after :
    (c stopped : ℕ) (events : List (ℕ × ℕ)) (h : IdleHooks)
    → h.measuring ≡ true
    → length h.idle ≡ 2
    → c < 2
    → let before = get_or h.idle c no_idle in
      let after = get_or (hooks events h).idle c no_idle in
      (u32 after.count ≡ u32 (before.count + calls c events))
      × (final_gap stopped after
          ≡ largest before.maximum_gap_us (gaps c before.last_us events stopped))
unfolding hooks gaps calls largest
idle_after c stopped [] h on two small = ground arith
idle_after c stopped ((cpu, now) ∷ later) h on two small =
    let h1 : IdleHooks = idle_hook cpu now h in
    let (on1, two1, core1) = get_or-idle_hook c cpu now h on two small in
    let (counted, longest) = idle_after c stopped later h1 on1 two1 small in
    elim (Bool-cases (cpu == c)) [
      | inl e ↦
          let core : get_or h1.idle c no_idle ≡ sampled now (get_or h.idle c no_idle) =
            ground (arith, core1) in
          ground (arith, core, counted, longest)
      | inr e ↦
          let core : get_or h1.idle c no_idle ≡ get_or h.idle c no_idle = ground (arith, core1) in
          ground (arith, core, counted, longest)
    ]

-- A run of the idle hooks, however the two cores' calls interleave: the run reports for each core
-- the number of its calls, as a uint32_t, and the longest gap between two of them, the start and the
-- end of the run included, each gap as a uint32_t.
pub idle_measures :
    (started stopped : ℕ) (events : List (ℕ × ℕ)) (run : Run) (h : IdleHooks) (c : ℕ)
    → c < 2
    → let (h', run') = end_idle stopped run (hooks events (begin_idle started h)) in
      (h'.measuring ≡ false)
      × (u32 (get_or run'.idle_calls c 0) ≡ u32 (calls c events))
      × (get_or run'.maximum_idle_gap_us c 0 ≡ largest 0 (gaps c started events stopped))
unfolding end_idle begin_idle
idle_measures started stopped events run h zero small =
    ground (arith, idle_after 0 stopped events (begin_idle started h) refl refl small)
idle_measures started stopped events run h (suc zero) small =
    ground (arith, idle_after 1 stopped events (begin_idle started h) refl refl small)
idle_measures started stopped events run h (suc (suc c)) small = absurd (omega arith)
