-- ===== src/CanBus/Ring/Depth.antt =====
-- coherent_depth and the watermark of frame_ring.hpp: what a sample of the indices is worth.
use mathlib.Core.List.{Memᴰ}
use mathlib.Core.Path.{subst}
use native.Mathlib.Nat.{le_refl}
use esp32_vehicle_can_core.Prelude.{
  ℕ, zero, suc, ◌+◌, ◌-◌, ◌*◌, ◌&&◌, sym, ◌∙◌, ◌≤◌, ◌<◌, ◌≡◌, ◌≢◌, refl, ◌⊎◌, inl, inr, Bool, true,
  false, some, List, [], ◌∷◌, arith, ltb, leb, ◌==◌, Bool-cases, sub32,
}
use esp32_vehicle_can_core.CanBus.Ring.{
  RingIndex, head_index, tail_index, coherent_depth, FrameRing, raise_watermark, depth,
}

-- The sample whose three loads begin with number `n` is coherent: the tail did not move between its
-- two loads, and the distance fits the ring.
abbrev pub IsCoherent : ℕ → (ℕ → RingIndex → ℕ) → ℕ → Type 0
IsCoherent capacity load n =
    (load n tail_index ≡ load (n + 2) tail_index)
    × (sub32 (load (n + 1) head_index) (load (n + 2) tail_index) ≤ capacity)

abbrev pub IsDepthOf : ℕ → (ℕ → RingIndex → ℕ) → ℕ → ℕ → Type 0
IsDepthOf capacity load n d =
    (load n tail_index ≡ load (n + 2) tail_index)
    × (sub32 (load (n + 1) head_index) (load (n + 2) tail_index) ≤ capacity)
    × (d ≡ sub32 (load (n + 1) head_index) (load (n + 2) tail_index))

module _ (capacity : ℕ) (load : ℕ → RingIndex → ℕ) where
  accepted : ℕ → Bool
  accepted n =
      (load n tail_index == load (n + 2) tail_index)
      && leb (sub32 (load (n + 1) head_index) (load (n + 2) tail_index)) capacity

  coherent_depth-accepted :
      (fuel n : ℕ)
      → accepted n ≡ true
      → coherent_depth capacity load (suc fuel) n
        ≡ some (sub32 (load (n + 1) head_index) (load (n + 2) tail_index))
  unfolding coherent_depth accepted
  coherent_depth-accepted fuel n h = ground arith

  coherent_depth-refused :
      (fuel n : ℕ)
      → accepted n ≡ false
      → coherent_depth capacity load (suc fuel) n ≡ coherent_depth capacity load fuel (n + 3)
  unfolding coherent_depth accepted
  coherent_depth-refused fuel n h = ground arith

  accepted-IsCoherent : (n : ℕ) → accepted n ≡ true → IsCoherent capacity load n
  unfolding accepted
  accepted-IsCoherent n h = ground arith

  refused-not-IsCoherent : (n : ℕ) → accepted n ≡ false → ¬ IsCoherent capacity load n
  unfolding accepted
  refused-not-IsCoherent n h c = ground arith

  -- A depth that the loop returns is the distance between the indices in one of the samples that it
  -- took, one in which the tail stood still; so it never exceeds the capacity.
  pub coherent_depth_sound :
      (fuel n d : ℕ)
      → coherent_depth capacity load fuel n ≡ some d
      → (j : ℕ) × (j < fuel) × IsDepthOf capacity load (n + 3 * j) d
  coherent_depth_sound zero n d h = absurd (unfold coherent_depth in ground arith)
  coherent_depth_sound (suc fuel) n d h = elim (Bool-cases (accepted n)) [
    | inl e ↦
        let c = accepted-IsCoherent n e in
        let at_n : n + 3 * 0 ≡ n = omega arith in
        (0, omega arith, rw at_n (c.0, c.1, cc (h, coherent_depth-accepted fuel n e)))
    | inr e ↦
        let (j, lt, rest) =
          coherent_depth_sound fuel (n + 3) d (sym (coherent_depth-refused fuel n e) ∙ h) in
        let at_j : n + 3 * (j + 1) ≡ n + 3 + 3 * j = omega arith in
        (j + 1, omega arith, rw at_j rest)
  ]

  -- The loop ends: if one of the samples within the fuel is coherent, it returns a depth.
  pub coherent_depth_total :
      (fuel n j : ℕ)
      → j < fuel
      → IsCoherent capacity load (n + 3 * j)
      → (d : ℕ) × (coherent_depth capacity load fuel n ≡ some d)
  coherent_depth_total zero n j lt c = absurd (omega arith)
  coherent_depth_total (suc fuel) n j lt c = elim (Bool-cases (accepted n)) [
    | inl e ↦ (_, coherent_depth-accepted fuel n e)
    | inr e ↦
        let later : j ≢ 0 =
          λ z. refused-not-IsCoherent n e (subst (IsCoherent capacity load) (omega (arith, z)) c) in
        let at_j : n + 3 * j ≡ n + 3 + 3 * (j - 1) = omega arith in
        let (d, h) =
          coherent_depth_total fuel (n + 3) (j - 1) (omega arith)
            (subst (IsCoherent capacity load) at_j c) in
        (d, coherent_depth-refused fuel n e ∙ h)
  ]

-- With no other thread at work a ring within its capacity reads its depth in one round.
pub depth_lem :
    (capacity : ℕ) (r : FrameRing)
    → sub32 r.head r.tail ≤ capacity
    → depth capacity r ≡ sub32 r.head r.tail
unfolding depth
depth_lem capacity r h = ground arith

-- Whatever other threads store between the exchanges, the loop ends with the watermark at least at
-- the depth: with the depth itself, or with a higher value that it found there.
pub raise_watermark_bounds :
    (seen : List ℕ) (d w : ℕ)
    → (d ≤ raise_watermark seen d w)
      × ((raise_watermark seen d w ≡ d) ⊎ Memᴰ (raise_watermark seen d w) (w ∷ seen))
unfolding raise_watermark
raise_watermark_bounds [] d w = elim (Bool-cases (ltb w d)) [
  | inl e ↦ rw e (le_refl d, inl refl)
  | inr e ↦ rw e (ground arith, inr (Memᴰ.head refl))
]
raise_watermark_bounds (x ∷ seen) d w = elim (Bool-cases (ltb w d)) [
  | inl e ↦ rw e (raised (raise_watermark_bounds seen d x))
  | inr e ↦ rw e (ground arith, inr (Memᴰ.head refl))
]
  where
    raised :
        {v : ℕ}
        → (d ≤ v) × ((v ≡ d) ⊎ Memᴰ v (x ∷ seen))
        → (d ≤ v) × ((v ≡ d) ⊎ Memᴰ v (w ∷ x ∷ seen))
    raised (le, inl e) = (le, inl e)
    raised (le, inr m) = (le, inr (Memᴰ.tail m))
