-- ===== src/Prelude/Slots.antt =====
-- The items in consecutive slots of a circular buffer, counted round its end.
use native.Mathlib.Nat.{mod-eq_of_lt, mod-add-mod, mod-eq-sub-mod, mod-lt}
use native.Mathlib.Decide.{dec_lt}
use mathlib.Core.Path.{◌≡◌, refl, ap, ap₂, sym, ◌∙◌}
use mathlib.Core.Logic.{◌≢◌}
use mathlib.Core.List.{List, [], ◌∷◌, ◌++◌}
use Prim.Native.Nat.{ℕ, zero, suc, ◌+◌, ◌-◌, ◌%◌, ◌≤◌, ◌<◌}
use native.Mathlib.Omega.{arith}
use esp32_vehicle_can_core.Prelude.Lists.{length, get_or, set, get_or-set_self, get_or-set_ne}

-- Fewer than `capacity` steps round the ring do not come back to the start.
pub add-mod-ne : (c h k : ℕ) → 0 < k → k < c → (h + k) % c ≢ h % c
add-mod-ne c h k pos lt e = elim (dec_lt (h % c + k) c) [
  | yes p ↦ omega (arith, sum, mod-eq_of_lt p)
  | no p ↦ omega (arith, sum, mod-lt h {m = c} (omega arith), over (omega arith))
]
  where
    sum : (h % c + k) % c ≡ h % c
    sum = mod-add-mod h c k ∙ e

    over : c ≤ h % c + k → (h % c + k) % c ≡ h % c + k - c
    over le =
        mod-eq-sub-mod {n = h % c + k} {m = c} le
        ∙ mod-eq_of_lt {n = h % c + k - c} {m = c} (omega (arith, mod-lt h {m = c} (omega arith)))

module _ {ℓ} {A : Type ℓ} (d : A) where
  -- The `n` items in the slots from index `h` on; `d` is what an absent slot would hold.
  abbrev pub window : ℕ → List A → ℕ → ℕ → List A
  window capacity buf h zero = []
  window capacity buf h (suc n) = get_or buf (h % capacity) d ∷ window capacity buf (h + 1) n

  module _ (capacity : ℕ) (buf : List A) where
    pub length-window : (h n : ℕ) → length (window capacity buf h n) ≡ n
    length-window h zero = refl
    length-window h (suc n) = ap suc (length-window (h + 1) n)

    pub window-pos :
        (h n : ℕ)
        → n ≢ 0
        → window capacity buf h n
          ≡ get_or buf (h % capacity) d ∷ window capacity buf (h + 1) (n - 1)
    window-pos h zero p = absurd (p refl)
    window-pos h (suc n) p =
        ap (λ k. get_or buf (h % capacity) d ∷ window capacity buf (h + 1) k) (omega arith)

    -- Only the residue of the index counts.
    pub window-mod :
        (h k n : ℕ)
        → h % capacity ≡ k % capacity
        → window capacity buf h n ≡ window capacity buf k n
    window-mod h k zero e = refl
    window-mod h k (suc n) e =
        ap₂ ◌∷◌ (ap (λ i. get_or buf i d) e) (window-mod (h + 1) (k + 1) n next)
      where
        next : (h + 1) % capacity ≡ (k + 1) % capacity
        next =
            sym (mod-add-mod h capacity 1)
            ∙ ap (λ i. (i + 1) % capacity) e
            ∙ mod-add-mod k capacity 1

  -- Writing just past a window extends it by that item.
  pub window-set :
      (c : ℕ) (buf : List A) (x : A) (n h i : ℕ)
      → c ≤ length buf
      → n < c
      → i ≡ (h + n) % c
      → window c (set buf i x) h (suc n) ≡ window c buf h n ++ (x ∷ [])
  window-set c buf x zero h i room lt e =
      let at_h : i ≡ h % c = e ∙ ap (λ j. j % c) (omega arith) in
      rw (at_h, get_or-set_self buf (h % c) x d (omega (arith, mod-lt h {m = c} lt)))
  window-set c buf x (suc n) h i room lt e =
      ap₂ ◌∷◌ (get_or-set_ne buf x d apart)
        (window-set c buf x n (h + 1) i room (omega arith) (e ∙ ap (λ j. j % c) (omega arith)))
    where
      apart : i ≢ h % c
      apart = rw e (add-mod-ne c h (suc n) (omega arith) lt)

  -- Writing past a window leaves it alone.
  pub window-set_past :
      (c : ℕ) (buf : List A) (x : A) (n m h i : ℕ)
      → n ≤ m
      → m < c
      → i ≡ (h + m) % c
      → window c (set buf i x) h n ≡ window c buf h n
  window-set_past c buf x zero m h i le lt e = refl
  window-set_past c buf x (suc n) m h i le lt e = ap₂ ◌∷◌ (get_or-set_ne buf x d apart) (
      window-set_past c buf x n (m - 1) (h + 1) i (omega arith) (omega arith)
        (e ∙ ap (λ j. j % c) (omega arith)))
    where
      apart : i ≢ h % c
      apart = rw e (add-mod-ne c h m (omega arith) lt)

  -- A window of one slot more ends in that slot.
  pub window-suc :
      (c : ℕ) (buf : List A) (h n : ℕ)
      → window c buf h (suc n) ≡ window c buf h n ++ (get_or buf ((h + n) % c) d ∷ [])
  window-suc c buf h zero = ap (λ j. get_or buf (j % c) d ∷ []) (omega arith)
  window-suc c buf h (suc n) =
      let next : h + 1 + n ≡ h + suc n = omega arith in
      ap (◌∷◌ (get_or buf (h % c) d)) (
        window-suc c buf (h + 1) n
        ∙ ap (λ j. window c buf (h + 1) n ++ (get_or buf (j % c) d ∷ [])) next)
