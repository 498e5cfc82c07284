-- ===== src/VehicleCore/Signal/Laws.antt =====
-- What vehicle_core/signal.hpp promises of a signal's clock, status and value.
use native.Mathlib.Decide.{dec_le}
use esp32_vehicle_can_core.Prelude.{
  ℕ, ◌+◌, ◌≤◌, ◌<◌, ◌≡◌, ◌≢◌, refl, ◌⊎◌, ◌∙◌, Bool, true, false, Option, none, some, List, [], ◌∷◌,
  arith, ltb, if◌then◌else◌,
}
use esp32_vehicle_can_core.VehicleCore.Health.{
  Availability, no_data, fresh, stale, freshness_unverified, unavailable, ValidationStatus,
}
use esp32_vehicle_can_core.VehicleCore.Signal.{
  Signal, SignalUnit, SignalStatus, unknown, valid, stale_status, updated, idempotent, rejected,
  construct, is_unavailable, update_status, update, invalidate, refresh, status_at, snapshot,
}

module _ {T : Type 0} (same : T → T → Bool) where
  -- An update without a value or with a strictly newer timestamp is accepted: then the signal holds
  -- the new value, valid, at that timestamp. The same value again at the same timestamp is
  -- idempotent; an older timestamp, or another value at the same one, is rejected. Neither of these
  -- changes anything of the signal.
  pub update_status_cases :
      (s : Signal T) (v : T) (t : ℕ)
      → let (s', r) = update_status same s v t in
        (((s.has_value ≡ false) ⊎ (s.last_update_us < t))
          × (r ≡ updated)
          × (s'.value ≡ v)
          × (s'.last_update_us ≡ t)
          × (s'.has_value ≡ true)
          × (s'.status ≡ valid))
        ⊎ ((s.has_value ≡ true)
            × (t ≡ s.last_update_us)
            × (same s.value v ≡ true)
            × (r ≡ idempotent)
            × (s' ≡ s))
        ⊎ ((s.has_value ≡ true)
            × (t ≡ s.last_update_us)
            × (same s.value v ≡ false)
            × (r ≡ rejected)
            × (s' ≡ s))
        ⊎ ((s.has_value ≡ true) × (t < s.last_update_us) × (r ≡ rejected) × (s' ≡ s))
  unfolding update_status
  update_status_cases s v t = ground arith

  -- Updates in the order of arrival.
  abbrev pub update_all : Signal T → List (T × ℕ) → Signal T
  update_all s [] = s
  update_all s ((v, t) ∷ rest) = update_all (update same s v t).0 rest

-- The observation that counts among several: the earliest to arrive of those that bear the newest
-- timestamp.
unfoldable pub latest : {T : Type 0} → List (T × ℕ) → Option (T × ℕ)
latest [] = none
latest ((v, t) ∷ rest) = elim (latest rest) [
  | none ↦ some (v, t)
  | some (v', t') ↦ if ltb t t' then some (v', t') else some (v, t)
]

module _ {T : Type 0} (same : T → T → Bool) where
  -- What the signal holds: its value with its clock.
  abbrev pub held : Signal T → Option (T × ℕ)
  held s = if s.has_value then some (s.value, s.last_update_us) else none

  -- The newer of two observations, the first where they tie.
  abbrev newer : Option (T × ℕ) → Option (T × ℕ) → Option (T × ℕ)
  newer none o = o
  newer (some (v, t)) none = some (v, t)
  newer (some (v, t)) (some (v', t')) = if ltb t t' then some (v', t') else some (v, t)

  held-update :
      (s : Signal T) (v : T) (t : ℕ) → held (update same s v t).0 ≡ newer (held s) (some (v, t))
  unfolding update
  held-update s v t = ground arith

  newer_assoc : (a b c : Option (T × ℕ)) → newer (newer a b) c ≡ newer a (newer b c)
  newer_assoc none b c = refl
  newer_assoc (some a) none c = refl
  newer_assoc (some a) (some b) none = ground arith
  newer_assoc (some a) (some b) (some c) = ground arith

  latest-cons :
      (v : T) (t : ℕ) (l : List (T × ℕ)) → latest ((v, t) ∷ l) ≡ newer (some (v, t)) (latest l)
  unfolding latest
  latest-cons v t l = ground arith

  held-update_all :
      (s : Signal T) (l : List (T × ℕ)) → held (update_all same s l) ≡ newer (held s) (latest l)
  held-update_all s [] = unfold latest in ground arith
  held-update_all s ((v, t) ∷ rest) = rw (latest-cons v t rest) (
      held-update_all (update same s v t).0 rest
      ∙ rw (held-update s v t) (newer_assoc (held s) (some (v, t)) (latest rest)))

  -- A signal refines the latest observation: after any list of updates, in any order of their
  -- timestamps, a new signal holds the observation with the newest timestamp, the first to arrive
  -- where several bear it, and it holds none exactly if there was none.
  pub update_all-latest :
      (zero_value : T) (u : SignalUnit) (timeout : Option ℕ) (l : List (T × ℕ))
      → held (update_all same (construct zero_value u timeout) l) ≡ latest l
  unfolding construct
  update_all-latest z u timeout l = held-update_all (construct z u timeout) l

-- What a reader is told of a signal at a time, and under which conditions.
pub data Told {T : Type 0} (s : Signal T) (now : ℕ) : Availability → Type 0 where
  told_no_data : s.has_value ≡ false → Told s now no_data
  told_unavailable : s.has_value ≡ true → s.status ≡ unknown → Told s now unavailable
  told_unverified :
      s.has_value ≡ true
      → s.status ≢ unknown
      → s.freshness_timeout_us ≡ none
      → Told s now freshness_unverified
  told_fresh :
      {timeout : ℕ}
      → s.has_value ≡ true
      → s.status ≢ unknown
      → s.freshness_timeout_us ≡ some timeout
      → now ≤ s.last_update_us + timeout
      → Told s now fresh
  told_stale :
      {timeout : ℕ}
      → s.has_value ≡ true
      → s.status ≢ unknown
      → s.freshness_timeout_us ≡ some timeout
      → s.last_update_us + timeout < now
      → Told s now stale

module _ {T : Type 0} where
  module _ (s : Signal T) (now : ℕ) (hv : s.has_value ≡ true) (known : s.status ≢ unknown) where
    Told-known : (o : Option ℕ) → s.freshness_timeout_us ≡ o → Told s now (status_at s now)
    Told-known none e =
        let unverified : status_at s now ≡ freshness_unverified =
          unfold status_at in ground arith in
        rw unverified (told_unverified hv known e)
    Told-known (some d) e = elim (dec_le now (s.last_update_us + d)) [
      | yes h ↦
          let in_time : status_at s now ≡ fresh = unfold status_at in ground arith in
          rw in_time (told_fresh hv known e h)
      | no h ↦
          let too_late : status_at s now ≡ stale = unfold status_at in ground arith in
          rw too_late (told_stale hv known e (omega arith))
    ]

  told :
      (s : Signal T) (now : ℕ) (b : Bool) (k : SignalStatus)
      → s.has_value ≡ b
      → s.status ≡ k
      → Told s now (status_at s now)
  told s now false k eb ek =
      let empty : status_at s now ≡ no_data = unfold status_at in ground arith in
      rw empty (told_no_data eb)
  told s now true unknown eb ek =
      let lost : status_at s now ≡ unavailable = unfold status_at in ground arith in
      rw lost (told_unavailable eb ek)
  told s now true k eb ek = Told-known s now eb (λ u. cc) s.freshness_timeout_us refl

  -- `status_at` reports `NoData` exactly without a value, `Unavailable` exactly for a value whose
  -- status is unknown, `FreshnessUnverified` for another value with no timeout, and else `Fresh` or
  -- `Stale` as the timeout has not or has passed since the last update; a sample of the clock from
  -- before that update counts as fresh.
  pub status_at-Told : (s : Signal T) (now : ℕ) → Told s now (status_at s now)
  status_at-Told s now = told s now s.has_value s.status refl refl

  -- A refresh makes a valid signal with a timeout stale exactly where a reader at that time is
  -- told so, it changes nothing else, and it never makes a signal valid.
  pub refresh-status_at :
      (s : Signal T) (now timeout : ℕ)
      → s.has_value ≡ true
      → s.status ≡ valid
      → s.freshness_timeout_us ≡ some timeout
      → ((status_at s now ≡ stale) × (refresh s now ≡ record s { status = stale_status }))
        ⊎ ((status_at s now ≡ fresh) × (refresh s now ≡ s))
  unfolding status_at refresh
  refresh-status_at s now timeout hv st e = ground arith

  -- A signal whose value is unavailable is left as it is by a refresh, by a further invalidation
  -- and by an update that is not strictly newer than the accepted value; a strictly newer update
  -- makes it available.
  pub invalidate_holds :
      (same : T → T → Bool) (s : Signal T) (v : T) (now t : ℕ)
      → is_unavailable s ≡ true
      → (refresh s now ≡ s)
        × (is_unavailable (invalidate s now).0 ≡ true)
        × ((invalidate s now).0 ≡ s)
        × (t ≤ s.last_update_us → (update same s v t).0 ≡ s)
        × (s.last_update_us < t → is_unavailable (update same s v t).0 ≡ false)
  unfolding is_unavailable refresh invalidate update
  invalidate_holds same s v now t h =
      (ground arith, ground arith, ground arith, λ le. ground arith, λ lt. ground arith)

  -- Only an observation newer than the accepted value invalidates it, and the value and the clock
  -- survive; a signal without a value reports no data before and after.
  pub invalidate_cases :
      (s : Signal T) (t now : ℕ)
      → let (s', done) = invalidate s t in
        ((done ≡ false) × (s.has_value ≡ true) × (t ≤ s.last_update_us) × (s' ≡ s))
        ⊎ ((done ≡ true)
            × (s.has_value ≡ true)
            × (s.last_update_us < t)
            × (status_at s' now ≡ unavailable)
            × (s'.value ≡ s.value)
            × (s'.last_update_us ≡ s.last_update_us))
        ⊎ ((done ≡ true) × (s.has_value ≡ false) × (status_at s' now ≡ no_data))
  unfolding invalidate status_at
  invalidate_cases s t now = ground arith

  -- A snapshot carries a value exactly if the signal holds one, and then that value; it reports no
  -- data exactly if it carries none, and passes the validation on.
  pub snapshot-value :
      (s : Signal T) (now : ℕ) (validation : ValidationStatus)
      → let r = snapshot s now validation in
        ((s.has_value ≡ true)
          × (r.value ≡ some s.value)
          × (r.availability ≢ no_data)
          × (r.validation ≡ validation))
        ⊎ ((s.has_value ≡ false)
            × (r.value ≡ none)
            × (r.availability ≡ no_data)
            × (r.validation ≡ validation))
  unfolding snapshot
  snapshot-value s now validation = ground arith
