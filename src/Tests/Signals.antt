-- ===== src/Tests/Signals.antt =====
-- A speed signal with a timeout of 100 us.
use esp32_vehicle_can_core.Prelude.{ℕ, ◌≡◌, refl, some, List, [], ◌∷◌, ◌==◌}
use esp32_vehicle_can_core.VehicleCore.Health.{fresh, stale}
use esp32_vehicle_can_core.VehicleCore.Signal.{
  Signal, kilometres_per_hour, construct, update, invalidate, status_at,
}
use esp32_vehicle_can_core.VehicleCore.Signal.Laws.{update_all, latest, held, update_all-latest}

abbrev unset : Signal ℕ
unfolding construct
unset = construct 0 kilometres_per_hour (some 100)

abbrev at_50 : Signal ℕ
unfolding construct update
at_50 = (update ◌==◌ unset 80 50).0

abbrev lost : Signal ℕ
unfolding construct update invalidate
lost = (invalidate at_50 60).0

f_stale : status_at at_50 151 ≡ stale
unfolding construct update status_at
f_stale = refl

f_fresh : status_at at_50 150 ≡ fresh
unfolding construct update status_at
f_fresh = refl

abbrev observed_out_of_order : List (ℕ × ℕ)
observed_out_of_order = (80, 50) ∷ (70, 40) ∷ (90, 60) ∷ (95, 60) ∷ []

f_latest : latest observed_out_of_order ≡ some (90, 60)
unfolding latest
f_latest = refl

update_all-latest_example :
    held ◌==◌ (update_all ◌==◌ (construct 0 kilometres_per_hour (some 100)) observed_out_of_order)
    ≡ latest observed_out_of_order
update_all-latest_example =
    update_all-latest ◌==◌ 0 kilometres_per_hour (some 100) observed_out_of_order
