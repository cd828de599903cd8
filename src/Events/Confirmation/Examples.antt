-- ===== src/Events/Confirmation/Examples.antt =====
-- A scooter that moves ten metres between two readings, and the theorems on confirmations at it.
use radio_gaga.Common.{
  ◌≤◌, ◌≡◌, refl, true, String, List, [], ◌∷◌, map, some, if◌then◌else◌, leb, lookup, length, take,
  All, parse_int, decimal, parse_codes,
}
use radio_gaga.Events.Movement.{GpsSample, fix_of, parse_lat_lng}
use radio_gaga.Events.Movement.Examples.{anchored_at_100, line, gps_at, trigger}
use radio_gaga.Events.Confirmation.{
  last_of, Reading, confirmed, run_confirmation, verdict_of, gather, collect, collect_fix, judge,
  ema_smooth, smooth_from, consistent_segments, sample_count, min_consistent, no_verdict,
}
use radio_gaga.Events.Confirmation.Confirming.{Sampled, Steady, run_confirmation-confirmed}
use radio_gaga.Events.Confirmation.Running.{
  Action, state_changes, gps_changes, gives_verdict, confirmation_ends, acts, unwatched,
  acts-one_confirmation,
}

abbrev reading : String → Reading line
reading lat = record { gps = some (gps_at lat); vehicle = "stand-by"; read_at = 50 }

abbrev readings : List (Reading line)
readings = map reading (
    "130" ∷ "140" ∷ "150" ∷ "160" ∷ "170" ∷ "180" ∷ "190" ∷ "200" ∷ "210" ∷ "220" ∷ "230" ∷ "240"
    ∷ [])

abbrev stolen : GpsSample line
stolen = record { point = (240, 1); at = 50 }

run_stolen : run_confirmation line trigger readings ≡ confirmed stolen
unfolding run_confirmation verdict_of gather collect collect_fix judge ema_smooth smooth_from
    consistent_segments fix_of parse_lat_lng lookup parse_int decimal parse_codes
run_stolen = refl

run_confirmation-confirmed_example :
    (found : List (GpsSample line)) × Sampled line (take sample_count readings) found
    × (sample_count ≤ length readings)
    × All (Steady line trigger) (take sample_count readings)
    × (min_consistent ≤ consistent_segments line (ema_smooth line found))
    × (stolen ≡ last_of line anchored_at_100 (ema_smooth line found))
    × (leb 30 140 ≡ true)
run_confirmation-confirmed_example =
    run_confirmation-confirmed line trigger readings stolen run_stolen

abbrev actions : List (Action line)
actions =
    gps_changes 1 (gps_at "100") "stand-by" "running"
    ∷ gps_changes 40 (gps_at "130") "stand-by" "running"
    ∷ gps_changes 41 (gps_at "140") "stand-by" "running"
    ∷ state_changes 42 "parked"
    ∷ gives_verdict 44 no_verdict
    ∷ confirmation_ends 45
    ∷ []

acts-one_confirmation_example :
    ((acts line actions (unwatched line)).running ≤ 1)
    × ((acts line actions (unwatched line)).running
        ≡ (if (acts line actions (unwatched line)).monitor.confirming then 1 else 0))
acts-one_confirmation_example = acts-one_confirmation line actions
