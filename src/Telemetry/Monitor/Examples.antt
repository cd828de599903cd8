-- ===== src/Telemetry/Monitor/Examples.antt =====
-- A battery that loses charge, and the theorems at it.
use radio_gaga.Common.{
  or_else, insert, ℕ, ◌+◌, ◌*◌, ◌≡◌, refl, false, String, str_eq, List, [], ◌∷◌, Option, none, some,
  lookup, insert,
}
use radio_gaga.Telemetry.Priority.{Priority, quick, level, full_key, get_field_priority, quantize}
use radio_gaga.Telemetry.Monitor.{
  record_change, initialize_baseline, baseline, baseline_fields, new_monitor, record_change,
  handle_field_change, baseline, initialize_baseline,
}
use radio_gaga.Telemetry.Monitor.Timers.{Inv}
use radio_gaga.Telemetry.Monitor.Deadlines.{
  happen, Happens, passes, changed, baseline_read, happens, started, happens-started_timed,
}

-- No text is a number, and a change waits its level in seconds.
abbrev unrounded : ℕ → String → Option String
unrounded bucket value = none

abbrev deadlines : Priority → ℕ
deadlines p = 1 + level p * 30

abbrev discharge : List Happens
discharge =
    baseline_read (("battery:0", some (("charge", "81") ∷ [])) ∷ ("gps", none) ∷ [])
    ∷ changed "battery:0" "charge" "81"
    ∷ passes 5
    ∷ changed "battery:0" "charge" "80"
    ∷ changed "ble" "status" "connected"
    ∷ passes 3
    ∷ changed "battery:0" "charge" "79"
    ∷ []

happens-started_timed_example :
    Inv
      (happens unrounded discharge (started deadlines)).now
      (happens unrounded discharge (started deadlines)).monitor
happens-started_timed_example = happens-started_timed unrounded deadlines discharge

charge_is_quick : get_field_priority "battery:0" "charge" ≡ some quick
unfolding get_field_priority full_key lookup
charge_is_quick = refl

charge_changes :
    str_eq
      (or_else "" (lookup (full_key "battery:0" "charge") (new_monitor deadlines).last_values))
      (quantize unrounded "battery:0" "charge" "80")
    ≡ false
unfolding full_key lookup quantize new_monitor
charge_changes = refl

-- The charge was reported at 5 s, so its timer is due at 36 s though it fell again at 8 s.
discharge_timer : (happens unrounded discharge (started deadlines)).monitor.timers quick ≡ some 36
unfolding happens happen started handle_field_change record_change get_field_priority quantize
    full_key lookup insert initialize_baseline baseline baseline_fields new_monitor
discharge_timer = refl
