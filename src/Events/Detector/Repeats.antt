-- ===== src/Events/Detector/Repeats.antt =====
-- A hash that changes to what it was sends nothing through internal/events/detector.go.
use radio_gaga.Common.{
  ◌≡◌, refl, Bool, true, false, String, str_eq, List, [], Option, none, some, get-insert, same_text,
  and_false,
}
use radio_gaga.Events.Detector.{
  Memory, Checked, check_alarm_events, check_battery_events, check_cb_battery_events,
  check_power_events, check_connectivity_events, check_vehicle_state, check_locks,
  check_vehicle_events, check_gps_state, check_temperature_events, check_hash, case_of, Replies,
}

ruleset remembered = (get-insert, same_text, and_false)

-- A check that sends nothing when it comes again.
record Silent (check : Memory → Checked) : Type 0 where
  again : (last : Memory) → (check (check last).last).sent ≡ []

case_of-Silent : (b : Bool) {f g : Memory → Checked} → Silent f → Silent g → Silent (case_of b f g)
case_of-Silent true h k = h
case_of-Silent false h k = k

check_alarm_events-Silent : (status : Option String) → Silent (check_alarm_events status)
unfolding check_alarm_events
check_alarm_events-Silent none = record { again = λ last. refl }
check_alarm_events-Silent (some status) = record { again = λ last. simp remembered }

module _ (fields : List (String × String)) where
  check_gps_state-Silent : Silent (check_gps_state fields)
  unfolding check_gps_state
  check_gps_state-Silent = record { again = λ last. simp remembered }

  check_vehicle_events-Silent : Silent (check_vehicle_events fields)
  unfolding check_vehicle_events check_vehicle_state check_locks
  check_vehicle_events-Silent = record { again = λ last. simp remembered }

  check_battery_0-Silent : Silent (check_battery_events "battery:0" fields)
  unfolding check_battery_events
  check_battery_0-Silent = record { again = λ last. simp remembered }

  check_battery_1-Silent : Silent (check_battery_events "battery:1" fields)
  unfolding check_battery_events
  check_battery_1-Silent = record { again = λ last. simp remembered }

  check_cb_battery_events-Silent : Silent (check_cb_battery_events fields)
  unfolding check_cb_battery_events
  check_cb_battery_events-Silent = record { again = λ last. simp remembered }

  check_power_events-Silent : Silent (check_power_events fields)
  unfolding check_power_events
  check_power_events-Silent = record { again = λ last. simp remembered }

  check_connectivity_events-Silent : Silent (check_connectivity_events fields)
  unfolding check_connectivity_events
  check_connectivity_events-Silent = record { again = λ last. simp remembered }

  check_temperature_events-Silent : Silent (check_temperature_events "engine-ecu" fields)
  unfolding check_temperature_events
  check_temperature_events-Silent = record { again = λ last. simp remembered }

  -- The checks of any hash send nothing when they come again with the same fields and the same reply on
  -- the alarm.
  pub check_hash-again :
      (replies : Replies) (hash : String) (last : Memory)
      → (check_hash replies hash fields (check_hash replies hash fields last).last).sent ≡ []
  unfolding check_hash
  check_hash-again replies hash last =
      (case_of-Silent (str_eq hash "alarm") (check_alarm_events-Silent replies.alarm_status) (
          case_of-Silent (str_eq hash "battery:0") check_battery_0-Silent (
            case_of-Silent (str_eq hash "battery:1") check_battery_1-Silent (
              case_of-Silent (str_eq hash "cb-battery") check_cb_battery_events-Silent (
                case_of-Silent (str_eq hash "power-manager") check_power_events-Silent (
                  case_of-Silent (str_eq hash "internet") check_connectivity_events-Silent (
                    case_of-Silent (str_eq hash "vehicle") check_vehicle_events-Silent (
                      case_of-Silent (str_eq hash "gps") check_gps_state-Silent (
                        case_of-Silent (str_eq hash "engine-ecu") check_temperature_events-Silent
                          (record { again = λ last. refl })))))))))).again
        last
