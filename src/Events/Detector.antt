-- ===== src/Events/Detector.antt =====
-- internal/events/detector.go: changes of the scooter's state that become events. What a check sends does
-- not touch what it remembers, so a check answers with the new memory and its events in order, and
-- Detector/Delivery sends them. `parseInt` is `parse_int`. The loop over the fault stream only reads
-- messages: `handle_fault_message` is its body.
mod Checks
mod Delivery
mod Repeats
mod Baseline
mod Examples
unfoldable pub use Checks.*
use radio_gaga.Common.{
  ℕ, Bool, true, false, String, str_eq, str_append, List, [], ◌∷◌, ◌++◌, map, Option, none, some,
  if◌then◌else◌, get, insert, is_empty, or_else,
}
use radio_gaga.Events.Types.{Event, Value, text, texts, table, new_event}
use radio_gaga.Events.Movement.{
  Geo, MovementMonitor, Trigger, on_vehicle_state_change, on_gps_update,
}
use radio_gaga.Notifications.Rules.{
  GoText, RuleCondition, NotificationRule, ParsedRule, RuleMatch, Look, Cooldowns, evaluate_hash,
  evaluate_message,
}

unfoldable pub rule_match_to_event : RuleMatch → Event
rule_match_to_event m = new_event "notification_rule" "" (
    ("rule", text m.rule_name)
    ∷ ("conditions", table m.cond_values)
    ∷ ("channels", texts m.channels)
    ∷ (if str_eq m.message "" then [] else ("message", text m.message) ∷ []))

-- What a dispatch reads: the clock, and the replies of Redis on the alarm and the two states.
pub record Replies : Type 0 where
  pub now : ℕ
  pub alarm_status : Option String
  pub vehicle_state : String
  pub power_state : String

-- A case of the switch on the hash, with those behind it.
abbrev pub case_of : Bool → (Memory → Checked) → (Memory → Checked) → Memory → Checked
case_of true check rest = check
case_of false check rest = rest

-- The checks of one hash: the new memory, the events, and the vehicle state that was entered.
unfoldable pub check_hash : Replies → String → List (String × String) → Memory → Checked
check_hash replies hash fields =
    case_of (str_eq hash "alarm") (check_alarm_events replies.alarm_status) (
      case_of (str_eq hash "battery:0") (check_battery_events "battery:0" fields) (
        case_of (str_eq hash "battery:1") (check_battery_events "battery:1" fields) (
          case_of (str_eq hash "cb-battery") (check_cb_battery_events fields) (
            case_of (str_eq hash "power-manager") (check_power_events fields) (
              case_of (str_eq hash "internet") (check_connectivity_events fields) (
                case_of (str_eq hash "vehicle") (check_vehicle_events fields) (
                  case_of (str_eq hash "gps") (check_gps_state fields) (
                    case_of (str_eq hash "engine-ecu")
                      (check_temperature_events "engine-ecu" fields) nothing))))))))

-- `OnVehicleStateChange`, where `checkVehicleEvents` calls it.
abbrev pub enter : (geo : Geo) → ℕ → Option String → MovementMonitor geo → MovementMonitor geo
enter geo now none m = m
enter geo now (some state) m = on_vehicle_state_change geo now state m

module _ (geo : Geo) (go : GoText) where
  pub record Detector : Type 0 where
    pub last_state : Memory
    pub movement : MovementMonitor geo
    pub cooldowns : Cooldowns

  abbrev pub watch_position :
      Replies
      → String
      → List (String × String)
      → MovementMonitor geo
      → MovementMonitor geo × Option (Trigger geo)
  watch_position replies hash fields m =
      if str_eq hash "gps"
      then on_gps_update geo replies.now fields replies.vehicle_state replies.power_state m
      else (m, none)

  -- `dispatchHash`: the events, in order, and a confirmation of movement that starts.
  unfoldable pub dispatch_hash :
      Replies
      → List (ParsedRule × Look)
      → String
      → List (String × String)
      → Detector
      → Detector × List Event × Option (Trigger geo)
  dispatch_hash replies rules hash fields d =
      let checked = check_hash replies hash fields d.last_state in
      let (watched, trigger) =
        watch_position replies hash fields (enter geo replies.now checked.entered d.movement) in
      let (found, cooldowns) = evaluate_hash go hash fields rules d.cooldowns in
      (
        record { last_state = checked.last; movement = watched; cooldowns = cooldowns },
        checked.sent ++ map rule_match_to_event found,
        trigger,
      )

  -- The payload handler that `Register` installs.
  unfoldable pub dispatch_payload :
      List (ParsedRule × Look) → String → String → Detector → Detector × List Event
  dispatch_payload rules channel payload d =
      let (found, cooldowns) = evaluate_message go channel payload rules d.cooldowns in
      (record d { cooldowns = cooldowns }, map rule_match_to_event found)

-- `InitializeBaseline`: the fields that are read, with those of the rules behind.
abbrev pub baseline_fields : List (String × String)
baseline_fields =
    ("alarm", "status")
    ∷ ("battery:0", "charge")
    ∷ ("battery:0", "present")
    ∷ ("battery:0", "temperature")
    ∷ ("battery:1", "charge")
    ∷ ("battery:1", "present")
    ∷ ("battery:1", "temperature")
    ∷ ("cb-battery", "charge")
    ∷ ("power-manager", "state")
    ∷ ("power-manager", "nrf-reset-reason")
    ∷ ("internet", "status")
    ∷ ("vehicle", "state")
    ∷ ("vehicle", "handlebar:lock-sensor")
    ∷ ("vehicle", "seatbox:lock")
    ∷ ("gps", "state")
    ∷ ("engine-ecu", "temperature")
    ∷ []

unfoldable pub condition_fields : List RuleCondition → List (String × String)
condition_fields [] = []
condition_fields (c ∷ cs) =
    let rest = condition_fields cs in if str_eq c.field "" then rest else (c.source, c.field) ∷ rest

unfoldable pub rule_fields : List NotificationRule → List (String × String)
rule_fields [] = []
rule_fields (r ∷ rs) = condition_fields r.conditions ++ rule_fields rs

-- A reply is the value, empty for a missing field, or `none` for an error. A field that is named twice is
-- read once by the source, and again with the same reply here.
unfoldable pub read_baseline :
    (String → String → Option String) → List (String × String) → Memory → Memory
read_baseline hget [] last = last
read_baseline hget ((hash, field) ∷ rest) last = read_baseline hget rest (elim (hget hash field) [
  | none ↦ last
  | some value ↦ insert (str_append hash (str_append ":" field)) value last
])

unfoldable pub initialize_baseline :
    (String → String → Option String) → List NotificationRule → Memory → Memory
initialize_baseline hget rules last = read_baseline hget (baseline_fields ++ rule_fields rules) last
