-- ===== src/Events/Detector/Checks.antt =====
-- The checks of internal/events/detector.go, one for each kind of hash.
use radio_gaga.Common.{
  ℕ, Bool, true, false, not, ◌&&◌, ◌||◌, String, str_eq, str_append, List, [], ◌∷◌, ◌++◌, Option,
  none, some, if◌then◌else◌, get, insert, lookup, ℤ, at_most, at_least, parse_int,
}
use radio_gaga.Events.Types.{Event, Value, text, number, hexadecimal, new_event}

-- `lastState`.
abbrev pub Memory : Type 0
Memory = List (String × String)

pub record Checked : Type 0 where
  pub last : Memory
  pub sent : List Event
  pub entered : Option String

abbrev pub nothing : Memory → Checked
nothing last = record { last = last; sent = []; entered = none }

abbrev pub only : Bool → Event → List Event
only true e = e ∷ []
only false e = []

-- A value that was known, and is another one now.
abbrev pub changed : String → String → Bool
changed before now = not (str_eq before "") && not (str_eq before now)

-- `BatteryWarningThreshold` and the others.
abbrev pub battery_warning_threshold : ℕ
battery_warning_threshold = 10

abbrev pub temperature_warning_threshold : ℕ
temperature_warning_threshold = 80

abbrev pub battery_temp_warning_threshold : ℕ
battery_temp_warning_threshold = 60

unfoldable pub check_alarm_events : Option String → Memory → Checked
check_alarm_events none last = nothing last
check_alarm_events (some status) last = record {
  last = insert "alarm:status" status last;
  sent =
      only (changed (get "alarm:status" last) status && not (str_eq status "delay-armed"))
        (new_event "alarm" status []);
  entered = none;
}

abbrev pub battery_warning : String → ℤ → Event
battery_warning battery charge =
    new_event "battery_warning" "triggered"
      (("battery", text battery) ∷ ("charge", number charge) ∷ [])

abbrev pub temperature_warning : String → ℤ → Event
temperature_warning component temp =
    new_event "temperature_warning" "triggered"
      (("component", text component) ∷ ("temperature", number temp) ∷ [])

unfoldable pub check_battery_events : String → List (String × String) → Memory → Checked
check_battery_events battery fields last =
    let charge_key = str_append battery ":charge" in
    let present_key = str_append battery ":present" in
    let temp_key = str_append battery ":temperature" in
    let charge = parse_int (get "charge" fields) in
    let temp = parse_int (get "temperature" fields) in
    let known =
      insert present_key (get "present" fields) (insert charge_key (get "charge" fields) last) in
    record {
      last = insert temp_key (get "temperature" fields) known;
      sent =
          only
            (str_eq (get "present" fields) "true"
              && (at_most charge battery_warning_threshold
                  && not (str_eq (get charge_key last) (get "charge" fields))))
            (battery_warning battery charge)
          ++ only
              (at_least temp battery_temp_warning_threshold
                && not (str_eq (get temp_key known) (get "temperature" fields)))
              (temperature_warning battery temp);
      entered = none;
    }

unfoldable pub check_cb_battery_events : List (String × String) → Memory → Checked
check_cb_battery_events fields last =
    let charge = parse_int (get "charge" fields) in
    record {
      last = insert "cb-battery:charge" (get "charge" fields) last;
      sent =
          only
            (at_most charge battery_warning_threshold
              && not (str_eq (get "cb-battery:charge" last) (get "charge" fields)))
            (battery_warning "cb-battery" charge);
      entered = none;
    }

abbrev pub state_change : String → String → Event
state_change from to = new_event "state_change" "" (("from", text from) ∷ ("to", text to) ∷ [])

unfoldable pub check_power_events : List (String × String) → Memory → Checked
check_power_events fields last =
    let state = get "state" fields in
    let reason = get "nrf-reset-reason" fields in
    let known = insert "power-manager:state" state last in
    let last_nrf = get "power-manager:nrf-reset-reason" known in
    record {
      last = insert "power-manager:nrf-reset-reason" reason known;
      sent =
          only (changed (get "power-manager:state" last) state)
            (state_change (get "power-manager:state" last) state)
          ++ only (changed last_nrf reason && not (str_eq reason "")) (
              new_event "fault" "triggered" (
                ("type", text "nrf_reset")
                ∷ ("reason", hexadecimal (parse_int reason))
                ∷ ("count", number (parse_int (get "nrf-reset-count" fields)))
                ∷ []));
      entered = none;
    }

unfoldable pub check_connectivity_events : List (String × String) → Memory → Checked
check_connectivity_events fields last =
    let status = get "status" fields in
    record {
      last = insert "internet:status" status last;
      sent = only (changed (get "internet:status" last) status) (
          new_event "connectivity" (if str_eq status "connected" then "regained" else "lost")
            (("status", text status) ∷ []));
      entered = none;
    }

-- While hop-on is active, the vehicle stands by for the cloud.
abbrev pub reported_state : List (String × String) → String
reported_state fields =
    if str_eq (get "hop-on-active" fields) "true" then "stand-by" else get "state" fields

unfoldable pub check_vehicle_state : List (String × String) → Memory → Checked
check_vehicle_state fields last =
    let state = reported_state fields in
    let last_state = get "vehicle:state" last in
    record {
      last = insert "vehicle:state" state last;
      sent = only (changed last_state state) (state_change last_state state);
      entered = if not (str_eq state "") && not (str_eq last_state state) then some state else none;
    }

abbrev pub lock_change : String → String → Event
lock_change lock state =
    new_event "hardware_change" "" (("lock", text lock) ∷ ("state", text state) ∷ [])

unfoldable pub check_locks : List (String × String) → Memory → Checked
check_locks fields last =
    let handlebar = get "handlebar:lock-sensor" fields in
    let seatbox = get "seatbox:lock" fields in
    let known = insert "vehicle:handlebar" handlebar last in
    record {
      last = insert "vehicle:seatbox" seatbox known;
      sent =
          only (changed (get "vehicle:handlebar" last) handlebar)
            (lock_change "handlebar" handlebar)
          ++ only (changed (get "vehicle:seatbox" known) seatbox) (lock_change "seatbox" seatbox);
      entered = none;
    }

unfoldable pub check_vehicle_events : List (String × String) → Memory → Checked
check_vehicle_events fields last =
    let state = check_vehicle_state fields last in
    let locks = check_locks fields state.last in
    record { last = locks.last; sent = state.sent ++ locks.sent; entered = state.entered }

unfoldable pub check_gps_state : List (String × String) → Memory → Checked
check_gps_state fields last =
    let state = get "state" fields in
    record {
      last = insert "gps:state" state last;
      sent = only (changed (get "gps:state" last) state) (
          new_event "gps_event"
            (if str_eq state "fix-3d" || str_eq state "fix-2d" then "regained" else "lost")
            (("state", text state) ∷ []));
      entered = none;
    }

unfoldable pub check_temperature_events : String → List (String × String) → Memory → Checked
check_temperature_events component fields last =
    let temp_key = str_append component ":temperature" in
    let temp = parse_int (get "temperature" fields) in
    record {
      last = insert temp_key (get "temperature" fields) last;
      sent =
          only
            (at_least temp temperature_warning_threshold
              && not (str_eq (get temp_key last) (get "temperature" fields)))
            (temperature_warning component temp);
      entered = none;
    }

-- A message of the fault stream: its text values.
abbrev pub described : Option String → List (String × Value)
described none = []
described (some d) = ("description", text d) ∷ []

abbrev pub fault : Option String → Option String → Option String → List Event
fault (some group) (some code) description =
    new_event "fault" "triggered"
      (("group", text group) ∷ ("code", number (parse_int code)) ∷ described description)
    ∷ []
fault _ _ description = []

unfoldable pub handle_fault_message : List (String × String) → List Event
handle_fault_message values =
    fault (lookup "group" values) (lookup "code" values) (lookup "description" values)
