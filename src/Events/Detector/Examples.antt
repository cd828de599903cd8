-- ===== src/Events/Detector/Examples.antt =====
-- Links, fields and rules, and the theorems of the detector at them.
use radio_gaga.Common.{
  get, lookup, ◌≡◌, refl, Bool, true, false, String, str_eq, List, [], ◌∷◌, ◌++◌, some,
}
use radio_gaga.Events.Types.{Event, new_event}
use radio_gaga.Events.Buffer.{new_buffer}
use radio_gaga.Notifications.Rules.{NotificationRule}
use radio_gaga.Events.Detector.{
  Replies, Memory, only, changed, lock_change, check_locks, initialize_baseline, rule_fields,
  condition_fields,
}
use radio_gaga.Events.Detector.Delivery.{
  Link, EventListener, publications, send_events, send_events_lem,
}
use radio_gaga.Events.Detector.Baseline.{Apart, check_locks-initialize_baseline}

abbrev alarm : Event
alarm = new_event "alarm" "triggered" []

abbrev power : Event
power = new_event "state_change" "" []

abbrev listeners : List EventListener
listeners = record { channel_name = "sms"; should_notify = str_eq "alarm" } ∷ []

abbrev up : Link
up = record { connected = true; accepts = λ e. true }

abbrev down : Link
down = record { connected = false; accepts = λ e. true }

abbrev sends : List (Event × Bool × Link)
sends = (alarm, true, down) ∷ (power, true, up) ∷ (alarm, false, up) ∷ []

send_events_example :
    (publications (send_events listeners true sends (new_buffer (λ b. 1) true 3 [])).1
      ≡ power ∷ alarm ∷ [])
    × ((send_events listeners true sends (new_buffer (λ b. 1) true 3 [])).0.events
        ≡ (new_buffer (λ b. 1) true 3 []).events ++ record { event = alarm; retries = 0 } ∷ [])
send_events_example = send_events_lem listeners true sends (new_buffer (λ b. 1) true 3 [])

abbrev replies : Replies
replies = record {
  now = 9;
  alarm_status = some "triggered";
  vehicle_state = "locked";
  power_state = "running";
}

abbrev locks : List (String × String)
locks = ("state", "locked") ∷ ("handlebar:lock-sensor", "unlocked") ∷ ("seatbox:lock", "open") ∷ []

abbrev rules : List NotificationRule
rules =
    record {
      name = "low";
      conditions =
          record {
            source = "battery:0";
            field = "state";
            operator = "==";
            message = "";
            value = "empty";
          }
          ∷ [];
      channels = [];
      cooldown = "";
      message = "";
    }
    ∷ []

locks_unnamed :
    Apart (λ hash field. some "locked") rules "vehicle:handlebar"
    × Apart (λ hash field. some "locked") rules "vehicle:seatbox"
unfolding rule_fields condition_fields
locks_unnamed = ((refl, tt), (refl, tt))

abbrev locks_opened : List (String × String)
locks_opened = ("handlebar:lock-sensor", "unlocked") ∷ ("seatbox:lock", "open") ∷ []

abbrev at_start : Memory
at_start = initialize_baseline (λ hash field. some "locked") rules []

check_locks-initialize_baseline_example :
    ((check_locks locks at_start).sent ≡ [])
    × ((check_locks locks_opened (check_locks locks at_start).last).sent
        ≡ only
            (changed (get "handlebar:lock-sensor" locks) "unlocked")
            (lock_change "handlebar" "unlocked")
          ++ only (changed (get "seatbox:lock" locks) "open") (lock_change "seatbox" "open"))
unfolding lookup
check_locks-initialize_baseline_example =
    check_locks-initialize_baseline (λ hash field. some "locked") rules locks locks_opened
      locks_unnamed.0 locks_unnamed.1
