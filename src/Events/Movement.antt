-- ===== src/Events/Movement.antt =====
-- internal/events/movement.go: a parked scooter that moves is watched for a minute before an event goes
-- out. Floating-point numbers are the parameter `Geo`; distances come from it and are compared with whole
-- metres. Times are seconds. The critical sections of the monitor's mutex are steps, and the clock
-- stands still in each. Confirmation.antt models the goroutine that a trigger starts.
pub mod Examples
use radio_gaga.Common.{
  ℕ, zero, suc, ◌+◌, ◌-◌, ◌≡◌, Bool, true, false, not, ◌&&◌, ◌||◌, String, str_eq, List, [], ◌∷◌,
  ◌++◌, Option, none, some, if◌then◌else◌, ltb, leb, get, or_else, member, length, ℤ,
}

-- What the monitor uses of Go's floating-point numbers: `strconv.ParseFloat`, the great-circle distance
-- in metres, its comparisons with whole metres (a distance that is not a number is
-- neither below, nor above, nor reaches them), and one step of the smoothing.
pub record Geo : Type 1 where
  pub float : Type 0
  pub parse_float : String → Option float
  pub is_zero : float → Bool
  pub distance : float × float → float × float → float
  pub below : float → ℕ → Bool
  pub above : float → ℕ → Bool
  pub reaches : float → ℕ → Bool
  pub smooth : float × float → float × float → float × float

abbrev pub unattended_vehicle_states : List String
unattended_vehicle_states = "stand-by" ∷ "locked" ∷ []

abbrev pub transitional_vehicle_states : List String
transitional_vehicle_states =
    "parked" ∷ "ready-to-drive" ∷ "shutting-down" ∷ "waiting-seatbox" ∷ "waiting-hibernation"
    ∷ "waiting-hibernation-advanced" ∷ "waiting-hibernation-seatbox" ∷ "waiting-hibernation-confirm"
    ∷ "updating" ∷ []

abbrev pub hibernating_power_states : List String
hibernating_power_states =
    "hibernating" ∷ "hibernating-imminent" ∷ "hibernating-manual" ∷ "hibernating-manual-imminent"
    ∷ "hibernating-timer" ∷ "hibernating-timer-imminent" ∷ "suspending" ∷ "suspending-imminent"
    ∷ "booting" ∷ []

-- `rearmCooldown` and `stateStabilityRequirement`, in seconds.
abbrev pub rearm_cooldown : ℕ
rearm_cooldown = 120

abbrev pub stability_requirement : ℕ
stability_requirement = 30

unfoldable pub detection_armed : String → String → Bool
detection_armed vehicle power =
    if member vehicle transitional_vehicle_states
    then false
    else (if not (member vehicle unattended_vehicle_states)
        then false
        else not (member power hibernating_power_states))

module _ (geo : Geo) where
  abbrev pub Point : Type 0
  Point = geo.float × geo.float

  pub record GpsSample : Type 0 where
    pub point : Point
    pub at : ℕ

  -- A zero `time.Time` is `none`.
  pub record MovementMonitor : Type 0 where
    pub anchor : Option GpsSample
    pub anchor_state : String
    pub state_entered_at : Option ℕ
    pub confirming : Bool
    pub cooldown_until : Option ℕ

  unfoldable pub new_movement_monitor : MovementMonitor
  new_movement_monitor = record {
    anchor = none;
    anchor_state = "";
    state_entered_at = none;
    confirming = false;
    cooldown_until = none;
  }

  abbrev pub point_of : Option geo.float → Option geo.float → Option Point
  point_of (some lat) (some lng) =
      if geo.is_zero lat && geo.is_zero lng then none else some (lat, lng)
  point_of _ _ = none

  unfoldable pub parse_lat_lng : List (String × String) → Option Point
  parse_lat_lng fields =
      if str_eq (get "latitude" fields) "" || str_eq (get "longitude" fields) ""
      then none
      else point_of (geo.parse_float (get "latitude" fields))
          (geo.parse_float (get "longitude" fields))

  -- The fix that both entry points ask for first.
  unfoldable pub fix_of : List (String × String) → Option Point
  fix_of fields =
      if str_eq (get "state" fields) "fix-established" then parse_lat_lng fields else none

  unfoldable pub on_vehicle_state_change : ℕ → String → MovementMonitor → MovementMonitor
  on_vehicle_state_change now new_state m = record m {
    anchor = none;
    anchor_state = new_state;
    state_entered_at = some now;
    cooldown_until = none;
  }

  abbrev pub before : ℕ → Option ℕ → Bool
  before now none = false
  before now (some t) = ltb now t

  -- Seconds since a time; the zero time is longer ago than any duration.
  abbrev pub stable : ℕ → Option ℕ → Bool
  stable now none = true
  stable now (some t) = leb stability_requirement (now - t)

  -- A confirmation that starts: its anchor, and the states at the trigger.
  pub record Trigger : Type 0 where
    pub trigger_anchor : GpsSample
    pub vehicle_state : String
    pub power_state : String

  abbrev pub re_anchor : ℕ → Point → MovementMonitor → MovementMonitor
  re_anchor now p m = record m { anchor = some (record { point = p; at = now }) }

  -- The first anchor in a state.
  unfoldable pub set_anchor : ℕ → Point → String → MovementMonitor → MovementMonitor
  set_anchor now p vehicle m = record m {
    anchor = some (record { point = p; at = now });
    anchor_state = vehicle;
    state_entered_at = some (or_else now m.state_entered_at);
  }

  unfoldable pub check_displacement :
      ℕ → Point → String → String → GpsSample → MovementMonitor → MovementMonitor × Option Trigger
  check_displacement now p vehicle power a m =
      if not (stable now m.state_entered_at)
      then (m, none)
      else (if geo.below (geo.distance a.point p) 20
          then (m, none)
          else (if geo.above (geo.distance a.point p) 5000 then (re_anchor now p m, none) else (
            record m { confirming = true },
            some (record { trigger_anchor = a; vehicle_state = vehicle; power_state = power }),
          )))

  abbrev pub anchored_in : Option GpsSample → String → String → Option GpsSample
  anchored_in none state vehicle = none
  anchored_in (some a) state vehicle = if str_eq state vehicle then some a else none

  unfoldable pub displaced :
      ℕ
      → Point
      → String
      → String
      → Option GpsSample
      → MovementMonitor
      → MovementMonitor × Option Trigger
  displaced now p vehicle power none m = (set_anchor now p vehicle m, none)
  displaced now p vehicle power (some a) m = check_displacement now p vehicle power a m

  -- The critical section of `OnGPSUpdate`, at a fix.
  unfoldable pub evaluate_fix :
      ℕ → Point → String → String → MovementMonitor → MovementMonitor × Option Trigger
  evaluate_fix now p vehicle power m =
      if before now m.cooldown_until || m.confirming
      then (m, none)
      else displaced now p vehicle power (anchored_in m.anchor m.anchor_state vehicle) m

  unfoldable pub update_at :
      ℕ → Option Point → String → String → MovementMonitor → MovementMonitor × Option Trigger
  update_at now none vehicle power m = (m, none)
  update_at now (some p) vehicle power m =
      if detection_armed vehicle power then evaluate_fix now p vehicle power m else (m, none)

  -- `vehicle` and `power` are the replies of Redis, empty where it fails.
  unfoldable pub on_gps_update :
      ℕ
      → List (String × String)
      → String
      → String
      → MovementMonitor
      → MovementMonitor × Option Trigger
  on_gps_update now fields vehicle power m = update_at now (fix_of fields) vehicle power m
