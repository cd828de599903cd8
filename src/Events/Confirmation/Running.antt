-- ===== src/Events/Confirmation/Running.antt =====
-- How many confirmations of internal/events/movement.go run at a time.
use radio_gaga.Common.{
  if_both, ℕ, ◌+◌, ◌-◌, ◌≤◌, ◌≡◌, inl, inr, refl, Bool, false, ◌||◌, String, List, [], ◌∷◌, Option,
  none, some, if◌then◌else◌, ◌==◌, Bool-cases, arith,
}
use radio_gaga.Events.Movement.{
  Geo, GpsSample, MovementMonitor, Trigger, update_at, new_movement_monitor, fix_of,
  detection_armed, before, check_displacement, displaced, evaluate_fix, on_gps_update,
  on_vehicle_state_change, set_anchor,
}
use radio_gaga.Events.Confirmation.{
  cool_down, Verdict, confirmed, rejected, no_verdict, move_anchor,
}

last_run : (n : ℕ) (flag : Bool) → n ≡ (if flag then 1 else 0) → n - 1 ≡ 0
last_run n flag h = ground (arith, h)

||_false_right : (a b : Bool) → (a || b) ≡ false → b ≡ false
||_false_right a b h = ground arith

module _ (geo : Geo) where
  -- What happens to a monitor: the vehicle changes state, the gps hash changes, or a confirmation comes to
  -- its verdict or ends.
  pub data Action : Type 0 where
    state_changes : ℕ → String → Action
    gps_changes : ℕ → List (String × String) → String → String → Action
    gives_verdict : ℕ → Verdict geo → Action
    confirmation_ends : ℕ → Action

  -- The monitor, and how many confirmations run.
  pub record Watching : Type 0 where
    pub monitor : MovementMonitor geo
    pub running : ℕ

  abbrev pub started_by : Option (Trigger geo) → ℕ
  started_by none = 0
  started_by (some t) = 1

  unfoldable pub act : Action → Watching → Watching
  act (state_changes now s) w = record w { monitor = on_vehicle_state_change geo now s w.monitor }
  act (gps_changes now fields vehicle power) w =
      let (m, started) = on_gps_update geo now fields vehicle power w.monitor in
      record { monitor = m; running = w.running + started_by started }
  act (gives_verdict now v) w =
      if w.running == 0 then w else record w { monitor = move_anchor geo now v w.monitor }
  act (confirmation_ends now) w =
      if w.running == 0
      then w
      else record { monitor = cool_down geo now w.monitor; running = w.running - 1 }

  unfoldable pub acts : List Action → Watching → Watching
  acts [] w = w
  acts (a ∷ as') w = acts as' (act a w)

  -- The flag says whether a confirmation runs.
  abbrev Flagged : Watching → Type 0
  Flagged w = w.running ≡ (if w.monitor.confirming then 1 else 0)

  abbrev Counted : MovementMonitor geo → MovementMonitor geo × Option (Trigger geo) → Type 0
  Counted m (after, started) =
      (if after.confirming then 1 else 0) ≡ (if m.confirming then 1 else 0) + started_by started

  check_displacement-Counted :
      (now : ℕ) (p : geo.float × geo.float) (vehicle power : String) (a : GpsSample geo)
      (m : MovementMonitor geo)
      → m.confirming ≡ false
      → Counted m (check_displacement geo now p vehicle power a m)
  unfolding check_displacement
  check_displacement-Counted now p vehicle power a m h = ground (arith, h)

  displaced-Counted :
      (now : ℕ) (p : geo.float × geo.float) (vehicle power : String) (o : Option (GpsSample geo))
      (m : MovementMonitor geo)
      → m.confirming ≡ false
      → Counted m (displaced geo now p vehicle power o m)
  unfolding displaced set_anchor
  displaced-Counted now p vehicle power none m h = omega arith
  displaced-Counted now p vehicle power (some a) m h =
      check_displacement-Counted now p vehicle power a m h

  evaluate_fix-Counted :
      (now : ℕ) (p : geo.float × geo.float) (vehicle power : String) (m : MovementMonitor geo)
      → Counted m (evaluate_fix geo now p vehicle power m)
  unfolding evaluate_fix
  evaluate_fix-Counted now p vehicle power m =
      elim (Bool-cases (before geo now m.cooldown_until || m.confirming)) [
        | inl e ↦ simp e (omega arith)
        | inr e ↦ simp e (displaced-Counted now p vehicle power _ m (||_false_right _ _ e))
      ]

  update_at-Counted :
      (now : ℕ) (o : Option (geo.float × geo.float)) (vehicle power : String)
      (m : MovementMonitor geo)
      → Counted m (update_at geo now o vehicle power m)
  unfolding update_at
  update_at-Counted now none vehicle power m = omega arith
  update_at-Counted now (some p) vehicle power m =
      elim (Bool-cases (detection_armed vehicle power)) [
        | inl e ↦ simp e (evaluate_fix-Counted now p vehicle power m)
        | inr e ↦ simp e (omega arith)
      ]

  move_anchor-confirming :
      (now : ℕ) (v : Verdict geo) (m : MovementMonitor geo)
      → (move_anchor geo now v m).confirming ≡ m.confirming
  unfolding move_anchor
  move_anchor-confirming now (confirmed last) m = refl
  move_anchor-confirming now (rejected why) m = refl
  move_anchor-confirming now no_verdict m = refl

  act-Flagged : (a : Action) (w : Watching) → Flagged w → Flagged (act a w)
  unfolding act on_vehicle_state_change on_gps_update cool_down
  act-Flagged (state_changes now s) w h = h
  act-Flagged (gps_changes now fields vehicle power) w h =
      omega (arith, h, update_at-Counted now (fix_of geo fields) vehicle power w.monitor)
  act-Flagged (gives_verdict now v) w h =
      if_both Flagged (w.running == 0) h (simp (move_anchor-confirming now v w.monitor) h)
  act-Flagged (confirmation_ends now) w h =
      if_both Flagged (w.running == 0) h (last_run w.running w.monitor.confirming h)

  acts-Flagged : (as' : List Action) (w : Watching) → Flagged w → Flagged (acts as' w)
  unfolding acts
  acts-Flagged [] w h = h
  acts-Flagged (a ∷ as') w h = acts-Flagged as' (act a w) (act-Flagged a w h)

  unfoldable pub unwatched : Watching
  unwatched = record { monitor = new_movement_monitor geo; running = 0 }

  flag-le : (w : Watching) → Flagged w → w.running ≤ 1
  flag-le w h = ground (arith, h)

  -- In any order of state changes, gps updates, verdicts and ends of confirmations, no two confirmations run at a
  -- time, and the flag of the monitor says whether one does.
  pub acts-one_confirmation :
      (as' : List Action)
      → ((acts as' unwatched).running ≤ 1)
        × ((acts as' unwatched).running
            ≡ (if (acts as' unwatched).monitor.confirming then 1 else 0))
  unfolding unwatched new_movement_monitor
  acts-one_confirmation as' =
      let flagged = acts-Flagged as' unwatched refl in
      (flag-le (acts as' unwatched) flagged, flagged)
