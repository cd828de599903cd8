-- ===== src/Events/Confirmation.antt =====
-- internal/events/movement.go: the confirmation that a trigger starts. The goroutine is one reading after
-- another, then its end; the event that says the verdict is left out.
mod Confirming
mod Running
mod Examples
use radio_gaga.Common.{
  ℕ, zero, suc, ◌+◌, ◌-◌, ◌*◌, ◌/◌, ◌%◌, ◌^◌, ◌≤◌, ◌<◌, ◌≡◌, ◌≢◌, ◌↔◌, ◌⊎◌, inl, inr, refl, sym, ap,
  subst, ◌∙◌, Bool, true, false, not, ◌&&◌, ◌||◌, String, str_eq, str_eq_iff, str_eq_differs,
  str_append, starts_with, List, [], ◌∷◌, ◌++◌, map, Option, none, some, if◌then◌else◌, if-true,
  ltb, leb, ◌==◌, ==_iff, or_else, get, lookup, insert, delete, lookup-insert, length-insert,
  insert-All, member, length, take, drop, length-append, length-drop, drop-append_length, is_empty,
  any, All, All-append, All-iff, Bool-cases, Option-cases, is_some, ℤ, pos, negsuc, at_most,
  at_least, codes, parse_int, arith,
}
use radio_gaga.Events.Movement.{
  Geo, GpsSample, MovementMonitor, Trigger, fix_of, re_anchor, rearm_cooldown,
}

-- `confirmationSampleCount` and `confirmationMinConsistent`.
abbrev pub sample_count : ℕ
sample_count = 12

abbrev pub min_consistent : ℕ
min_consistent = 6

pub data Rejection : Type 0 where
  lost_fix_or_state_change : Rejection
  below_threshold : Rejection
  inconsistent_movement : Rejection

module _ (geo : Geo) where
  abbrev Point : Type 0
  Point = geo.float × geo.float

  -- One sample of a confirmation: the gps hash, `none` where it cannot be read, and the vehicle's state.
  pub record Reading : Type 0 where
    pub gps : Option (List (String × String))
    pub vehicle : String
    pub read_at : ℕ

  abbrev pub fix_read : Option (List (String × String)) → Option Point
  fix_read none = none
  fix_read (some fields) = fix_of geo fields

  -- `collect`: the samples, and whether the confirmation goes on.
  unfoldable pub collect_fix :
      Trigger geo → Reading → Option Point → List (GpsSample geo) → List (GpsSample geo) × Bool
  collect_fix t r none samples = (samples, false)
  collect_fix t r (some p) samples =
      if geo.above (geo.distance t.trigger_anchor.point p) 5000
      then (samples, false)
      else (samples ++ record { point = p; at = r.read_at } ∷ [], str_eq r.vehicle t.vehicle_state)

  unfoldable pub collect :
      Trigger geo → Reading → List (GpsSample geo) → List (GpsSample geo) × Bool
  collect t r samples = collect_fix t r (fix_read r.gps) samples

  pub data Gathered : Type 0 where
    lost : List (GpsSample geo) → Gathered
    cancelled : Gathered
    complete : List (GpsSample geo) → Gathered

  -- The first sample and the ticks; the readings end where the context is cancelled.
  unfoldable pub gather : ℕ → Trigger geo → List Reading → List (GpsSample geo) → Gathered
  gather zero t readings samples = complete samples
  gather (suc n) t [] samples = cancelled
  gather (suc n) t (r ∷ readings) samples =
      let (after, goes_on) = collect t r samples in
      let rest = gather n t readings after in if goes_on then rest else lost after

  unfoldable pub smooth_from : GpsSample geo → List (GpsSample geo) → List (GpsSample geo)
  smooth_from last [] = []
  smooth_from last (s ∷ ss) =
      let next = record s { point = geo.smooth s.point last.point } in next ∷ smooth_from next ss

  unfoldable pub ema_smooth : List (GpsSample geo) → List (GpsSample geo)
  ema_smooth [] = []
  ema_smooth (s ∷ ss) = s ∷ smooth_from s ss

  -- Segments of 3 metres and more.
  unfoldable pub consistent_segments : List (GpsSample geo) → ℕ
  consistent_segments [] = 0
  consistent_segments (s ∷ []) = 0
  consistent_segments (s ∷ t ∷ ss) =
      (if geo.reaches (geo.distance s.point t.point) 3 then 1 else 0) + consistent_segments (t ∷ ss)

  abbrev pub last_of : GpsSample geo → List (GpsSample geo) → GpsSample geo
  last_of s [] = s
  last_of s (t ∷ ss) = last_of t ss

  pub data Verdict : Type 0 where
    confirmed : GpsSample geo → Verdict
    rejected : Rejection → Verdict
    no_verdict : Verdict

  unfoldable pub judge : Trigger geo → List (GpsSample geo) → Verdict
  judge t samples =
      let smoothed = ema_smooth samples in
      let consistent = consistent_segments smoothed in
      let last = last_of t.trigger_anchor smoothed in
      if leb min_consistent consistent
        && geo.reaches (geo.distance t.trigger_anchor.point last.point) 30
      then confirmed last
      else rejected
          (if ltb consistent min_consistent then inconsistent_movement else below_threshold)

  unfoldable pub verdict_of : Trigger geo → Gathered → Verdict
  verdict_of t (lost samples) = rejected lost_fix_or_state_change
  verdict_of t cancelled = no_verdict
  verdict_of t (complete samples) = judge t samples

  unfoldable pub run_confirmation : Trigger geo → List Reading → Verdict
  run_confirmation t readings = verdict_of t (gather sample_count t readings [])

  -- Behind a confirmed verdict, the anchor moves to the last sample.
  unfoldable pub move_anchor : ℕ → Verdict → MovementMonitor geo → MovementMonitor geo
  move_anchor now (confirmed last) m = re_anchor geo now last.point m
  move_anchor now (rejected why) m = m
  move_anchor now no_verdict m = m

  -- The deferred function.
  unfoldable pub cool_down : ℕ → MovementMonitor geo → MovementMonitor geo
  cool_down now m = record m { confirming = false; cooldown_until = some (now + rearm_cooldown) }
