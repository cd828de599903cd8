-- ===== src/Events/Movement/Examples.antt =====
-- A scooter on a line, where a latitude is a number of metres, and a trigger of it.
use radio_gaga.Common.{
  ℕ, ◌+◌, ◌-◌, ◌≡◌, refl, false, String, List, [], ◌∷◌, some, ltb, leb, ◌==◌, lookup, ℤ, pos,
  negsuc, parse_int, decimal, parse_codes,
}
use radio_gaga.Events.Movement.{
  Geo, GpsSample, MovementMonitor, Trigger, fix_of, on_gps_update, update_at, parse_lat_lng,
  detection_armed, evaluate_fix, displaced, check_displacement,
}

abbrev whole : ℤ → ℕ
whole (pos n) = n
whole (negsuc n) = 0

abbrev pub line : Geo
line = record {
  float = ℕ;
  parse_float = λ s. some (whole (parse_int s));
  is_zero = λ n. n == 0;
  distance = λ (a, _) (b, _). (a - b) + (b - a);
  below = ltb;
  above = λ d n. ltb n d;
  reaches = λ d n. leb n d;
  smooth = λ s last. s;
}

abbrev pub gps_at : String → List (String × String)
gps_at lat = ("state", "fix-established") ∷ ("latitude", lat) ∷ ("longitude", "1") ∷ []

abbrev pub anchored_at_100 : GpsSample line
anchored_at_100 = record { point = (100, 1); at = 10 }

abbrev pub trigger : Trigger line
trigger = record {
  trigger_anchor = anchored_at_100;
  vehicle_state = "stand-by";
  power_state = "running";
}

abbrev monitor : MovementMonitor line
monitor = record {
  anchor = some anchored_at_100;
  anchor_state = "stand-by";
  state_entered_at = some 5;
  confirming = false;
  cooldown_until = some 30;
}

triggered : (on_gps_update line 40 (gps_at "130") "stand-by" "running" monitor).1 ≡ some trigger
unfolding on_gps_update update_at fix_of parse_lat_lng detection_armed evaluate_fix displaced
    check_displacement lookup parse_int decimal parse_codes
triggered = refl
