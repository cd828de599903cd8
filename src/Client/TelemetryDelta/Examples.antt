-- ===== src/Client/TelemetryDelta/Examples.antt =====
-- Two nested maps and some calls, and the theorems at them.
use radio_gaga.Common.{
  ℕ, ◌≤◌, ◌≡◌, refl, false, [], ◌∷◌, none, some, ltb, leb, ◌==◌, or_else, is_some,
}
use radio_gaga.Events.Movement.{Geo}
use radio_gaga.Client.TelemetryDelta.{
  Answer, timed_out, confirmed, value, object, Fields, end, field, find_field, compute_delta, gone,
  diff_value, diff_fields, never_sent, full_resync_every, dotted,
}
use radio_gaga.Client.TelemetryDelta.RoundTrip.{compute_delta-received}
use radio_gaga.Client.TelemetryDelta.Received.{received, find, DistinctFields}
use radio_gaga.Client.TelemetryDelta.Resync.{Call, calls, calls-never_sent}

abbrev before : Fields
before = field "state" (value "parked") (
    field "gps" (object (field "lat" (value "52") (field "speed" (value "3") end)))
      (field "fault" (value "7") end))

abbrev now : Fields
now =
    field "state" (value "parked")
      (field "gps" (object (field "lat" (value "53") end)) (field "lock" (value "open") end))

now-DistinctFields : DistinctFields now
unfolding find_field
now-DistinctFields = (refl, tt, (refl, (refl, tt, tt), (refl, tt, tt)))

compute_delta-received_example :
    received
      ("gps" ∷ "speed" ∷ [])
      (some (object before))
      (some (object (compute_delta before now).0), (compute_delta before now).1)
    ≡ find ("gps" ∷ "speed" ∷ []) (some (object now))
compute_delta-received_example =
    compute_delta-received before now ("gps" ∷ "speed" ∷ []) now-DistinctFields

nested_delta : compute_delta before now ≡ (
  field "gps" (object (field "lat" (value "53") end)) (field "lock" (value "open") end),
  ("gps" ∷ "speed" ∷ []) ∷ ("fault" ∷ []) ∷ [],
)
unfolding compute_delta diff_fields diff_value find_field gone
nested_delta = refl

dotted_speed : dotted "" ("gps" ∷ "speed" ∷ []) ≡ "gps.speed"
dotted_speed = refl

abbrev plane : Geo
plane = record {
  float = ℕ;
  parse_float = λ s. none;
  is_zero = λ n. n == 0;
  distance = λ a b. 9;
  below = ltb;
  above = λ d n. ltb n d;
  reaches = λ d n. leb n d;
  smooth = λ a b. a;
}

abbrev call : Answer → Call plane
call answer = record {
  answer = λ p. answer;
  current = record { state = "parked"; gps = (52, 13); to_map = λ p. now };
  force_full = false;
}

calls-never_sent_example :
    (or_else 0
        (calls plane
          (call timed_out ∷ call confirmed ∷ call confirmed ∷ [])
          (never_sent plane)
          none).1
      ≤ full_resync_every)
    × (is_some
          (calls plane
            (call timed_out ∷ call confirmed ∷ call confirmed ∷ [])
            (never_sent plane)
            none).0.last_sent_map
        ≡ is_some
            (calls plane
              (call timed_out ∷ call confirmed ∷ call confirmed ∷ [])
              (never_sent plane)
              none).1)
calls-never_sent_example =
    calls-never_sent plane (call timed_out ∷ call confirmed ∷ call confirmed ∷ [])
