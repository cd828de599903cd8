-- ===== src/Client/TelemetryBuffer/Examples.antt =====
-- A client with a small buffer, and the theorems at it.
use radio_gaga.Common.{
  ℕ, ◌≤◌, ◌≡◌, refl, ap, subst, ◌∙◌, true, false, String, List, [], ◌∷◌, Option, none, some, length,
  arith, starts_with,
}
use radio_gaga.Client.TelemetryBuffer.{
  TelemetryData, BufferedTelemetryEvent, TelemetryBuffer, Outside, Client, writes,
  add_telemetry_to_buffer, current_buffer, sent, transmission, transmit_from, loaded,
  transmit_buffer, resolve_timestamps, resolved, retry_from, retry_transmit_buffer,
  create_new_buffer, load_buffer, load_buffer_from_redis, save_buffer_to_redis, reset_buffer,
}
use radio_gaga.Client.TelemetryBuffer.Bounds.{Added, latest, add_telemetry_to_buffer-bound}
use radio_gaga.Client.TelemetryBuffer.Sending.{
  transmit_buffer-load_buffer, retry_transmit_buffer-transmit_buffer,
}

abbrev at_time : String → TelemetryData
at_time t = record { timestamp = t; fields = "{}" }

abbrev event : ℕ → String → BufferedTelemetryEvent
event tries t = record {
  telemetry = at_time t;
  timestamp = 7;
  attempts = tries;
  sequence_id = 1;
  session_id = "s";
}

abbrev outside : Outside
outside = record {
  now = 9;
  redis_reads = true;
  redis_writes = true;
  disk_reads = false;
  disk_write = writes;
  random_id = some "id";
  fallback_id = "batch-9";
  connected = true;
  published = true;
  clock_valid = true;
  resolve = λ s. some "2026-01-01T00:00:00Z";
}

abbrev events : List BufferedTelemetryEvent
events = event 5 "2026-01-01T00:00:00Z" ∷ event 5 "INVALID_RELATIVE:3" ∷ []

abbrev buffer : TelemetryBuffer
buffer = record {
  events = events;
  batch_id = "b";
  created_at = 1;
  sequence_counter = 2;
  last_system_time = 7;
  session_id = "s";
}

abbrev client : Client
client = record {
  enabled = true;
  max_size = 3;
  max_retries = 5;
  persist_path = "/data/buffer.json";
  session_id = "s";
  buffer = some buffer;
  redis = some buffer;
  disk = none;
}

two_events : length (current_buffer outside client).events ≤ 3
unfolding current_buffer
two_events = omega arith

add_telemetry_to_buffer-bound_example :
    (b : TelemetryBuffer) × ((add_telemetry_to_buffer outside (at_time "now") client).buffer
      ≡ some b)
    × (length b.events ≤ 3)
    × Added client (at_time "now") (latest b.events)
add_telemetry_to_buffer-bound_example =
    add_telemetry_to_buffer-bound outside (at_time "now") client refl (omega arith) two_events

abbrev text : Option String → String
text none = ""
text (some t) = t

date_is_absolute :
    (s t : String)
    → some "2026-01-01T00:00:00Z" ≡ some t
    → starts_with t "INVALID_RELATIVE:" ≡ false
date_is_absolute s t h = subst (λ u. starts_with u "INVALID_RELATIVE:" ≡ false) (ap text h) refl

abbrev dated : List BufferedTelemetryEvent
dated = event 5 "2026-01-01T00:00:00Z" ∷ event 5 "2026-01-01T00:00:00Z" ∷ []

client_sends : (transmit_buffer outside client).1 ≡ some (sent dated)
unfolding transmit_buffer transmit_from loaded transmission resolve_timestamps resolved
client_sends = refl

transmit_buffer-load_buffer_example :
    ((transmit_buffer outside client).0.buffer ≡ some (create_new_buffer outside "s"))
    × (load_buffer outside (transmit_buffer outside client).0 ≡ create_new_buffer outside "s")
transmit_buffer-load_buffer_example =
    transmit_buffer-load_buffer outside outside client dated client_sends refl refl

retry_transmit_buffer-transmit_buffer_example :
    (transmit_buffer outside (retry_transmit_buffer outside client).0).1
    ≡ (transmit_buffer outside client).1
retry_transmit_buffer-transmit_buffer_example =
    retry_transmit_buffer-transmit_buffer outside outside client buffer refl

-- The retry has given up and emptied what Redis holds, and the events are sent all the same.
sent_after_giving_up :
    ((retry_transmit_buffer outside client).0.redis ≡ some (create_new_buffer outside "s"))
    × ((transmit_buffer outside (retry_transmit_buffer outside client).0).1 ≡ some (sent dated))
unfolding retry_transmit_buffer retry_from load_buffer_from_redis save_buffer_to_redis reset_buffer
sent_after_giving_up = (refl, retry_transmit_buffer-transmit_buffer_example ∙ client_sends)
