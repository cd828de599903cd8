-- ===== src/Client/TelemetryBuffer/Stores.antt =====
-- The data of internal/client/telemetry_buffer.go, and how the buffer is created, loaded and saved.
use radio_gaga.Common.{ℕ, Bool, String, str_eq, List, [], Option, none, some, if◌then◌else◌}

-- `models.TelemetryData`: its timestamp, and all else.
pub record TelemetryData : Type 0 where
  pub timestamp : String
  pub fields : String

pub record BufferedTelemetryEvent : Type 0 where
  pub telemetry : TelemetryData
  pub timestamp : ℕ
  pub attempts : ℕ
  pub sequence_id : ℕ
  pub session_id : String

pub record TelemetryBuffer : Type 0 where
  pub events : List BufferedTelemetryEvent
  pub batch_id : String
  pub created_at : ℕ
  pub sequence_counter : ℕ
  pub last_system_time : ℕ
  pub session_id : String

-- `os.WriteFile` replaces the file, or fails and leaves it as it was or spoiled.
pub data DiskWrite : Type 0 where
  writes : DiskWrite
  leaves : DiskWrite
  spoils : DiskWrite

-- What a call finds outside: the clock, the stores, the broker, a random identifier, and the wall time
-- that an offset since the start of the session stands for, once the clock is valid.
pub record Outside : Type 0 where
  pub now : ℕ
  pub redis_reads : Bool
  pub redis_writes : Bool
  pub disk_reads : Bool
  pub disk_write : DiskWrite
  pub random_id : Option String
  pub fallback_id : String
  pub connected : Bool
  pub published : Bool
  pub clock_valid : Bool
  pub resolve : String → Option String

-- The fields of `ScooterMQTTClient` that the buffer uses, its configuration, and the two stores.
pub record Client : Type 0 where
  pub enabled : Bool
  pub max_size : ℕ
  pub max_retries : ℕ
  pub persist_path : String
  pub session_id : String
  pub buffer : Option TelemetryBuffer
  pub redis : Option TelemetryBuffer
  pub disk : Option TelemetryBuffer

abbrev pub or_id : String → Option String → String
or_id s none = s
or_id s (some t) = t

unfoldable pub create_new_buffer : Outside → String → TelemetryBuffer
create_new_buffer o session = record {
  events = [];
  batch_id = or_id o.fallback_id o.random_id;
  created_at = o.now;
  sequence_counter = 0;
  last_system_time = o.now;
  session_id = session;
}

unfoldable pub load_buffer_from_redis : Outside → Client → Option TelemetryBuffer
load_buffer_from_redis o c = if o.redis_reads then c.redis else none

unfoldable pub load_buffer_from_disk : Outside → Client → Option TelemetryBuffer
load_buffer_from_disk o c =
    if str_eq c.persist_path "" then none else (if o.disk_reads then c.disk else none)

unfoldable pub save_buffer_to_redis : Outside → TelemetryBuffer → Client → Client
save_buffer_to_redis o b c = if o.redis_writes then record c { redis = some b } else c

abbrev pub written : DiskWrite → TelemetryBuffer → Option TelemetryBuffer → Option TelemetryBuffer
written writes b before = some b
written leaves b before = before
written spoils b before = none

unfoldable pub save_buffer_to_disk : Outside → TelemetryBuffer → Client → Client
save_buffer_to_disk o b c =
    if str_eq c.persist_path "" then c else record c { disk = written o.disk_write b c.disk }

abbrev pub first_of :
    Option TelemetryBuffer → Option TelemetryBuffer → TelemetryBuffer → TelemetryBuffer
first_of (some b) _ _ = b
first_of none (some b) _ = b
first_of none none b = b

-- The buffer that was stored, or a new one.
unfoldable pub load_buffer : Outside → Client → TelemetryBuffer
load_buffer o c =
    first_of (load_buffer_from_redis o c) (load_buffer_from_disk o c)
      (create_new_buffer o c.session_id)
