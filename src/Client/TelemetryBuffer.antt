-- ===== src/Client/TelemetryBuffer.antt =====
-- internal/client/telemetry_buffer.go: telemetry that waits for a transmission, in memory, in Redis and
-- on disk. `s.buffer` is shared by the functions that use it; what `loadBufferFromRedis` and
-- `loadBufferFromDisk` return is a copy of its own. A stored buffer that cannot be read, does not parse
-- or has an event without data is `none`.
mod Stores
mod Bounds
mod Sending
mod Examples
unfoldable pub use Stores.*
use radio_gaga.Common.{
  ℕ, zero, suc, ◌+◌, ◌^◌, ◌%◌, ◌==◌, Bool, true, false, not, ◌&&◌, ◌||◌, String, str_eq, str_append,
  starts_with, List, [], ◌∷◌, ◌++◌, Option, none, some, if◌then◌else◌, ltb, leb, length, is_empty,
  map, any, is_some,
}

unfoldable pub init_telemetry_buffer : Outside → Client → Client
init_telemetry_buffer o c =
    if c.enabled
    then save_buffer_to_redis o (load_buffer o c) (record c { buffer = some (load_buffer o c) })
    else c

abbrev pub relative : BufferedTelemetryEvent → Bool
relative e = starts_with e.telemetry.timestamp "INVALID_RELATIVE:"

unfoldable pub drop_relative : List BufferedTelemetryEvent → List BufferedTelemetryEvent
drop_relative [] = []
drop_relative (e ∷ es) = let rest = drop_relative es in if relative e then rest else e ∷ rest

unfoldable pub handle_cross_session_buffer : TelemetryBuffer → TelemetryBuffer
handle_cross_session_buffer b = record b { events = drop_relative b.events }

-- Every second event between the first and the last one.
abbrev pub every_second : List BufferedTelemetryEvent → List BufferedTelemetryEvent
every_second [] = []
every_second (x ∷ []) = x ∷ []
every_second (x ∷ y ∷ xs) = x ∷ every_second xs

abbrev pub split_last :
    BufferedTelemetryEvent
    → List BufferedTelemetryEvent
    → List BufferedTelemetryEvent × BufferedTelemetryEvent
split_last x [] = ([], x)
split_last x (y ∷ ys) = let (middle, last) = split_last y ys in (x ∷ middle, last)

unfoldable pub subsample : List BufferedTelemetryEvent → List BufferedTelemetryEvent
subsample [] = []
subsample (x ∷ []) = x ∷ []
subsample (x ∷ y ∷ []) = x ∷ y ∷ []
subsample (x ∷ y ∷ z ∷ xs) =
    let (middle, last) = split_last y (z ∷ xs) in x ∷ every_second middle ++ last ∷ []

-- `addTelemetryToBuffer` on the buffer, before it is stored.
unfoldable pub adopt : Client → TelemetryBuffer → TelemetryBuffer
adopt c b =
    if not (str_eq b.session_id "")
      && (not (str_eq b.session_id c.session_id) && not (is_empty b.events))
    then handle_cross_session_buffer b
    else b

abbrev pub next_sequence : TelemetryBuffer → ℕ
next_sequence b = (b.sequence_counter + 1) % 2 ^ 64

abbrev pub new_event : Outside → Client → TelemetryData → TelemetryBuffer → BufferedTelemetryEvent
new_event o c telemetry b = record {
  telemetry = telemetry;
  timestamp = o.now;
  attempts = 0;
  sequence_id = next_sequence b;
  session_id = c.session_id;
}

unfoldable pub append_event : Outside → Client → TelemetryData → TelemetryBuffer → TelemetryBuffer
append_event o c telemetry b =
    let events = b.events ++ new_event o c telemetry b ∷ [] in
    record b {
      events = if ltb c.max_size (length events) then subsample events else events;
      sequence_counter = next_sequence b;
      last_system_time = o.now;
      session_id = c.session_id;
    }

unfoldable pub current_buffer : Outside → Client → TelemetryBuffer
current_buffer o c = elim c.buffer [ some b ↦ b | none ↦ load_buffer o c ]

unfoldable pub persist_added : Outside → TelemetryBuffer → Client → Client
persist_added o b c =
    if o.redis_writes then save_buffer_to_redis o b c else save_buffer_to_disk o b c

unfoldable pub add_telemetry_to_buffer : Outside → TelemetryData → Client → Client
add_telemetry_to_buffer o telemetry c =
    let b = append_event o c telemetry (adopt c (current_buffer o c)) in
    if c.enabled then persist_added o b (record c { buffer = some b }) else c

unfoldable pub reset_buffer : Outside → String → TelemetryBuffer → TelemetryBuffer
reset_buffer o session b = create_new_buffer o session

-- `resolveTimestampsBeforeTransmit`.
abbrev pub with_timestamp : Option String → BufferedTelemetryEvent → List BufferedTelemetryEvent
with_timestamp none e = []
with_timestamp (some t) e = record e { telemetry = record e.telemetry { timestamp = t } } ∷ []

unfoldable pub resolved : Outside → String → BufferedTelemetryEvent → List BufferedTelemetryEvent
resolved o session e =
    if not (relative e)
    then e ∷ []
    else (if o.clock_valid && str_eq e.session_id session
        then with_timestamp (o.resolve e.telemetry.timestamp) e
        else [])

unfoldable pub resolve_timestamps :
    Outside → String → List BufferedTelemetryEvent → List BufferedTelemetryEvent
resolve_timestamps o session [] = []
resolve_timestamps o session (e ∷ es) = resolved o session e ++ resolve_timestamps o session es

-- `reprojectBufferedTimestamps`: an event is resolved in its place, or stays.
unfoldable pub reprojects : Outside → String → BufferedTelemetryEvent → Option String
reprojects o session e =
    if not (str_eq e.session_id session) || not (relative e)
    then none
    else o.resolve e.telemetry.timestamp

abbrev pub replace_timestamp : Option String → BufferedTelemetryEvent → BufferedTelemetryEvent
replace_timestamp none e = e
replace_timestamp (some t) e = record e { telemetry = record e.telemetry { timestamp = t } }

unfoldable pub reprojected :
    Outside → String → List BufferedTelemetryEvent → List BufferedTelemetryEvent
reprojected o session es = map (λ e. replace_timestamp (reprojects o session e) e) es

unfoldable pub reproject_from : Outside → Option TelemetryBuffer → Client → Client
reproject_from o none c = c
reproject_from o (some b) c =
    let after = record b { events = reprojected o c.session_id b.events } in
    let held = record c { buffer = some after } in
    if any (λ e. is_some (reprojects o c.session_id e)) b.events
    then save_buffer_to_redis o after held
    else held

unfoldable pub reproject_buffered_timestamps : Outside → Client → Client
reproject_buffered_timestamps o c = reproject_from o c.buffer c

-- What `transmitBuffer` does with a buffer: there is nothing to send, nothing is left to send, there is no
-- client, the broker does not take the batch, or it does.
pub data Transmission : Type 0 where
  idle : Transmission
  emptied : Transmission
  unconnected : List BufferedTelemetryEvent → Transmission
  refused : List BufferedTelemetryEvent → Transmission
  sent : List BufferedTelemetryEvent → Transmission

unfoldable pub transmission : Outside → String → TelemetryBuffer → Transmission
transmission o session b =
    let kept = resolve_timestamps o session b.events in
    if is_empty b.events
    then idle
    else (if is_empty kept
        then emptied
        else (if not o.connected
            then unconnected kept
            else (if o.published then sent kept else refused kept)))

unfoldable pub count_attempt : BufferedTelemetryEvent → BufferedTelemetryEvent
count_attempt e = record e { attempts = e.attempts + 1 }

abbrev pub hold : TelemetryBuffer → Client → Client
hold b c = record c { buffer = some b }

unfoldable pub after_transmission : Outside → TelemetryBuffer → Transmission → Client → Client
after_transmission o b idle c = hold b c
after_transmission o b emptied c = hold (record b { events = [] }) c
after_transmission o b (unconnected kept) c = hold (record b { events = kept }) c
after_transmission o b (refused kept) c =
    let tried = record b { events = map count_attempt kept } in
    save_buffer_to_redis o tried (hold tried c)
after_transmission o b (sent kept) c =
    let empty = reset_buffer o c.session_id b in
    save_buffer_to_disk o empty (save_buffer_to_redis o empty (hold empty c))

-- The buffer in memory, or the one in Redis; `none` where the buffer is disabled, or where it cannot be
-- loaded, which is an error.
unfoldable pub loaded : Outside → Client → Option TelemetryBuffer
loaded o c = elim c.buffer [ some b ↦ some b | none ↦ load_buffer_from_redis o c ]

unfoldable pub transmit_from :
    Outside → Option TelemetryBuffer → Client → Client × Option Transmission
transmit_from o none c = (c, none)
transmit_from o (some b) c =
    let t = transmission o c.session_id b in (after_transmission o b t c, some t)

unfoldable pub transmit_buffer : Outside → Client → Client × Option Transmission
transmit_buffer o c = transmit_from o (if c.enabled then loaded o c else none) c

abbrev pub max_attempts : List BufferedTelemetryEvent → ℕ
max_attempts [] = 0
max_attempts (e ∷ es) =
    let rest = max_attempts es in if ltb rest e.attempts then e.attempts else rest

-- `retryTransmitBuffer` up to the wait: `some` is the number of attempts that the wait grows with. A
-- configured maximum that is not positive is 0 here.
unfoldable pub retry_from : Outside → Option TelemetryBuffer → Client → Client × Option ℕ
retry_from o none c = (c, none)
retry_from o (some b) c =
    let retries = if c.max_retries == 0 then 5 else c.max_retries in
    if is_empty b.events
    then (c, none)
    else (if leb retries (max_attempts b.events)
        then (save_buffer_to_redis o (reset_buffer o c.session_id b) c, none)
        else (c, some (max_attempts b.events)))

unfoldable pub retry_transmit_buffer : Outside → Client → Client × Option ℕ
retry_transmit_buffer o c = retry_from o (if c.enabled then load_buffer_from_redis o c else none) c
