-- ===== src/RideGroup/Session/Sources.antt =====
-- internal/ridegroup/gps_v2.go: what the adapter says of its own source of positions, that it has no fix
-- or has one again.
use radio_gaga.Common.{
  ◌>>=◌, ℕ, ◌+◌, ◌*◌, ◌%◌, ◌^◌, Bool, true, false, ◌&&◌, ◌||◌, String, str_eq, Option, none, some,
  if◌then◌else◌, leb, member, is_some,
}
use radio_gaga.RideGroup.State.{Control, SourceStatusV2}
use radio_gaga.RideGroup.Publication.{MqttPublication, Tuple, tuple_of, riders_of, second}
use radio_gaga.RideGroup.Authorization.{grant_current_v2}
use radio_gaga.RideGroup.Messages.{source_status}
use radio_gaga.RideGroup.Egress.{drop_pending_v2_source}
use radio_gaga.RideGroup.Session.{write_message, Session, World}
use radio_gaga.RideGroup.Session.Sending.{publication, queue_mqtt}

-- `time.UnixMilli`, in nanoseconds since the zero time of Go.
abbrev pub unix_milli : ℕ → ℕ
unix_milli ms = 62135596800 * second + ms * 1000000

abbrev pub captured_at : Option ℕ → ℕ
captured_at none = 0
captured_at (some ms) = unix_milli ms

-- The publication of a status that was written.
unfoldable pub status_publication : World → Session → SourceStatusV2 → String → MqttPublication
status_publication w s status payload =
    record (publication s "v2_source_status" payload 2 (w.now + 5 * second)) {
      source_state = status.state;
      source_sequence = status.sequence;
      source_captured_at = captured_at status.captured_at_ms;
      source_generation = s.adapter.source_status_generation;
    }

abbrev pub publish_written : World → SourceStatusV2 → Session → Option String → Session × Bool
publish_written w status s none = (s, false)
publish_written w status s (some payload) =
    let noted : Session = record s {
      adapter = record s.adapter {
        last_source_status_v2 = some status;
        source_status_generation = (s.adapter.source_status_generation + 1) % 2 ^ 64;
      };
      source_status_retry_at = w.now + 3 * second;
      egress = drop_pending_v2_source s.egress;
    } in
    (queue_mqtt (status_publication w noted status payload) noted, true)

unfoldable pub publish_source_status_value_v2 : World → SourceStatusV2 → Session → Session × Bool
publish_source_status_value_v2 w status s =
    publish_written w status s (write_message w (source_status status))

abbrev pub status_of : Session → Tuple → String → Option ℕ → SourceStatusV2
status_of s t state captured_at_ms = record {
  connection_nonce = s.adapter.connection;
  session_id = t.session;
  member_id = t.member;
  revision = t.revision;
  transport_epoch = t.epoch;
  stream_id = t.stream;
  sequence = s.source_sequence_v2 + 1;
  state = state;
  captured_at_ms = captured_at_ms;
}

-- `sourceSequenceV2` follows where the status was published.
abbrev pub advance : ℕ → Session × Bool → Session × Bool
advance sequence (s, sent) =
    if sent then (record s { source_sequence_v2 = sequence }, true) else (s, false)

abbrev pub no_fix_at : World → Session → Option Tuple → Session
no_fix_at w s none = s
no_fix_at w s (some t) =
    (advance (s.source_sequence_v2 + 1)
      (publish_source_status_value_v2 w (status_of s t "no_fix" none) s)).0

unfoldable pub publish_no_fix_status_v2 : World → Session → Session
publish_no_fix_status_v2 w s =
    if s.adapter.no_fix_closed_v2 then no_fix_at w s (tuple_of s.adapter.grant_v2) else s

abbrev pub same_riders : Option (String × String) → Option Tuple → Bool
same_riders none _ = false
same_riders (some r) none = false
same_riders (some (session, member)) (some t) = str_eq session t.session && str_eq member t.member

abbrev pub riders_in : Option Control → Option (String × String)
riders_in none = none
riders_in (some g) = do session ← g.session_id; member ← g.member_id; some (session, member)

abbrev pub same_pair : Option (String × String) → Option (String × String) → Bool
same_pair none _ = false
same_pair (some r) none = false
same_pair (some (a, b)) (some (c, d)) = str_eq a c && str_eq b d

unfoldable pub activity_matches_grant_v2 : Session → Bool
activity_matches_grant_v2 s =
    same_pair (riders_of s.adapter.activity_v2) (riders_in s.adapter.grant_v2)

-- The guard of `retryNoFixStatusV2Locked` on the state of a status.
abbrev pub retries : World → SourceStatusV2 → Bool
retries w status =
    str_eq status.state "no_fix"
    || (str_eq status.state "fix_available"
        && (is_some status.captured_at_ms
            && (leb (captured_at status.captured_at_ms) w.now
                && leb w.now (captured_at status.captured_at_ms + 5 * second))))

abbrev pub retry_written : World → SourceStatusV2 → Session → Option String → Session
retry_written w status s none = s
retry_written w status s (some payload) =
    record (queue_mqtt (status_publication w s status payload) s) {
      source_status_retry_at = w.now + 3 * second;
    }

abbrev pub retry_last : World → Session → Option SourceStatusV2 → Session
retry_last w s none = s
retry_last w s (some status) =
    if grant_current_v2 w.connected w.now s.adapter
      && (activity_matches_grant_v2 s && (leb s.source_status_retry_at w.now && retries w status))
    then retry_written w status s (write_message w (source_status status))
    else s

unfoldable pub retry_no_fix_status_v2 : World → Session → Session
retry_no_fix_status_v2 w s = retry_last w s s.adapter.last_source_status_v2
