-- ===== src/RideGroup/Session/Examples.antt =====
-- An adapter that rides with a grant, and the theorems at it.
use radio_gaga.Common.{
  ℕ, ◌+◌, ◌*◌, true, false, String, str_eq, [], ◌∷◌, Option, none, some, if◌then◌else◌,
}
use radio_gaga.RideGroup.State.{Activity, Control, LocalStopV2, LocalStopAttemptV2}
use radio_gaga.RideGroup.Publication.{second}
use radio_gaga.RideGroup.Messages.{
  Message, control, peer_position, local_stop, local_stop_probe, PeerPositionV2,
}
use radio_gaga.RideGroup.Egress.{new_egress}
use radio_gaga.RideGroup.Session.{Session, World}

abbrev pub connection_id : String
connection_id = "00000000-0000-4000-8000-000000000000"

abbrev pub riding_id : String
riding_id = "11111111-0000-4000-8000-000000000000"

abbrev pub member_id : String
member_id = "22222222-0000-4000-8000-000000000000"

abbrev pub stream_id : String
stream_id = "33333333-0000-4000-8000-000000000000"

abbrev pub stream_of_peer_id : String
stream_of_peer_id = "44444444-0000-4000-8000-000000000000"

abbrev pub question_id : String
question_id = "55555555-0000-4000-8000-000000000000"

abbrev pub probing_id : String
probing_id = "66666666-0000-4000-8000-000000000000"

abbrev pub asked_id : String
asked_id = "77777777-0000-4000-8000-000000000000"

abbrev pub operation_id : String
operation_id = "88888888-0000-4000-8000-000000000000"

abbrev pub other_id : String
other_id = "99999999-0000-4000-8000-000000000000"

abbrev pub boot_id : String
boot_id = "aaaaaaaa-0000-4000-8000-000000000000"

abbrev pub greeting_id : String
greeting_id = "bbbbbbbb-0000-4000-8000-000000000000"

abbrev pub idle : LocalStopV2
idle = record {
  operation_id = none;
  journal_revision = 1;
  phase = "idle";
  blocked = false;
  expected_generation = none;
  committed_generation = none;
  challenge = probing_id;
}

abbrev pub rider : Activity
rider = record {
  boot_nonce = boot_id;
  sequence = 3;
  active = true;
  local_stop = false;
  session_id = some riding_id;
  member_id = some member_id;
  challenge = question_id;
}

abbrev pub given : Control
given = record {
  connection_nonce = connection_id;
  action = "grant";
  session_id = some riding_id;
  member_id = some member_id;
  revision = 1;
  transport_epoch = 2;
  stream_id = some stream_id;
  challenge = question_id;
  server_time_ms = 1;
  lease_ttl_ms = 8000;
  cadence_ms = some 2000;
  peers = record { peer_id = other_id; label = "R"; palette_index = 1 } ∷ [];
  consent_generation = 4;
  stop_operation_id = none;
  stop_result = none;
  stop_expected_generation = none;
}

abbrev pub attempt : LocalStopAttemptV2
attempt = record {
  operation_id = operation_id;
  journal_revision = 1;
  challenge = asked_id;
  connection_nonce = connection_id;
  started_at = 100 * second;
  mode = "query";
  fence = none;
  deadline = 110 * second;
  ipc_epoch = 1;
  consumed = false;
}

abbrev pub session : Session
session = record {
  adapter = record {
    protocol_version = 2;
    mqtt = some 1;
    connection = connection_id;
    activity = none;
    activity_at = 100 * second;
    activity_boot_nonce = boot_id;
    activity_sequence = 3;
    grant = none;
    grant_at = 100 * second;
    grant_ttl = 8 * second;
    grant_active = true;
    position_generation = 7;
    blocked = false;
    local_stop_pending = false;
    settings_ready = true;
    activity_v2 = some rider;
    grant_v2 = some given;
    journal_ready = true;
    journal_state_v2 = some idle;
    journal_blocked_v2 = false;
    journal_ipc_epoch_v2 = 1;
    local_attempts_v2 = (asked_id, attempt) ∷ [];
    last_source_status_v2 = none;
    no_fix_closed_v2 = false;
    source_status_generation = 0;
  };
  has_redis = true;
  connecting = false;
  connect_attempt = 1;
  egress = new_egress;
  redis_queue = [];
  last_hello_at = 99 * second;
  challenges = (question_id, 100 * second) ∷ [];
  last_cleared_v2 = none;
  last_authority_v2 = some given;
  cadence = 2 * second;
  position_seq = 0;
  position_stream_id = stream_id;
  position_session_id = riding_id;
  position_epoch = 2;
  last_position_at = 0;
  peer_streams = [];
  peer_scope = riding_id;
  journal_probes_v2 = [];
  used_local_challenges = [];
  pending_query_v2 = none;
  probe_times_v2 = 95 * second ∷ [];
  offer_permit_v2 = none;
  source_sequence_v2 = 0;
  source_status_retry_at = 0;
  fix_available_pending_v2 = false;
}

-- A peer's position, of which the two texts `first` and `next` are messages.
abbrev pub moved : ℕ → PeerPositionV2
moved n = record {
  session_id = riding_id;
  revision = 1;
  transport_epoch = 2;
  stream_id = stream_id;
  peer_stream_id = stream_of_peer_id;
  peer_transport_epoch = 5;
  sequence = n;
  peer_id = other_id;
  label = "R";
  palette_index = 1;
  captured_at_ms = 1000 + n;
  position = "52.5";
  received_at_ms = 1001 + n;
  server_time_ms = 1002 + n;
  valid_for_ms = 5000;
}

abbrev pub written : Message → Option String
written (local_stop_probe challenge) = some challenge
written (local_stop j) = some "snapshot"
written m = some "text"

abbrev pub reading : String → Option Message
reading text =
    if str_eq text "grant"
    then some (control given)
    else (if str_eq text "peer" then some (peer_position (moved 1)) else none)

abbrev pub at_time : ℕ → World
at_time n = record {
  now = n * second;
  connected = λ client. true;
  hello_uuid = some greeting_id;
  probe_uuid = some probing_id;
  pick = λ k. 0;
  encode = written;
  decode = reading;
}
