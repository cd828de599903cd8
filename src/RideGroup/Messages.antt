-- ===== src/RideGroup/Messages.antt =====
-- internal/ridegroup/protocol_v2.go: the messages that the adapter reads and writes. A constant field
-- (the version, the type, the capabilities, the adapter `mqtt`) is left out, and the floating-point
-- fields of a position, which nothing here looks into, are one text.
use radio_gaga.Common.{ℕ, String, Option}
use radio_gaga.RideGroup.State.{Activity, Control, SourceStatusV2, LocalStopV2}

pub record HelloV2 : Type 0 where
  pub connection_nonce : String
  pub challenge : String

pub record PeerPositionV2 : Type 0 where
  pub session_id : String
  pub revision : ℕ
  pub transport_epoch : ℕ
  pub stream_id : String
  pub peer_stream_id : String
  pub peer_transport_epoch : ℕ
  pub sequence : ℕ
  pub peer_id : String
  pub label : String
  pub palette_index : ℕ
  pub captured_at_ms : ℕ
  pub position : String
  pub received_at_ms : ℕ
  pub server_time_ms : ℕ
  pub valid_for_ms : ℕ

pub record PeerStatusV2 : Type 0 where
  pub session_id : String
  pub revision : ℕ
  pub transport_epoch : ℕ
  pub stream_id : String
  pub peer_id : String
  pub peer_stream_id : String
  pub peer_transport_epoch : ℕ
  pub status : String

pub record StopV2 : Type 0 where
  pub connection_nonce : String
  pub operation_id : String
  pub expected_consent_generation : Option ℕ
  pub challenge : String
  pub mode : String

pub record LocalStopResultV2 : Type 0 where
  pub operation_id : String
  pub journal_revision : ℕ
  pub challenge : String
  pub connection_nonce : String
  pub result : String
  pub expected_generation : Option ℕ
  pub committed_generation : Option ℕ

-- The types of `ParseV2Message`, with `WireActivityV2` as the activity and its connection. A position is
-- sent only, and the adapter of GPS fixes writes it.
pub data Message : Type 0 where
  hello : HelloV2 → Message
  activity : Activity → Message
  wire_activity : String → Activity → Message
  control : Control → Message
  peer_position : PeerPositionV2 → Message
  peer_status : PeerStatusV2 → Message
  source_status : SourceStatusV2 → Message
  stop : StopV2 → Message
  local_stop : LocalStopV2 → Message
  local_stop_probe : String → Message
  local_stop_result : LocalStopResultV2 → Message
