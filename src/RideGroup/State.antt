-- ===== src/RideGroup/State.antt =====
-- internal/ridegroup: the part of the adapter's state that the egress of internal/ridegroup/egress.go reads. A time is the
-- number of nanoseconds since the zero time of Go, so that zero is the time that was never set; a nil
-- pointer is `none`; numbers that a decoder accepts only when they are not negative are natural.
use radio_gaga.Common.{ℕ, Bool, String, List, Option}

-- `Activity` and `ActivityV2`.
pub record Activity : Type 0 where
  pub boot_nonce : String
  pub sequence : ℕ
  pub active : Bool
  pub local_stop : Bool
  pub session_id : Option String
  pub member_id : Option String
  pub challenge : String

pub record PeerDescriptor : Type 0 where
  pub peer_id : String
  pub label : String
  pub palette_index : ℕ

-- `Control` and `ControlV2`; what only `ControlV2` has comes last, and is unset in a `Control`.
pub record Control : Type 0 where
  pub connection_nonce : String
  pub action : String
  pub session_id : Option String
  pub member_id : Option String
  pub revision : ℕ
  pub transport_epoch : ℕ
  pub stream_id : Option String
  pub challenge : String
  pub server_time_ms : ℕ
  pub lease_ttl_ms : ℕ
  pub cadence_ms : Option ℕ
  pub peers : List PeerDescriptor
  pub consent_generation : ℕ
  pub stop_operation_id : Option String
  pub stop_result : Option String
  pub stop_expected_generation : Option ℕ

pub record SourceStatusV2 : Type 0 where
  pub connection_nonce : String
  pub session_id : String
  pub member_id : String
  pub revision : ℕ
  pub transport_epoch : ℕ
  pub stream_id : String
  pub sequence : ℕ
  pub state : String
  pub captured_at_ms : Option ℕ

pub record LocalStopV2 : Type 0 where
  pub operation_id : Option String
  pub journal_revision : ℕ
  pub phase : String
  pub blocked : Bool
  pub expected_generation : Option ℕ
  pub committed_generation : Option ℕ
  pub challenge : String

pub record LocalStopAttemptV2 : Type 0 where
  pub operation_id : String
  pub journal_revision : ℕ
  pub challenge : String
  pub connection_nonce : String
  pub started_at : ℕ
  pub mode : String
  pub fence : Option ℕ
  pub deadline : ℕ
  pub ipc_epoch : ℕ
  pub consumed : Bool

-- A client of the broker is a number.
pub record Adapter : Type 0 where
  pub protocol_version : ℕ
  pub mqtt : Option ℕ
  pub connection : String
  pub activity : Option Activity
  pub activity_at : ℕ
  pub activity_boot_nonce : String
  pub activity_sequence : ℕ
  pub grant : Option Control
  pub grant_at : ℕ
  pub grant_ttl : ℕ
  pub grant_active : Bool
  pub position_generation : ℕ
  pub blocked : Bool
  pub local_stop_pending : Bool
  pub settings_ready : Bool
  pub activity_v2 : Option Activity
  pub grant_v2 : Option Control
  pub journal_ready : Bool
  pub journal_state_v2 : Option LocalStopV2
  pub journal_blocked_v2 : Bool
  pub journal_ipc_epoch_v2 : ℕ
  pub local_attempts_v2 : List (String × LocalStopAttemptV2)
  pub last_source_status_v2 : Option SourceStatusV2
  pub no_fix_closed_v2 : Bool
  pub source_status_generation : ℕ
