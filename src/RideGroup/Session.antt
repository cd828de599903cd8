-- ===== src/RideGroup/Session.antt =====
-- internal/ridegroup/protocol_v2_adapter.go: the state of the second protocol, in which the adapter turns
-- the messages of the broker and of the scooter's own journal into grants, probes and stops. A handler
-- runs under the adapter's lock from its first line to its last, and reads the clock once.
pub mod Sending
pub mod Probes
pub mod Sources
pub mod Stops
pub mod Answers
pub mod Snapshots
pub mod Activities
pub mod Peers
pub mod Controls
pub mod Lifecycle
pub mod Events
pub mod Machine
pub mod Standing
pub mod JournalMoves
pub mod ControlMoves
pub mod Refinement
pub mod Grants
pub mod Rate
pub mod Replay
pub mod Ipc
pub mod Leases
pub mod Once
pub mod Bounds
pub mod Recovery
mod Examples
mod Witnesses
mod StopWitnesses
use radio_gaga.Common.{
  ℕ, zero, suc, ◌+◌, ◌-◌, ◌*◌, ◌/◌, ◌%◌, ◌≤◌, ◌<◌, ◌≡◌, refl, Bool, true, false, not, ◌&&◌, ◌||◌,
  String, str_eq, List, [], ◌∷◌, ◌++◌, map, Option, none, some, if◌then◌else◌, ltb, leb, ◌==◌,
  or_else, lookup, insert, delete, length, is_some, ℤ, pos, negsuc,
}
use radio_gaga.RideGroup.State.{Control, Adapter}
use radio_gaga.RideGroup.Publication.{MqttPublication}
use radio_gaga.RideGroup.Validation.Journal.{valid_message}
use radio_gaga.RideGroup.Messages.{Message}
use radio_gaga.RideGroup.Egress.{Egress, drop_pending_position, drop_pending_v2_source}
use radio_gaga.RideGroup.Channels.{RedisPublication}

pub data ProbePurpose : Type 0 where
  reconcile apply_confirmation offers : ProbePurpose

pub record LocalProbe : Type 0 where
  pub challenge : String
  pub connection : String
  pub issued_at : ℕ
  pub deadline : ℕ
  pub purpose : ProbePurpose
  pub operation_id : String
  pub revision : ℕ
  pub fence : Option ℕ
  pub ipc_epoch : ℕ
  pub consumed : Bool

pub record PreparedQuery : Type 0 where
  pub operation_id : String
  pub revision : ℕ
  pub fence : ℕ
  pub connection : String
  pub ipc_epoch : ℕ
  pub deadline : ℕ
  pub query_challenge : String

pub record PeerReplayState : Type 0 where
  pub stream_id : String
  pub epoch : ℕ
  pub sequence : ℕ
  pub captured : ℕ
  pub status : String
  pub closed : Bool

-- The rest of `Adapter`. What `estimator` computes from GPS fixes is left out, with the resets of it.
pub record Session : Type 0 where
  pub adapter : Adapter
  pub open adapter use *
  pub has_redis : Bool
  pub connecting : Bool
  pub connect_attempt : ℕ
  pub egress : Egress
  pub redis_queue : List RedisPublication
  pub last_hello_at : ℕ
  pub challenges : List (String × ℕ)
  pub last_cleared_v2 : Option Control
  pub last_authority_v2 : Option Control
  pub cadence : ℕ
  pub position_seq : ℕ
  pub position_stream_id : String
  pub position_session_id : String
  pub position_epoch : ℕ
  pub last_position_at : ℕ
  pub peer_streams : List (String × PeerReplayState)
  pub peer_scope : String
  pub journal_probes_v2 : List (String × LocalProbe)
  pub used_local_challenges : List (String × String)
  pub pending_query_v2 : Option PreparedQuery
  pub probe_times_v2 : List ℕ
  pub offer_permit_v2 : Option LocalProbe
  pub source_sequence_v2 : ℕ
  pub source_status_retry_at : ℕ
  pub fix_available_pending_v2 : Bool

-- What a handler gets from outside: the clock, the clients that are connected, the identifiers that
-- `newUUID` makes for a greeting and for a probe, the keys that the iteration over a map meets first, and
-- JSON: the encoder, which refuses a text that is too long, and the decoder, which refuses all but
-- an object with the fields of its type.
pub record World : Type 0 where
  pub now : ℕ
  pub connected : ℕ → Bool
  pub hello_uuid : Option String
  pub probe_uuid : Option String
  pub pick : ℕ → ℕ
  pub encode : Message → Option String
  pub decode : String → Option Message

-- `v2AttemptLifetime`.
abbrev pub attempt_lifetime : ℕ
attempt_lifetime = 10000000000

abbrev pub same_string : Option String → Option String → Bool
same_string none none = true
same_string none (some b) = false
same_string (some a) none = false
same_string (some a) (some b) = str_eq a b

-- `delete` for the entries of a map that an iteration turns down.
unfoldable pub retain {ℓ} : {V : Type ℓ} → (V → Bool) → List (String × V) → List (String × V)
retain f [] = []
retain f ((k, v) ∷ m) = let rest = retain f m in if f v then (k, v) ∷ rest else rest

unfoldable pub invalidate_local_attempts_v2 : Session → Session
invalidate_local_attempts_v2 s = record s {
  adapter = record s.adapter { local_attempts_v2 = [] };
  journal_probes_v2 = [];
  used_local_challenges = [];
  pending_query_v2 = none;
}

-- `positionGeneration++`, on 64 bits.
unfoldable pub next_generation : ℕ → ℕ
next_generation n = (n + 1) % 18446744073709551616

unfoldable pub clear_grant_v2 : Session → Session
clear_grant_v2 s = record s {
  adapter = record s.adapter {
    position_generation = next_generation s.adapter.position_generation;
    grant_v2 = none;
    grant_active = false;
    grant_at = 0;
    grant_ttl = 0;
  };
  egress = drop_pending_v2_source (drop_pending_position s.egress);
  last_position_at = 0;
}

unfoldable pub inhibit_journal_v2 : Session → Session
inhibit_journal_v2 s =
    let inhibited = invalidate_local_attempts_v2 (record s {
      adapter = record s.adapter {
        journal_ready = false;
        journal_blocked_v2 = true;
        activity_v2 = none;
        activity = none;
        activity_at = 0;
      };
      challenges = [];
      offer_permit_v2 = none;
      pending_query_v2 = none;
    }) in
    clear_grant_v2 (record inhibited {
      adapter = record inhibited.adapter {
        journal_ipc_epoch_v2 = next_generation inhibited.adapter.journal_ipc_epoch_v2;
      };
    })

-- `MarshalCanonicalV2`.
unfoldable pub write_message : World → Message → Option String
write_message w m = if valid_message m then w.encode m else none

abbrev pub only_valid : Option Message → Option Message
only_valid none = none
only_valid (some m) = if valid_message m then some m else none

-- `ParseV2Message`.
unfoldable pub read_message : World → String → Option Message
read_message w text = only_valid (w.decode text)
