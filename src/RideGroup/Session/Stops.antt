-- ===== src/RideGroup/Session/Stops.antt =====
-- internal/ridegroup/protocol_v2_adapter.go: the stop of a session. An offer answers a status of the
-- broker; a query asks the broker about a prepared operation; the answer `not_found` makes a second
-- challenge, and only the snapshot that answers that one sends the application of the stop.
use radio_gaga.Common.{
  ℕ, ◌+◌, ◌-◌, Bool, true, false, not, ◌&&◌, ◌||◌, String, str_eq, List, [], ◌∷◌, Option, none,
  some, if◌then◌else◌, ltb, leb, ◌==◌, insert, length, is_some, pos,
}
use radio_gaga.RideGroup.State.{Control, LocalStopV2, LocalStopAttemptV2}
use radio_gaga.RideGroup.Publication.{same_option, phase_is}
use radio_gaga.RideGroup.Messages.{stop, local_stop_result}
use radio_gaga.RideGroup.Session.{write_message, LocalProbe, Session, World, attempt_lifetime}
use radio_gaga.RideGroup.Session.Sending.{is_online, publication, queue_mqtt, queue_redis}

abbrev pub operating : String → Option String → Bool
operating operation none = false
operating operation (some o) = str_eq o operation

-- Whether the journal is at this operation and this revision.
abbrev pub journal_at : String → ℕ → Option LocalStopV2 → Bool
journal_at operation revision none = false
journal_at operation revision (some j) =
    operating operation j.operation_id && j.journal_revision == revision

abbrev pub prepared_at : Option ℕ → Option LocalStopV2 → Bool
prepared_at fence none = false
prepared_at fence (some j) = str_eq j.phase "prepared" && same_option j.expected_generation fence

abbrev pub is_committed : Option LocalStopV2 → Bool
is_committed none = false
is_committed (some j) = is_some j.committed_generation

abbrev pub unanswered : World → List (String × LocalStopAttemptV2) → Bool
unanswered w [] = false
unanswered w ((k, t) ∷ m) = (not t.consumed && ltb w.now t.deadline) || unanswered w m

-- The deadline of an attempt: at most ten seconds away; zero is none.
abbrev pub attempt_deadline : World → ℕ → ℕ
attempt_deadline w deadline =
    if deadline == 0 || ltb (w.now + attempt_lifetime) deadline
    then w.now + attempt_lifetime
    else deadline

-- The arguments of `sendStopV2Locked`.
pub record StopOrder : Type 0 where
  pub operation_id : String
  pub revision : ℕ
  pub expected : Option ℕ
  pub challenge : String
  pub mode : String
  pub deadline : ℕ

unfoldable pub new_attempt : World → StopOrder → Session → LocalStopAttemptV2
new_attempt w o s = record {
  operation_id = o.operation_id;
  journal_revision = o.revision;
  challenge = o.challenge;
  connection_nonce = s.adapter.connection;
  started_at = w.now;
  mode = o.mode;
  fence = o.expected;
  deadline = attempt_deadline w o.deadline;
  ipc_epoch = s.adapter.journal_ipc_epoch_v2;
  consumed = false;
}

abbrev pub stop_written : World → StopOrder → Session → Option String → Session × Bool
stop_written w o s none = (s, false)
stop_written w o s (some payload) =
    if unanswered w s.adapter.local_attempts_v2 || leb 10 (length s.adapter.local_attempts_v2)
    then (s, false)
    else (
      queue_mqtt
          (record (publication s "v2_stop" payload 3 (attempt_deadline w o.deadline)) {
            stop_challenge = o.challenge;
          })
          (record s {
            adapter = record s.adapter {
              local_attempts_v2 =
                  insert o.challenge (new_attempt w o s) s.adapter.local_attempts_v2;
            };
          }),
      true,
    )

-- The two guards of `sendStopV2Locked`.
abbrev pub may_stop : World → StopOrder → Session → Bool
may_stop w o s =
    is_online w s
    && (not (str_eq s.adapter.connection "")
        && (journal_at o.operation_id o.revision s.adapter.journal_state_v2
            && not (s.adapter.journal_ipc_epoch_v2 == 0)))
    && (not (str_eq o.mode "apply")
        || (prepared_at o.expected s.adapter.journal_state_v2
            && not (is_committed s.adapter.journal_state_v2)))

unfoldable pub send_stop_v2 : World → StopOrder → Session → Session × Bool
send_stop_v2 w o s =
    if may_stop w o s
    then stop_written w o s (
        write_message w (
          stop (record {
            connection_nonce = s.adapter.connection;
            operation_id = o.operation_id;
            expected_consent_generation = o.expected;
            challenge = o.challenge;
            mode = o.mode;
          })))
    else (s, false)

abbrev pub offer_written : World → LocalProbe → Session → Option String → Session
offer_written w permit s none = s
offer_written w permit s (some payload) =
    queue_redis w "ride-group:control" payload (pos (permit.deadline - w.now))
      (record s { offer_permit_v2 = none })

-- Whether a permit allows an offer in answer to this status.
abbrev pub permits : World → Control → Session → LocalProbe → Bool
permits w c s permit =
    not permit.consumed
    && (str_eq permit.connection s.adapter.connection
        && (permit.ipc_epoch == s.adapter.journal_ipc_epoch_v2
            && (leb w.now permit.deadline
                && (str_eq c.challenge permit.challenge
                    && (not (is_some c.stop_result)
                        && (phase_is "preparing" s.adapter.journal_state_v2
                            && journal_at permit.operation_id permit.revision
                                s.adapter.journal_state_v2))))))

abbrev pub offered : World → Control → Session → Option LocalProbe → Session
offered w c s none = s
offered w c s (some permit) =
    if permits w c s permit
    then offer_written w permit s (
        write_message w (
          local_stop_result (record {
            operation_id = permit.operation_id;
            journal_revision = permit.revision;
            challenge = permit.challenge;
            connection_nonce = s.adapter.connection;
            result = "offer";
            expected_generation = some c.consent_generation;
            committed_generation = none;
          })))
    else s

unfoldable pub maybe_send_offer_v2 : World → Control → Session → Session
maybe_send_offer_v2 w c s = offered w c s s.offer_permit_v2
