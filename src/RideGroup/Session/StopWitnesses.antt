-- ===== src/RideGroup/Session/StopWitnesses.antt =====
-- The theorems on the stops and the challenges of internal/ridegroup/protocol_v2_adapter.go, at an adapter
-- that rides.
use radio_gaga.Common.{
  ◌*◌, ◌≤◌, ◌<◌, ◌≡◌, ◌⊎◌, refl, true, false, [], ◌∷◌, none, some, lookup, length, arith,
}
use radio_gaga.RideGroup.State.{Control, LocalStopV2}
use radio_gaga.RideGroup.Publication.{second}
use radio_gaga.RideGroup.Session.{
  write_message, inhibit_journal_v2, apply_confirmation, LocalProbe, Session,
}
use radio_gaga.RideGroup.Session.Machine.{standing}
use radio_gaga.RideGroup.Session.Probes.{
  recent, consume_probe_v2, maybe_issue_reconciliation_probe_v2,
}
use radio_gaga.RideGroup.Session.Answers.{finalize_apply_confirmation_v2, handle_stop_status_v2}
use radio_gaga.RideGroup.Session.Snapshots.{handle_local_stop_snapshot_v2}
use radio_gaga.RideGroup.Session.Activities.{prune_challenges}
use radio_gaga.RideGroup.Session.Once.{Applies, handle_stop_status_v2-once, finalize-Applies}
use radio_gaga.RideGroup.Session.Bounds.{challenges-bounded}
use radio_gaga.RideGroup.Session.Recovery.{Believes, Answered, inhibited-recovers}
use radio_gaga.RideGroup.Session.Examples.{
  asked_id, connection_id, operation_id, probing_id, question_id, idle, given, attempt, session,
  at_time,
}

abbrev answer : Control
answer = record given {
  action = "status";
  challenge = asked_id;
  stop_operation_id = some operation_id;
  stop_result = some "not_found";
}

handle_stop_status_v2-once_example :
    handle_stop_status_v2
      (at_time 106)
      answer
      "expired"
      (handle_stop_status_v2 (at_time 105) answer "not_found" session)
    ≡ handle_stop_status_v2 (at_time 105) answer "not_found" session
unfolding lookup
handle_stop_status_v2-once_example =
    handle_stop_status_v2-once (at_time 105) (at_time 106) answer answer "not_found" "expired"
      session attempt refl refl refl

abbrev probe : LocalProbe
probe = record {
  challenge = probing_id;
  connection = connection_id;
  issued_at = 100 * second;
  deadline = 110 * second;
  purpose = apply_confirmation;
  operation_id = operation_id;
  revision = 2;
  fence = some 4;
  ipc_epoch = 1;
  consumed = false;
}

abbrev prepared : LocalStopV2
prepared = record {
  operation_id = some operation_id;
  journal_revision = 2;
  phase = "prepared";
  blocked = true;
  expected_generation = some 4;
  committed_generation = none;
  challenge = probing_id;
}

abbrev querying : Session
querying = record session {
  adapter = record session.adapter { journal_state_v2 = some prepared; local_attempts_v2 = [] };
  pending_query_v2 = some (record {
    operation_id = operation_id;
    revision = 2;
    fence = 4;
    connection = connection_id;
    ipc_epoch = 1;
    deadline = 109 * second;
    query_challenge = asked_id;
  });
}

finalize-Applies_example :
    ((finalize_apply_confirmation_v2
        (at_time 105)
        prepared
        probe
        querying).adapter.local_attempts_v2
      ≡ [])
    ⊎ Applies
        (at_time 105)
        prepared
        probe
        querying
        (finalize_apply_confirmation_v2 (at_time 105) prepared probe querying)
finalize-Applies_example = finalize-Applies (at_time 105) prepared probe querying

challenges-bounded_example :
    (length (prune_challenges (105 * second) ((question_id, 100 * second) ∷ [])) < 10)
    × (length (consume_probe_v2 (at_time 105) probe "x" session).used_local_challenges ≤ 10)
challenges-bounded_example =
    challenges-bounded (105 * second) ((question_id, 100 * second) ∷ []) (at_time 105) probe "x"
      session

answered : Answered (at_time 105) (at_time 106) idle session
unfolding recent write_message
answered = record {
  text = probing_id;
  canonical = "snapshot";
  able = refl;
  few = refl;
  asked = refl;
  written = refl;
  online = refl;
  begun = omega arith;
  in_time = omega arith;
  encoded = refl;
  is_idle = refl;
  free = refl;
  revised = refl;
}

inhibited-recovers_example : Believes idle (
    standing (
      handle_local_stop_snapshot_v2
        (at_time 106)
        idle
        (maybe_issue_reconciliation_probe_v2 (at_time 105) (inhibit_journal_v2 session))))
inhibited-recovers_example = inhibited-recovers (at_time 105) (at_time 106) idle session answered
