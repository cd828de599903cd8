-- ===== src/RideGroup/Session/Snapshots.antt =====
-- internal/ridegroup/protocol_v2_adapter.go: a snapshot of the journal, which counts only in answer to a
-- challenge of the adapter's own.
use radio_gaga.Common.{
  ℕ, Bool, true, false, not, ◌&&◌, ◌||◌, String, str_eq, Option, none, some, if◌then◌else◌, ltb,
  leb, ◌==◌, lookup, is_some,
}
use radio_gaga.RideGroup.State.{Activity, LocalStopV2}
use radio_gaga.RideGroup.Publication.{same_option}
use radio_gaga.RideGroup.Messages.{local_stop}
use radio_gaga.RideGroup.Session.{
  write_message, ProbePurpose, reconcile, apply_confirmation, offers, LocalProbe, PreparedQuery,
  Session, World, same_string, clear_grant_v2, inhibit_journal_v2,
}
use radio_gaga.RideGroup.Session.Sending.{is_online, publish_hello_v2, publish_activity_v2}
use radio_gaga.RideGroup.Session.Probes.{maybe_issue_reconciliation_probe_v2, consume_probe_v2}
use radio_gaga.RideGroup.Session.Stops.{send_stop_v2, StopOrder}
use radio_gaga.RideGroup.Session.Answers.{finalize_apply_confirmation_v2}

abbrev pub same_bool : Bool → Bool → Bool
same_bool a b = if a then b else not b

-- Whether the journal may go from the one state to the other.
abbrev pub follows : LocalStopV2 → LocalStopV2 → Bool
follows j i =
    if ltb j.journal_revision i.journal_revision
    then false
    else (if j.journal_revision == i.journal_revision
        then str_eq j.phase i.phase
          && (same_string j.operation_id i.operation_id
              && (same_option j.expected_generation i.expected_generation
                  && (same_option j.committed_generation i.committed_generation
                      && same_bool j.blocked i.blocked)))
        else true)

abbrev pub accept_journal_revision_v2 : LocalStopV2 → Option LocalStopV2 → Bool
accept_journal_revision_v2 j none = true
accept_journal_revision_v2 j (some previous) = follows j previous

abbrev pub publish_queued : World → Session → Option Activity → Session
publish_queued w s none = s
publish_queued w s (some v) =
    if s.adapter.journal_ready && not (s.adapter.blocked || s.adapter.journal_blocked_v2)
    then publish_activity_v2 w v s
    else s

abbrev pub query_order : String → LocalStopV2 → ℕ → StopOrder
query_order operation j deadline = record {
  operation_id = operation;
  revision = j.journal_revision;
  expected = j.expected_generation;
  challenge = j.challenge;
  mode = "query";
  deadline = deadline;
}

abbrev pub permit_of : String → LocalStopV2 → LocalProbe → LocalProbe
permit_of operation j probe = record probe {
  challenge = j.challenge;
  purpose = offers;
  operation_id = operation;
  revision = j.journal_revision;
  fence = none;
  consumed = false;
}

abbrev pub query_of : String → ℕ → LocalStopV2 → LocalProbe → Session → PreparedQuery
query_of operation fence j probe s = record {
  operation_id = operation;
  revision = j.journal_revision;
  fence = fence;
  connection = s.adapter.connection;
  ipc_epoch = s.adapter.journal_ipc_epoch_v2;
  deadline = probe.deadline;
  query_challenge = j.challenge;
}

abbrev pub prepare_offer : World → LocalStopV2 → LocalProbe → Session → Option String → Session
prepare_offer w j probe s none = s
prepare_offer w j probe s (some operation) =
    if is_some j.expected_generation || is_some j.committed_generation
    then s
    else publish_hello_v2 w j.challenge
        (record s { offer_permit_v2 = some (permit_of operation j probe) })

abbrev pub query_prepared_stop :
    World → LocalStopV2 → LocalProbe → Session → Option String → Option ℕ → Session
query_prepared_stop w j probe s none _ = s
query_prepared_stop w j probe s (some operation) none = s
query_prepared_stop w j probe s (some operation) (some fence) =
    if is_some j.committed_generation
    then s
    else (send_stop_v2 w (query_order operation j probe.deadline)
        (record s { pending_query_v2 = some (query_of operation fence j probe s) })).0

abbrev pub query_uncertain : World → LocalStopV2 → LocalProbe → Session → Option String → Session
query_uncertain w j probe s none = s
query_uncertain w j probe s (some operation) =
    (send_stop_v2 w (query_order operation j probe.deadline) s).0

-- The `switch` over the phase.
unfoldable pub pursue : World → LocalStopV2 → LocalProbe → Session → Session
pursue w j probe s =
    if str_eq j.phase "idle"
    then (if j.blocked then s else publish_queued w s s.adapter.activity_v2)
    else (if str_eq j.phase "preparing"
        then prepare_offer w j probe s j.operation_id
        else (if str_eq j.phase "prepared"
            then query_prepared_stop w j probe s j.operation_id j.expected_generation
            else (if str_eq j.phase "uncertain"
                then query_uncertain w j probe s j.operation_id
                else s)))

-- What the adapter comes to know of the journal.
unfoldable pub adopt : LocalStopV2 → Session → Session
adopt j s =
    let known : Session = record s {
      adapter = record s.adapter {
        journal_state_v2 = some j;
        journal_blocked_v2 = j.blocked;
        journal_ready = str_eq j.phase "idle" && not j.blocked;
      };
    } in
    if j.blocked || not (str_eq j.phase "idle") then clear_grant_v2 known else known

abbrev pub confirms_apply : ProbePurpose → Bool
confirms_apply reconcile = false
confirms_apply apply_confirmation = true
confirms_apply offers = false

unfoldable pub accept_snapshot : World → LocalStopV2 → LocalProbe → String → Session → Session
accept_snapshot w j probe canonical s =
    let adopted = adopt j (consume_probe_v2 w probe canonical s) in
    if confirms_apply probe.purpose
    then finalize_apply_confirmation_v2 w j probe adopted
    else pursue w j probe adopted

unfoldable pub refuse_snapshot : World → LocalProbe → String → Session → Session
refuse_snapshot w probe canonical s =
    maybe_issue_reconciliation_probe_v2 w
      (consume_probe_v2 w probe canonical (inhibit_journal_v2 s))

-- A snapshot that answers no challenge.
unfoldable pub unsolicited : World → LocalStopV2 → Session → Session
unsolicited w j s =
    maybe_issue_reconciliation_probe_v2 w
      (if j.blocked || not (str_eq j.phase "idle") then inhibit_journal_v2 s else s)

abbrev pub is_answered : World → Session → LocalProbe → Bool
is_answered w s p =
    not p.consumed
    && (leb p.issued_at w.now
        && (leb w.now p.deadline
            && (str_eq p.connection s.adapter.connection
                && (p.ipc_epoch == s.adapter.journal_ipc_epoch_v2 && is_online w s))))

abbrev pub snapshot_for : World → LocalStopV2 → String → Session → Option LocalProbe → Session
snapshot_for w j canonical s none = unsolicited w j s
snapshot_for w j canonical s (some probe) =
    if is_answered w s probe
    then (if accept_journal_revision_v2 j s.adapter.journal_state_v2
        then accept_snapshot w j probe canonical s
        else refuse_snapshot w probe canonical s)
    else unsolicited w j s

-- A challenge that was answered once gets the same answer, or the journal is not believed.
abbrev pub repeated : World → LocalStopV2 → String → Session → Option String → Session
repeated w j canonical s none =
    snapshot_for w j canonical s (lookup j.challenge s.journal_probes_v2)
repeated w j canonical s (some prior) =
    if str_eq prior canonical
    then s
    else maybe_issue_reconciliation_probe_v2 w (inhibit_journal_v2 s)

abbrev pub snapshot_written : World → LocalStopV2 → Session → Option String → Session
snapshot_written w j s none = s
snapshot_written w j s (some canonical) =
    repeated w j canonical s (lookup j.challenge s.used_local_challenges)

unfoldable pub handle_local_stop_snapshot_v2 : World → LocalStopV2 → Session → Session
handle_local_stop_snapshot_v2 w j s = snapshot_written w j s (write_message w (local_stop j))
