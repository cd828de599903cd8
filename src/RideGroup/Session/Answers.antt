-- ===== src/RideGroup/Session/Answers.antt =====
-- internal/ridegroup/protocol_v2_adapter.go: the broker's answer to a stop, and the snapshot that
-- confirms that the stop may be applied.
use radio_gaga.Common.{
  ◌-◌, Bool, true, false, not, ◌&&◌, ◌||◌, String, str_eq, Option, none, some, if◌then◌else◌, ltb,
  leb, ◌==◌, lookup, insert, is_some, pos,
}
use radio_gaga.RideGroup.State.{Control, LocalStopV2, LocalStopAttemptV2}
use radio_gaga.RideGroup.Publication.{same_option}
use radio_gaga.RideGroup.Messages.{local_stop_result, LocalStopResultV2}
use radio_gaga.RideGroup.Session.{
  write_message, apply_confirmation, LocalProbe, PreparedQuery, Session, World, inhibit_journal_v2,
}
use radio_gaga.RideGroup.Session.Sending.{queue_redis}
use radio_gaga.RideGroup.Session.Probes.{issue_local_probe_v2}
use radio_gaga.RideGroup.Session.Stops.{operating, journal_at, prepared_at, send_stop_v2, StopOrder}

-- The first guard: the answer belongs to an attempt that waits.
abbrev pub answers : World → Control → Session → LocalStopAttemptV2 → Bool
answers w c s t =
    not t.consumed
    && (str_eq t.connection_nonce s.adapter.connection
        && (t.ipc_epoch == s.adapter.journal_ipc_epoch_v2
            && (leb w.now t.deadline
                && (operating t.operation_id c.stop_operation_id
                    && str_eq c.connection_nonce t.connection_nonce))))

-- The three guards behind it: the journal or the answer contradicts the attempt.
abbrev pub contradicts : Control → String → Session → LocalStopAttemptV2 → Bool
contradicts c result s t =
    not (journal_at t.operation_id t.journal_revision s.adapter.journal_state_v2)
    || ((str_eq t.mode "apply" && not (prepared_at t.fence s.adapter.journal_state_v2))
        || (str_eq result "committed"
            && (is_some t.fence && not (same_option c.stop_expected_generation t.fence))))

abbrev pub commits : String → Bool
commits result =
    str_eq result "committed" || (str_eq result "superseded" || str_eq result "unconfirmed")

abbrev pub result_of : Control → String → LocalStopAttemptV2 → LocalStopResultV2
result_of c result t = record {
  operation_id = t.operation_id;
  journal_revision = t.journal_revision;
  challenge = t.challenge;
  connection_nonce = t.connection_nonce;
  result = result;
  expected_generation = c.stop_expected_generation;
  committed_generation = if commits result then some c.consent_generation else none;
}

abbrev pub forward : World → LocalStopAttemptV2 → Session → Option String → Session
forward w t s none = s
forward w t s (some payload) =
    queue_redis w "ride-group:control" payload (pos (t.deadline - w.now)) s

abbrev pub query_prepared : PreparedQuery → Option LocalStopV2 → Bool
query_prepared q j = journal_at q.operation_id q.revision j && prepared_at (some q.fence) j

abbrev pub query_matches : World → LocalStopAttemptV2 → Session → PreparedQuery → Bool
query_matches w t s q =
    str_eq q.operation_id t.operation_id
    && (q.revision == t.journal_revision
        && (same_option t.fence (some q.fence)
            && (str_eq q.connection s.adapter.connection
                && (q.ipc_epoch == s.adapter.journal_ipc_epoch_v2
                    && (str_eq q.query_challenge t.challenge
                        && (q.deadline == t.deadline
                            && (ltb w.now q.deadline
                                && query_prepared q s.adapter.journal_state_v2)))))))

abbrev pub pending_query_matches_v2 :
    World → LocalStopAttemptV2 → Session → Option PreparedQuery → Bool
pending_query_matches_v2 w t s none = false
pending_query_matches_v2 w t s (some q) = query_matches w t s q

-- The query stays where the second challenge was issued.
abbrev pub confirming : Option PreparedQuery → Session × Bool → Session
confirming q (s, issued) =
    if issued then record s { pending_query_v2 = q } else record s { pending_query_v2 = none }

-- What follows an answer that was forwarded.
abbrev pub follow_up : World → String → LocalStopAttemptV2 → Session → Session
follow_up w result t s =
    if str_eq t.mode "query"
      && (str_eq result "not_found" && pending_query_matches_v2 w t s s.pending_query_v2)
    then confirming s.pending_query_v2
        (issue_local_probe_v2 w apply_confirmation s.pending_query_v2 s)
    else (if str_eq t.mode "apply" then record s { pending_query_v2 = none } else s)

abbrev pub answered : World → Control → String → LocalStopAttemptV2 → Session → Session
answered w c result t s =
    let taken : Session = record s {
      adapter = record s.adapter {
        local_attempts_v2 =
            insert c.challenge (record t { consumed = true }) s.adapter.local_attempts_v2;
      };
    } in
    follow_up w result t
      (forward w t taken (write_message w (local_stop_result (result_of c result t))))

abbrev pub stop_status : World → Control → String → Session → Option LocalStopAttemptV2 → Session
stop_status w c result s none = s
stop_status w c result s (some t) =
    if answers w c s t
    then (if contradicts c result s t then inhibit_journal_v2 s else answered w c result t s)
    else s

-- The text is the `stop_result` of the message, which is a status with one.
unfoldable pub handle_stop_status_v2 : World → Control → String → Session → Session
handle_stop_status_v2 w c result s =
    stop_status w c result s (lookup c.challenge s.adapter.local_attempts_v2)

-- Whether a snapshot confirms a query.
abbrev pub confirms : World → LocalStopV2 → LocalProbe → Session → PreparedQuery → Bool
confirms w j probe s q =
    operating q.operation_id j.operation_id
    && (str_eq probe.connection s.adapter.connection
        && (probe.ipc_epoch == s.adapter.journal_ipc_epoch_v2
            && (ltb w.now probe.deadline
                && (ltb w.now q.deadline
                    && (q.revision == j.journal_revision
                        && (str_eq j.phase "prepared"
                            && (same_option j.expected_generation (some q.fence)
                                && (not (is_some j.committed_generation)
                                    && (str_eq q.connection s.adapter.connection
                                        && q.ipc_epoch == s.adapter.journal_ipc_epoch_v2)))))))))

abbrev pub applied : Session × Bool → Session
applied (s, sent) = if sent then record s { pending_query_v2 = none } else s

abbrev pub apply_order : PreparedQuery → LocalProbe → StopOrder
apply_order q probe = record {
  operation_id = q.operation_id;
  revision = q.revision;
  expected = some q.fence;
  challenge = probe.challenge;
  mode = "apply";
  deadline = q.deadline;
}

abbrev pub finalized : World → LocalStopV2 → LocalProbe → Session → Option PreparedQuery → Session
finalized w j probe s none = record s { pending_query_v2 = none }
finalized w j probe s (some q) =
    if confirms w j probe s q
    then applied (send_stop_v2 w (apply_order q probe) s)
    else record s { pending_query_v2 = none }

-- For a probe whose purpose is the confirmation.
unfoldable pub finalize_apply_confirmation_v2 : World → LocalStopV2 → LocalProbe → Session → Session
finalize_apply_confirmation_v2 w j probe s = finalized w j probe s s.pending_query_v2
