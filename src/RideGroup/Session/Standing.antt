-- ===== src/RideGroup/Session/Standing.antt =====
-- The part of the state of internal/ridegroup/protocol_v2_adapter.go that decides on grants, and the
-- operations that leave it alone.
use radio_gaga.Common.{
  ◌≡◌, inl, inr, refl, ◌∙◌, Bool, ◌&&◌, String, str_eq, Option, none, some, Bool-cases, arith,
}
use radio_gaga.RideGroup.State.{Activity, Control, LocalStopV2, LocalStopAttemptV2}
use radio_gaga.RideGroup.Messages.{PeerPositionV2, PeerStatusV2, local_stop_result}
use radio_gaga.RideGroup.Session.{
  write_message, ProbePurpose, apply_confirmation, LocalProbe, PreparedQuery, Session, World,
}
use radio_gaga.RideGroup.Session.Sending.{
  publish_hello_v2, publish_activity_v2, queue_mqtt, queue_redis,
}
use radio_gaga.RideGroup.Session.Probes.{
  issue_local_probe_v2, maybe_issue_reconciliation_probe_v2, drop_dead_probes, drop_old_times,
}
use radio_gaga.RideGroup.Session.Sources.{
  publish_source_status_value_v2, publish_no_fix_status_v2, retry_no_fix_status_v2,
}
use radio_gaga.RideGroup.Session.Stops.{StopOrder, send_stop_v2, maybe_send_offer_v2}
use radio_gaga.RideGroup.Session.Machine.{standing}
use radio_gaga.RideGroup.Session.Answers.{
  finalize_apply_confirmation_v2, follow_up, answered, forward, confirming, result_of,
  pending_query_matches_v2,
}
use radio_gaga.RideGroup.Session.Controls.{open_stream}
use radio_gaga.RideGroup.Session.Snapshots.{pursue}
use radio_gaga.RideGroup.Session.Peers.{handle_peer_v2, handle_peer_status_v2}

pub publish_hello_v2-standing :
    (w : World) (challenge : String) (s : Session)
    → standing (publish_hello_v2 w challenge s) ≡ standing s
unfolding publish_hello_v2 queue_mqtt
publish_hello_v2-standing w challenge s = ground arith

pub publish_activity_v2-standing :
    (w : World) (v : Activity) (s : Session) → standing (publish_activity_v2 w v s) ≡ standing s
unfolding publish_activity_v2 queue_mqtt
publish_activity_v2-standing w v s = ground arith

pub issue_local_probe_v2-standing :
    (w : World) (purpose : ProbePurpose) (query : Option PreparedQuery) (s : Session)
    → standing (issue_local_probe_v2 w purpose query s).0 ≡ standing s
unfolding issue_local_probe_v2 queue_redis drop_dead_probes drop_old_times
issue_local_probe_v2-standing w purpose query s = ground arith

pub maybe_issue-standing :
    (w : World) (s : Session) → standing (maybe_issue_reconciliation_probe_v2 w s) ≡ standing s
unfolding maybe_issue_reconciliation_probe_v2
maybe_issue-standing w s = grind (arith, issue_local_probe_v2-standing)

pub send_stop_v2-standing :
    (w : World) (o : StopOrder) (s : Session) → standing (send_stop_v2 w o s).0 ≡ standing s
unfolding send_stop_v2 queue_mqtt
send_stop_v2-standing w o s = ground arith

pub maybe_send_offer_v2-standing :
    (w : World) (c : Control) (s : Session) → standing (maybe_send_offer_v2 w c s) ≡ standing s
unfolding maybe_send_offer_v2 queue_redis
maybe_send_offer_v2-standing w c s = ground arith

pub publish_no_fix_status_v2-standing :
    (w : World) (s : Session) → standing (publish_no_fix_status_v2 w s) ≡ standing s
unfolding publish_no_fix_status_v2 publish_source_status_value_v2 queue_mqtt
publish_no_fix_status_v2-standing w s = ground arith

pub retry_no_fix_status_v2-standing :
    (w : World) (s : Session) → standing (retry_no_fix_status_v2 w s) ≡ standing s
unfolding retry_no_fix_status_v2 queue_mqtt
retry_no_fix_status_v2-standing w s = ground arith

pub handle_peer_v2-standing :
    (w : World) (payload : String) (p : PeerPositionV2) (s : Session)
    → standing (handle_peer_v2 w payload p s) ≡ standing s
unfolding handle_peer_v2 queue_redis
handle_peer_v2-standing w payload p s = ground arith

pub handle_peer_status_v2-standing :
    (w : World) (payload : String) (p : PeerStatusV2) (s : Session)
    → standing (handle_peer_status_v2 w payload p s) ≡ standing s
unfolding handle_peer_status_v2 queue_redis
handle_peer_status_v2-standing w payload p s = ground arith

pub finalize-standing :
    (w : World) (j : LocalStopV2) (probe : LocalProbe) (s : Session)
    → standing (finalize_apply_confirmation_v2 w j probe s) ≡ standing s
unfolding finalize_apply_confirmation_v2
finalize-standing w j probe s = grind (arith, send_stop_v2-standing)

pub pursue-standing :
    (w : World) (j : LocalStopV2) (probe : LocalProbe) (s : Session)
    → standing (pursue w j probe s) ≡ standing s
unfolding pursue
pursue-standing w j probe s =
    grind (arith, send_stop_v2-standing, publish_hello_v2-standing, publish_activity_v2-standing)

confirming-standing :
    (q : Option PreparedQuery) (r : Session × Bool) → standing (confirming q r) ≡ standing r.0
confirming-standing q r = ground arith

follow_up-standing :
    (w : World) (result : String) (t : LocalStopAttemptV2) (s : Session)
    → standing (follow_up w result t s) ≡ standing s
follow_up-standing w result t s =
    elim (Bool-cases (
      str_eq t.mode "query"
      && (str_eq result "not_found" && pending_query_matches_v2 w t s s.pending_query_v2))) [
        | inl e ↦ rw e (
            confirming-standing s.pending_query_v2
              (issue_local_probe_v2 w apply_confirmation s.pending_query_v2 s)
            ∙ issue_local_probe_v2-standing w apply_confirmation s.pending_query_v2 s)
        | inr e ↦ rw e (ground arith)
      ]

forward-standing :
    (w : World) (t : LocalStopAttemptV2) (s : Session) (payload : Option String)
    → standing (forward w t s payload) ≡ standing s
unfolding queue_redis
forward-standing w t s none = refl
forward-standing w t s (some payload) = refl

pub answered-standing :
    (w : World) (c : Control) (result : String) (t : LocalStopAttemptV2) (s : Session)
    → standing (answered w c result t s) ≡ standing s
answered-standing w c result t s =
    follow_up-standing w result t _
    ∙ forward-standing w t _ (write_message w (local_stop_result (result_of c result t)))

pub open_stream-standing : (c : Control) (s : Session) → standing (open_stream c s) ≡ standing s
unfolding open_stream
open_stream-standing c s = refl
