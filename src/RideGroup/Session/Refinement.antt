-- ===== src/RideGroup/Session/Refinement.antt =====
-- The adapter of internal/ridegroup in the second protocol does what its machine of grants allows.
use radio_gaga.Common.{
  false, if_both, Bool-cases, inl, inr, ℕ, ◌≡◌, refl, ◌∙◌, Bool, true, not, ◌&&◌, ◌||◌, String,
  List, [], ◌∷◌, Option, none, some, ◌==◌, is_some, arith,
}
use radio_gaga.RideGroup.Messages.{
  Message, activity, local_stop, control, peer_position, peer_status, hello, wire_activity,
  source_status, stop, local_stop_probe, local_stop_result,
}
use radio_gaga.RideGroup.Validation.Journal.{valid_message}
use radio_gaga.RideGroup.Session.{
  only_valid, read_message, reconcile, Session, World, invalidate_local_attempts_v2, clear_grant_v2,
}
use radio_gaga.RideGroup.Session.Sending.{publish_hello_v2}
use radio_gaga.RideGroup.Session.Probes.{drop_dead_probes}
use radio_gaga.RideGroup.Session.Lifecycle.{
  greet_ready, inhibit_sharing, received, received_activity, invalidate_position_publications,
  clear_grant, expire_activity, expire_grant, drop_dead_attempts, expire_v2_lease, expire_lease,
  reset_connection, begin_connect, greet_connection, end_connect, on_disconnected, stop_adapter,
  refresh_blocked, fail_closed, handle_activity_v2, handle_downlink,
}
use radio_gaga.RideGroup.Egress.{same_client}
use radio_gaga.RideGroup.Session.Sending.{is_online}
use radio_gaga.RideGroup.Publication.{within, lease_duration}
use radio_gaga.RideGroup.Session.Events.{
  is_own, may_grant, may_reset, Event, receives_activity, receives_downlink, ticks, begins_connect,
  ends_connect, disconnects, refreshes, fails, stops, step,
}
use radio_gaga.RideGroup.Session.Standing.{
  publish_hello_v2-standing, issue_local_probe_v2-standing, retry_no_fix_status_v2-standing,
  handle_peer_v2-standing, handle_peer_status_v2-standing,
}
use radio_gaga.RideGroup.Session.Machine.{
  Standing, standing, ends, leaves, loses_journal, here, next, disconnected, Change, moves, resets,
}
use radio_gaga.RideGroup.Session.JournalMoves.{
  From, kept, inhibit_journal_v2-From, maybe_issue-From, snapshot-From, accept_activity_v2-From,
}
use radio_gaga.RideGroup.Session.ControlMoves.{handle_control_v2-Change}

abbrev pub Changed : Bool → Bool → Bool → Session → Session → Type 0
Changed is_own may_grant may_reset s t = Change is_own may_grant may_reset (standing s) (standing t)

-- Nothing, or a message that is valid.
abbrev accepts : Option Message → Bool
accepts none = true
accepts (some m) = valid_message m

accepts-only_valid : (m : Option Message) → accepts (only_valid m) ≡ true
accepts-only_valid none = refl
accepts-only_valid (some m) = elim (Bool-cases (valid_message m)) [
  | inl e ↦ rw e e
  | inr e ↦ rw e refl
]

accepts-read_message : (w : World) (text : String) → accepts (read_message w text) ≡ true
unfolding read_message
accepts-read_message w text = accepts-only_valid (w.decode text)

received-Changed :
    (w : World) (payload : String) (s : Session) (m : Option Message)
    → accepts m ≡ true
    → Changed false true false s (received w payload s m)
received-Changed w payload s none h = moves here
received-Changed w payload s (some (control c)) h = handle_control_v2-Change w payload c s h
received-Changed w payload s (some (peer_position p)) h =
    moves (kept (handle_peer_v2-standing w payload p s) here)
received-Changed w payload s (some (peer_status p)) h =
    moves (kept (handle_peer_status_v2-standing w payload p s) here)
received-Changed w payload s (some (hello m)) h = moves here
received-Changed w payload s (some (activity m)) h = moves here
received-Changed w payload s (some (wire_activity c m)) h = moves here
received-Changed w payload s (some (source_status m)) h = moves here
received-Changed w payload s (some (stop m)) h = moves here
received-Changed w payload s (some (local_stop m)) h = moves here
received-Changed w payload s (some (local_stop_probe m)) h = moves here
received-Changed w payload s (some (local_stop_result m)) h = moves here

received_activity-From :
    (w : World) (s : Session) (m : Option Message)
    → From true (standing s) (received_activity w s m)
received_activity-From w s none = here
received_activity-From w s (some (local_stop j)) = snapshot-From w j s here
received_activity-From w s (some (activity a)) = accept_activity_v2-From w a s here
received_activity-From w s (some (control c)) = here
received_activity-From w s (some (peer_position p)) = here
received_activity-From w s (some (peer_status p)) = here
received_activity-From w s (some (hello m)) = here
received_activity-From w s (some (wire_activity c m)) = here
received_activity-From w s (some (source_status m)) = here
received_activity-From w s (some (stop m)) = here
received_activity-From w s (some (local_stop_probe m)) = here
received_activity-From w s (some (local_stop_result m)) = here

expire_activity-From :
    {v : Standing} (w : World) (s : Session) → From false v s → From false v (expire_activity w s)
unfolding expire_activity clear_grant_v2
expire_activity-From {v} w s h =
    if_both (From false v)
      (is_some s.adapter.activity_v2 && not (within w.now s.adapter.activity_at lease_duration))
      (next h (leaves (standing s))) h

expire_grant-From :
    {v : Standing} (w : World) (s : Session) → From false v s → From false v (expire_grant w s)
unfolding expire_grant clear_grant_v2
expire_grant-From {v} w s h =
    if_both (From false v)
      (is_some s.adapter.grant_v2 && not (within w.now s.adapter.grant_at s.adapter.grant_ttl))
      (next h (ends (standing s))) h

expire_lease-From : (w : World) (s : Session) → From false (standing s) (expire_lease w s)
unfolding expire_lease expire_v2_lease drop_dead_attempts drop_dead_probes
expire_lease-From w s =
    kept (retry_no_fix_status_v2-standing w _)
      (expire_grant-From w (expire_activity w s) (expire_activity-From w s here))

reset_connection-standing :
    (client : Option ℕ) (connection : String) (s : Session)
    → standing (reset_connection client connection s) ≡ disconnected
unfolding reset_connection clear_grant clear_grant_v2 invalidate_position_publications
    invalidate_local_attempts_v2
reset_connection-standing client connection s = refl

greet_connection-standing : (w : World) (s : Session) → standing (greet_connection w s) ≡ standing s
greet_connection-standing w s =
    let greeted : Session = publish_hello_v2 w "" s in
    if_both (λ t. standing t ≡ standing s) greeted.adapter.settings_ready
      (issue_local_probe_v2-standing w reconcile none greeted ∙ publish_hello_v2-standing w "" s)
      (publish_hello_v2-standing w "" s)

end_connect-Changed :
    (w : World) (client attempt : ℕ) (connection : Option String) (s : Session)
    → Changed false false (is_some connection) s (end_connect w client attempt connection s)
unfolding end_connect
end_connect-Changed w client attempt none s =
    if_both (Changed false false false s) (s.connect_attempt == attempt) (moves here) (moves here)
end_connect-Changed w client attempt (some connection) s =
    if_both (Changed false false true s) (s.connect_attempt == attempt)
      (resets refl
        (greet_connection-standing w _ ∙ reset_connection-standing (some client) connection _))
      (moves here)

on_disconnected-Changed :
    (client : ℕ) (s : Session) → Changed false false true s (on_disconnected client s)
unfolding on_disconnected
on_disconnected-Changed client s =
    if_both (Changed false false true s) (same_client (some client) s.adapter.mqtt)
      (resets refl (reset_connection-standing none "" _))
      (if_both (Changed false false true s) s.connecting (moves here) (moves here))

greet_ready-standing :
    (w : World) (was_ready : Bool) (s : Session) → standing (greet_ready w was_ready s) ≡ standing s
greet_ready-standing w was_ready s =
    let greeted : Session = publish_hello_v2 w "" s in
    if_both (λ t. standing t ≡ standing s) (not was_ready && is_online w s)
      (issue_local_probe_v2-standing w reconcile none greeted ∙ publish_hello_v2-standing w "" s)
      refl

inhibit_sharing-From :
    {v : Standing} (w : World) (s : Session) → From false v s → From false v (inhibit_sharing w s)
unfolding invalidate_local_attempts_v2
inhibit_sharing-From w s h = maybe_issue-From w _ (inhibit_journal_v2-From s h)

refresh_blocked-From :
    (w : World) (blocked : Bool) (s : Session)
    → From false (standing s) (refresh_blocked w blocked s)
unfolding refresh_blocked
refresh_blocked-From w blocked s =
    let known : Session = record s {
      adapter = record s.adapter { blocked = blocked; settings_ready = true };
    } in
    let greeted : From false (standing s) (greet_ready w s.adapter.settings_ready known) =
      kept (greet_ready-standing w s.adapter.settings_ready known) here in
    if_both (From false (standing s)) (blocked || s.adapter.blocked)
      (inhibit_sharing-From w _ greeted) greeted

begin_connect-standing :
    (w : World) (client : ℕ) (s : Session) → standing (begin_connect w client s).0 ≡ standing s
unfolding begin_connect
begin_connect-standing w client s = ground arith

pub step-Changed :
    (w : World) (e : Event) (s : Session)
    → Changed (is_own e) (may_grant e) (may_reset e) s (step w e s)
unfolding step handle_activity_v2 handle_downlink fail_closed stop_adapter clear_grant
    clear_grant_v2 invalidate_position_publications invalidate_local_attempts_v2
step-Changed w (receives_activity payload) s =
    moves (received_activity-From w s (read_message w payload))
step-Changed w (receives_downlink true payload) s = moves here
step-Changed w (receives_downlink false payload) s =
    received-Changed w payload s (read_message w payload) (accepts-read_message w payload)
step-Changed w ticks s = moves (expire_lease-From w s)
step-Changed w (begins_connect client) s = moves (kept (begin_connect-standing w client s) here)
step-Changed w (ends_connect client attempt connection) s =
    end_connect-Changed w client attempt connection s
step-Changed w (disconnects client) s = on_disconnected-Changed client s
step-Changed w (refreshes blocked) s = moves (refresh_blocked-From w blocked s)
step-Changed w fails s = moves (next here (loses_journal (standing s)))
step-Changed w (stops topic) s = moves (next here (ends (standing s)))

-- At each event, the machine allows what becomes of the standing.
abbrev pub Follows : List (World × Event) → Session → Type 0
Follows [] s = Unit
Follows ((w, e) ∷ es) s =
    Changed (is_own e) (may_grant e) (may_reset e) s (step w e s) × Follows es (step w e s)

-- Over any events in any order, the adapter does at each event what its machine of grants allows at that
-- event. These are moves, none of which touches the last accepted grant, and which only take away unless
-- the event is a message of the scooter itself; or, at a message of the broker that is not retained, a valid grant, to a scooter that rides under a ready journal, that is not behind the
-- last accepted one of the same session; or, at the end or the start of a connection, a reset.
pub steps-Follows : (es : List (World × Event)) (s : Session) → Follows es s
steps-Follows [] s = tt
steps-Follows ((w, e) ∷ es) s = (step-Changed w e s, steps-Follows es (step w e s))
