-- ===== src/RideGroup/Session/ControlMoves.antt =====
-- The broker's controls in internal/ridegroup/protocol_v2_adapter.go, against the machine of grants.
use radio_gaga.Common.{
  false, if_both, ℕ, ◌≡◌, inl, inr, refl, ◌∙◌, true, not, ◌&&◌, ◌||◌, String, str_eq, Option, none,
  some, lookup, Bool-cases, arith,
}
use radio_gaga.RideGroup.State.{Control, LocalStopAttemptV2}
use radio_gaga.RideGroup.Publication.{is_active}
use radio_gaga.RideGroup.Validation.{validate_control_v2}
use radio_gaga.RideGroup.Session.{Session, World, clear_grant_v2}
use radio_gaga.RideGroup.Session.Sending.{queue_redis}
use radio_gaga.RideGroup.Session.Answers.{answers, contradicts, stop_status, handle_stop_status_v2}
use radio_gaga.RideGroup.Session.Peers.{set_peer_replay_scope}
use radio_gaga.RideGroup.Session.Controls.{
  clear_granted, same_rider, regresses, grant_for, is_new_stream, forget_challenges, handle_clear,
  grantable_v2, grant_accepted, open_stream, install_grant, grant, handle_grant, handle_status,
  handle_control_v2,
}
use radio_gaga.RideGroup.Session.Sending.{is_online}
use radio_gaga.RideGroup.Session.Standing.{
  answered-standing, maybe_send_offer_v2-standing, publish_no_fix_status_v2-standing,
}
use radio_gaga.RideGroup.Session.Machine.{
  Standing, standing, leaves, here, next, advances, Change, moves, grants,
}
use radio_gaga.RideGroup.Session.JournalMoves.{From, kept, inhibit_journal_v2-From}

stop_status-From :
    {v : Standing} (w : World) (c : Control) (result : String) (s : Session)
    (t : Option LocalStopAttemptV2)
    → From false v s
    → From false v (stop_status w c result s t)
stop_status-From w c result s none h = h
stop_status-From {v} w c result s (some t) h =
    if_both (From false v) (answers w c s t)
      (if_both (From false v) (contradicts c result s t) (inhibit_journal_v2-From s h)
        (kept (answered-standing w c result t s) h))
      h

handle_status-From :
    {v : Standing} (w : World) (payload : String) (c : Control) (s : Session)
    (result : Option String)
    → From false v s
    → From false v (handle_status w payload c s result)
unfolding queue_redis handle_stop_status_v2
handle_status-From w payload c s none h = kept (maybe_send_offer_v2-standing w c s) h
handle_status-From w payload c s (some result) h =
    stop_status-From w c result s (lookup c.challenge s.adapter.local_attempts_v2) h

clear_granted-From :
    {v : Standing} (w : World) (payload : String) (c : Control) (s : Session) (g : Option Control)
    → From false v s
    → From false v (clear_granted w payload c s g)
unfolding forget_challenges queue_redis clear_grant_v2
clear_granted-From {v} w payload c s none h =
    if_both (From false v) s.adapter.journal_blocked_v2 h h
clear_granted-From {v} w payload c s (some g) h =
    if_both (From false v) (same_rider g c && not (regresses g c)) (next h (leaves (standing s))) h

grant_accepted-advances :
    (w : World) (c : Control) (sent_at : ℕ) (s : Session)
    → grant_accepted w c sent_at s ≡ true
    → (s.adapter.journal_ready ≡ true)
      × (is_active s.adapter.activity_v2 ≡ true)
      × (advances s.last_authority_v2 (some c) ≡ true)
unfolding grant_accepted grantable_v2
grant_accepted-advances w c sent_at s e = ground (arith, e)

grant-standing :
    (w : World) (payload : String) (c : Control) (sent_at : ℕ) (s : Session)
    → standing (grant w payload c sent_at s)
      ≡ record (standing s) { grant = some c; authority = some c }
unfolding grant queue_redis set_peer_replay_scope open_stream install_grant
grant-standing w payload c sent_at s =
    publish_no_fix_status_v2-standing w _
    ∙ if_both
        (λ t.
          standing (install_grant w c sent_at t)
          ≡ record (standing s) { grant = some c; authority = some c })
        (is_new_stream c s.adapter.grant_v2) {x = open_stream c s} {y = s} refl refl

grant_for-Change :
    (w : World) (payload : String) (c : Control) (s : Session) (sent : Option ℕ)
    → validate_control_v2 c ≡ true
    → Change false true false (standing s) (standing (grant_for w payload c s sent))
grant_for-Change w payload c s none valid = moves here
grant_for-Change w payload c s (some sent_at) valid =
    elim (Bool-cases (grant_accepted w c sent_at s)) [
      | inl e ↦ rw e (
          let (ready, active, forward) = grant_accepted-advances w c sent_at s e in
          grants c refl valid ready active forward (grant-standing w payload c sent_at s))
      | inr e ↦ rw e (moves here)
    ]

pub handle_control_v2-Change :
    (w : World) (payload : String) (c : Control) (s : Session)
    → validate_control_v2 c ≡ true
    → Change false true false (standing s) (standing (handle_control_v2 w payload c s))
unfolding handle_control_v2 handle_grant handle_clear
handle_control_v2-Change w payload c s valid =
    let P : Session → Type 0 = λ t. Change false true false (standing s) (standing t) in
    if_both P (not (is_online w s && str_eq c.connection_nonce s.adapter.connection)) (moves here) (
      if_both P (str_eq c.action "status")
        (moves (handle_status-From w payload c s c.stop_result here))
        (if_both P (str_eq c.action "clear")
          (moves (clear_granted-From w payload c s s.adapter.grant_v2 here))
          (if_both P (str_eq c.action "grant" || str_eq c.action "renew")
            (grant_for-Change w payload c s (lookup c.challenge s.challenges) valid) (moves here))))
