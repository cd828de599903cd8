-- ===== src/RideGroup/Session/Controls.antt =====
-- internal/ridegroup/protocol_v2_adapter.go: a control of the broker: a grant of a session or its
-- renewal, the end of one, or a status.
use radio_gaga.Common.{
  ℕ, ◌-◌, ◌*◌, Bool, true, false, not, ◌&&◌, ◌||◌, String, str_eq, [], Option, none, some,
  if◌then◌else◌, ltb, leb, ◌==◌, or_else, lookup, insert, is_some, pos,
}
use radio_gaga.RideGroup.State.{Activity, Control}
use radio_gaga.RideGroup.Publication.{second, within, lease_duration, is_active, phase_is}
use radio_gaga.RideGroup.Session.{
  Session, World, attempt_lifetime, same_string, next_generation, clear_grant_v2,
}
use radio_gaga.RideGroup.Egress.{drop_pending_position, drop_pending_v2_source}
use radio_gaga.RideGroup.Session.Sending.{is_online, queue_redis}
use radio_gaga.RideGroup.Session.Sources.{publish_no_fix_status_v2}
use radio_gaga.RideGroup.Session.Stops.{maybe_send_offer_v2}
use radio_gaga.RideGroup.Session.Answers.{handle_stop_status_v2}
use radio_gaga.RideGroup.Session.Peers.{set_peer_replay_scope}

abbrev pub same_rider : Control → Control → Bool
same_rider g c = same_string g.session_id c.session_id && same_string g.member_id c.member_id

-- Whether a control is behind another one, or gives its epoch another stream.
abbrev pub regresses : Control → Control → Bool
regresses g c =
    ltb c.transport_epoch g.transport_epoch
    || (ltb c.revision g.revision
        || (ltb c.consent_generation g.consent_generation
            || (c.transport_epoch == g.transport_epoch
                && not (same_string g.stream_id c.stream_id))))

unfoldable pub forget_challenges : World → String → Session → Session
forget_challenges w payload s =
    queue_redis w "ride-group:control" payload (pos 0) (record s { challenges = [] })

abbrev pub clear_granted : World → String → Control → Session → Option Control → Session
clear_granted w payload c s none =
    if s.adapter.journal_blocked_v2 then s else forget_challenges w payload s
clear_granted w payload c s (some g) =
    if same_rider g c && not (regresses g c)
    then (let cleared = clear_grant_v2 (record s { last_cleared_v2 = some c }) in
        forget_challenges w payload (record cleared {
          adapter = record cleared.adapter { activity_v2 = none; activity_at = 0 };
        }))
    else s

unfoldable pub handle_clear : World → String → Control → Session → Session
handle_clear w payload c s = clear_granted w payload c s s.adapter.grant_v2

unfoldable pub grantable_v2 : World → Session → Bool
grantable_v2 w s =
    s.adapter.protocol_version == 2
    && (s.adapter.settings_ready
        && (not s.adapter.blocked
            && (s.adapter.journal_ready
                && (not s.adapter.journal_blocked_v2
                    && (phase_is "idle" s.adapter.journal_state_v2
                        && (is_active s.adapter.activity_v2
                            && within w.now s.adapter.activity_at lease_duration))))))

abbrev pub session_differs : Control → Option Activity → Bool
session_differs c none = false
session_differs c (some v) =
    is_some v.session_id
    && not (same_string v.session_id c.session_id && same_string v.member_id c.member_id)

abbrev pub was_cleared : Control → Option Control → Bool
was_cleared c none = false
was_cleared c (some l) =
    same_string l.session_id c.session_id
    && (leb c.transport_epoch l.transport_epoch || ltb c.revision l.revision)

abbrev pub behind_authority : Control → Option Control → Bool
behind_authority c none = false
behind_authority c (some prior) = same_string prior.session_id c.session_id && regresses prior c

abbrev pub behind_grant : Control → Option Control → Bool
behind_grant c none = false
behind_grant c (some g) = not (same_rider g c) || regresses g c

-- What is left of a lease at `now`; nothing where it is over.
abbrev pub remaining_lease : ℕ → Control → ℕ → ℕ
remaining_lease now c sent_at = c.lease_ttl_ms * 1000000 - (now - sent_at)

-- The guards of a grant behind its challenge, in their order.
unfoldable pub grant_accepted : World → Control → ℕ → Session → Bool
grant_accepted w c sent_at s =
    within w.now sent_at lease_duration
    && (grantable_v2 w s
        && (is_some c.session_id
            && (is_some c.member_id
                && (not (session_differs c s.adapter.activity_v2)
                    && (not (was_cleared c s.last_cleared_v2)
                        && (not (behind_authority c s.last_authority_v2)
                            && (not (behind_grant c s.adapter.grant_v2)
                                && ltb 0 (remaining_lease w.now c sent_at))))))))

abbrev pub is_new_stream : Control → Option Control → Bool
is_new_stream c none = true
is_new_stream c (some g) =
    not (is_some c.stream_id && same_string g.stream_id c.stream_id)
    || not (c.transport_epoch == g.transport_epoch)

unfoldable pub open_stream : Control → Session → Session
open_stream c s = record s {
  adapter = record s.adapter {
    position_generation = next_generation s.adapter.position_generation;
    no_fix_closed_v2 = s.adapter.no_fix_closed_v2 && not s.fix_available_pending_v2;
  };
  egress = drop_pending_v2_source (drop_pending_position s.egress);
  position_seq = 0;
  source_sequence_v2 = 0;
  position_stream_id = or_else "" c.stream_id;
  position_session_id = or_else "" c.session_id;
  position_epoch = c.transport_epoch;
  fix_available_pending_v2 = false;
}

abbrev pub rides_granted : Control → Option Activity → Bool
rides_granted c none = false
rides_granted c (some v) =
    is_some v.session_id
    && (same_string v.session_id c.session_id && same_string v.member_id c.member_id)

-- At least a second.
abbrev pub cadence_of : Control → ℕ
cadence_of c = let ns : ℕ = or_else 0 c.cadence_ms * 1000000 in if ltb ns second then second else ns

unfoldable pub install_grant : World → Control → ℕ → Session → Session
install_grant w c sent_at s = record s {
  adapter = record s.adapter {
    grant_v2 = some c;
    grant_at = w.now;
    grant_ttl = remaining_lease w.now c sent_at;
    grant_active = rides_granted c s.adapter.activity_v2;
  };
  last_authority_v2 = some c;
  last_cleared_v2 = none;
  cadence = cadence_of c;
}

unfoldable pub grant : World → String → Control → ℕ → Session → Session
grant w payload c sent_at s =
    let opened = if is_new_stream c s.adapter.grant_v2 then open_stream c s else s in
    let scoped =
      set_peer_replay_scope (or_else "" c.session_id) c.peers (install_grant w c sent_at opened) in
    let told = publish_no_fix_status_v2 w scoped in
    queue_redis w "ride-group:control" payload (pos (lease_duration - (w.now - sent_at)))
      (record told { challenges = insert c.challenge sent_at told.challenges })

abbrev pub grant_for : World → String → Control → Session → Option ℕ → Session
grant_for w payload c s none = s
grant_for w payload c s (some sent_at) =
    if grant_accepted w c sent_at s then grant w payload c sent_at s else s

unfoldable pub handle_grant : World → String → Control → Session → Session
handle_grant w payload c s = grant_for w payload c s (lookup c.challenge s.challenges)

abbrev pub handle_status : World → String → Control → Session → Option String → Session
handle_status w payload c s none =
    queue_redis w "ride-group:control" payload (pos attempt_lifetime) (maybe_send_offer_v2 w c s)
handle_status w payload c s (some result) = handle_stop_status_v2 w c result s

-- A control that `ParseControlV2` has accepted.
unfoldable pub handle_control_v2 : World → String → Control → Session → Session
handle_control_v2 w payload c s =
    if not (is_online w s && str_eq c.connection_nonce s.adapter.connection)
    then s
    else (if str_eq c.action "status"
        then handle_status w payload c s c.stop_result
        else (if str_eq c.action "clear"
            then handle_clear w payload c s
            else (if str_eq c.action "grant" || str_eq c.action "renew"
                then handle_grant w payload c s
                else s)))
