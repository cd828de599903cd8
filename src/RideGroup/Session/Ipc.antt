-- ===== src/RideGroup/Session/Ipc.antt =====
-- internal/ridegroup/ipc_v2.go and `runRedisWorker` of internal/ridegroup/egress.go: the last look at
-- what goes to Redis, with what is left of a lease or of the validity of a position. The worker's taking of
-- a publication and its look at the adapter are one step.
use radio_gaga.Common.{
  ℕ, ◌+◌, ◌-◌, ◌*◌, ◌/◌, Bool, true, false, not, ◌&&◌, ◌||◌, String, str_eq, List, [], ◌∷◌, Option,
  none, some, if◌then◌else◌, ltb, leb, ◌==◌, or_else, lookup, is_some,
}
use radio_gaga.RideGroup.State.{Control}
use radio_gaga.RideGroup.Publication.{phase_is, within}
use radio_gaga.RideGroup.Messages.{
  Message, control, peer_position, peer_status, local_stop_probe, local_stop_result,
  LocalStopResultV2, PeerPositionV2, PeerStatusV2,
}
use radio_gaga.RideGroup.Channels.{RedisPublication}
use radio_gaga.RideGroup.Session.{
  write_message, read_message, LocalProbe, PeerReplayState, Session, World, same_string,
}
use radio_gaga.RideGroup.Session.Sending.{is_online}
use radio_gaga.RideGroup.Session.Stops.{journal_at}
use radio_gaga.RideGroup.Session.Peers.{receiver_tuple_current_v2}
use radio_gaga.RideGroup.Session.Controls.{grantable_v2}

abbrev pub pass : Bool → String → Option String
pass true payload = some payload
pass false payload = none

abbrev pub probe_waits : World → Session → Option LocalProbe → Bool
probe_waits w s none = false
probe_waits w s (some probe) =
    not probe.consumed
    && (str_eq probe.connection s.adapter.connection
        && (probe.ipc_epoch == s.adapter.journal_ipc_epoch_v2
            && (leb probe.issued_at w.now && ltb w.now probe.deadline)))

abbrev pub result_current : Session → LocalStopResultV2 → Bool
result_current s r =
    str_eq r.connection_nonce s.adapter.connection
    && (journal_at r.operation_id r.journal_revision s.adapter.journal_state_v2
        && (if str_eq r.result "offer"
            then phase_is "preparing" s.adapter.journal_state_v2
            else phase_is "prepared" s.adapter.journal_state_v2
              || phase_is "uncertain" s.adapter.journal_state_v2))

-- `sameControlIdentityV2`, and the epoch and the consent.
abbrev pub same_grant : Control → Option Control → Bool
same_grant c none = false
same_grant c (some g) =
    same_string g.session_id c.session_id
    && (same_string g.member_id c.member_id
        && (same_string g.stream_id c.stream_id
            && (g.revision == c.revision
                && (c.transport_epoch == g.transport_epoch
                    && c.consent_generation == g.consent_generation))))

abbrev pub lease_current : World → Control → Session → Bool
lease_current w c s =
    grantable_v2 w s
    && (not (s.adapter.grant_at == 0)
        && (within w.now s.adapter.grant_at s.adapter.grant_ttl && same_grant c s.adapter.grant_v2))

-- What is left of the adapter's lease and of the lease of the message, whichever is less. The clock may
-- be behind the time at which the message was queued.
unfoldable pub lease_left : World → ℕ → Control → Session → ℕ
lease_left w queued_at c s =
    let ttl : ℕ = s.adapter.grant_ttl - (w.now - s.adapter.grant_at) in
    let queued : ℕ = (c.lease_ttl_ms * 1000000 + queued_at) - w.now in
    if ltb queued ttl then queued else ttl

unfoldable pub final_grant : World → ℕ → Control → Session → Option String
final_grant w queued_at c s =
    if lease_current w c s && ltb 0 (lease_left w queued_at c s)
    then write_message w
        (control (record c { lease_ttl_ms = lease_left w queued_at c s / 1000000 }))
    else none

unfoldable pub final_control : World → RedisPublication → Control → Session → Option String
final_control w p c s =
    if not (str_eq c.connection_nonce s.adapter.connection)
    then none
    else (if str_eq c.action "grant" || str_eq c.action "renew"
        then final_grant w p.queued_at c s
        else pass (not (str_eq c.action "clear" && is_some s.adapter.grant_v2)) p.payload)

-- The zero value that a missing key reads as.
abbrev pub no_peer : PeerReplayState
no_peer = record {
  stream_id = "";
  epoch = 0;
  sequence = 0;
  captured = 0;
  status = "";
  closed = false;
}

abbrev pub is_latest : PeerPositionV2 → PeerReplayState → Bool
is_latest v r =
    not r.closed
    && (r.epoch == v.peer_transport_epoch
        && (str_eq r.stream_id v.peer_stream_id
            && (r.sequence == v.sequence && r.captured == v.captured_at_ms)))

-- The age in whole milliseconds, cut towards zero; a clock that is behind by one or more has none.
abbrev pub age_ms : ℕ → ℕ → Option ℕ
age_ms now queued_at =
    if leb 1000000 (queued_at - now) then none else some ((now - queued_at) / 1000000)

abbrev pub aged : World → PeerPositionV2 → Option ℕ → Option String
aged w v none = none
aged w v (some age) =
    if ltb age v.valid_for_ms
    then write_message w (peer_position (record v { valid_for_ms = v.valid_for_ms - age }))
    else none

unfoldable pub final_peer : World → RedisPublication → PeerPositionV2 → Session → Option String
final_peer w p v s =
    if receiver_tuple_current_v2 w v.session_id v.revision v.transport_epoch v.stream_id s
      && is_latest v (or_else no_peer (lookup v.peer_id s.peer_streams))
    then aged w v (age_ms w.now p.queued_at)
    else none

abbrev pub is_closed : PeerStatusV2 → PeerReplayState → Bool
is_closed v r =
    r.closed && (r.epoch == v.peer_transport_epoch && str_eq r.stream_id v.peer_stream_id)

abbrev pub final_message : World → RedisPublication → Session → Option Message → Option String
final_message w p s (some (local_stop_probe challenge)) =
    pass (probe_waits w s (lookup challenge s.journal_probes_v2)) p.payload
final_message w p s (some (local_stop_result r)) = pass (result_current s r) p.payload
final_message w p s (some (control c)) = final_control w p c s
final_message w p s (some (peer_position v)) = final_peer w p v s
final_message w p s (some (peer_status v)) =
    pass
      (receiver_tuple_current_v2 w v.session_id v.revision v.transport_epoch v.stream_id s
        && is_closed v (or_else no_peer (lookup v.peer_id s.peer_streams)))
      p.payload
final_message w p s _ = none

unfoldable pub final_redis_payload_v2 : World → RedisPublication → Session → Option String
final_redis_payload_v2 w p s =
    if not (s.adapter.protocol_version == 2)
    then some p.payload
    else (if s.adapter.settings_ready && is_online w s
        then final_message w p s (read_message w p.payload)
        else none)

-- What a round of the worker publishes of the publication it has taken.
unfoldable pub final_publication : World → Session → RedisPublication → Option String
final_publication w s p =
    if (not (p.expires_at == 0) && leb p.expires_at w.now) || not s.has_redis
    then none
    else final_redis_payload_v2 w p s

abbrev pub taken :
    World → Session → List RedisPublication → Session × Option (String × Option String)
taken w s [] = (s, none)
taken w s (p ∷ q) = (record s { redis_queue = q }, some (p.channel, final_publication w s p))

-- A round of `runRedisWorker`: what it took, and what it published of that.
unfoldable pub redis_round : World → Session → Session × Option (String × Option String)
redis_round w s = taken w s s.redis_queue
