-- ===== src/RideGroup/Session/Witnesses.antt =====
-- The theorems on the adapter of internal/ridegroup in the second protocol, at an adapter that rides.
use radio_gaga.Common.{
  ◌*◌, ◌≡◌, refl, true, false, String, List, [], ◌∷◌, none, some, or_else, lookup, arith,
}
use radio_gaga.RideGroup.Publication.{second, within}
use radio_gaga.RideGroup.Authorization.{grant_current_v2}
use radio_gaga.RideGroup.Channels.{RedisPublication}
use radio_gaga.RideGroup.Validation.{validate_control_v2, valid_fields, names_session}
use radio_gaga.RideGroup.Session.{write_message, read_message, reconcile, Session, World, retain}
use radio_gaga.RideGroup.Session.Sending.{queue_redis}
use radio_gaga.RideGroup.Session.Probes.{
  issue_local_probe_v2, drop_dead_probes, drop_old_times, recent,
}
use radio_gaga.RideGroup.Session.Controls.{grantable_v2}
use radio_gaga.RideGroup.Session.Peers.{receiver_tuple_current_v2}
use radio_gaga.RideGroup.Session.Events.{Event, receives_downlink, ticks, refreshes, steps}
use radio_gaga.RideGroup.Session.Machine.{standing}
use radio_gaga.RideGroup.Session.Refinement.{Follows, steps-Follows}
use radio_gaga.RideGroup.Session.Grants.{IsSound, steps-IsSound, trail, Advancing, trail-Advancing}
use radio_gaga.RideGroup.Session.Rate.{Call, issued, Limited, issued-Limited}
use radio_gaga.RideGroup.Session.Replay.{position, Arrival}
use radio_gaga.RideGroup.Session.Ipc.{
  final_redis_payload_v2, final_control, final_grant, lease_left, final_peer, is_latest, no_peer,
}
use radio_gaga.RideGroup.Session.Leases.{
  Forwards, final_redis_payload_v2-Forwards, Ages, final_redis_payload_v2-Ages,
}
use radio_gaga.RideGroup.Session.Examples.{
  other_id, stream_of_peer_id, given, session, moved, at_time,
}

abbrev events : List (World × Event)
events =
    (at_time 101, receives_downlink false "peer")
    ∷ (at_time 102, receives_downlink false "grant")
    ∷ (at_time 103, refreshes true)
    ∷ (at_time 104, ticks)
    ∷ []

steps-Follows_example : Follows events session
steps-Follows_example = steps-Follows events session

steps-IsSound_example : IsSound (standing (steps events session))
unfolding validate_control_v2 valid_fields names_session
steps-IsSound_example = steps-IsSound events session ((refl, refl, refl, refl), (refl, refl))

trail-Advancing_example : Advancing (some given) (trail events session)
trail-Advancing_example = trail-Advancing events session

abbrev calls : List ((Session → Session) × Call)
calls =
    (λ s. s, record { world = at_time 101; purpose = reconcile; query = none })
    ∷ (
      λ s. record s { journal_probes_v2 = [] },
      record { world = at_time 103; purpose = reconcile; query = none },
    )
    ∷ []

issued-Limited_example : Limited (95 * second ∷ []) (issued calls session)
issued-Limited_example = issued-Limited calls session (omega arith, (omega arith, tt))

two_probes : issued calls session ≡ 101 * second ∷ 103 * second ∷ []
unfolding issued issue_local_probe_v2 drop_dead_probes retain drop_old_times recent queue_redis
    write_message
two_probes = refl

abbrev arrivals : List Arrival
arrivals =
    record { between = λ s. s; world = at_time 101; message = position "one" (moved 1) }
    ∷ record { between = λ s. s; world = at_time 102; message = position "one" (moved 1) }
    ∷ record { between = λ s. s; world = at_time 103; message = position "two" (moved 2) }
    ∷ []

abbrev queued : String → RedisPublication
queued text = record {
  channel = "ride-group:control";
  payload = text;
  expires_at = 0;
  queued_at = 101 * second;
}

grant_goes_out : final_redis_payload_v2 (at_time 102) (queued "grant") session ≡ some "text"
unfolding final_redis_payload_v2 final_control final_grant lease_left grantable_v2 within
    read_message write_message validate_control_v2 valid_fields names_session
grant_goes_out = refl

final_redis_payload_v2-Forwards_example :
    Forwards (at_time 102) (queued "grant") given session "text"
unfolding read_message validate_control_v2 valid_fields names_session
final_redis_payload_v2-Forwards_example =
    final_redis_payload_v2-Forwards (at_time 102) (queued "grant") given session "text" refl refl
      refl grant_goes_out

abbrev following : Session
following = record session {
  peer_streams =
      (
        other_id,
        record {
          stream_id = stream_of_peer_id;
          epoch = 5;
          sequence = 1;
          captured = 1001;
          status = "";
          closed = false;
        },
      )
      ∷ [];
}

peer_goes_out : final_redis_payload_v2 (at_time 102) (queued "peer") following ≡ some "text"
unfolding final_redis_payload_v2 final_peer receiver_tuple_current_v2 grant_current_v2 within lookup
    read_message write_message
peer_goes_out = refl

final_redis_payload_v2-Ages_example :
    Ages (at_time 102) (queued "peer") (moved 1) "text"
    × (is_latest (moved 1) (or_else no_peer (lookup other_id following.peer_streams)) ≡ true)
unfolding read_message
final_redis_payload_v2-Ages_example =
    final_redis_payload_v2-Ages (at_time 102) (queued "peer") (moved 1) following "text" refl refl
      peer_goes_out
