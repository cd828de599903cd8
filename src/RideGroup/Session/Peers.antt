-- ===== src/RideGroup/Session/Peers.antt =====
-- internal/ridegroup/adapter.go and protocol_v2_adapter.go: the other riders. The adapter passes their
-- positions on, each of them once and in their order.
use radio_gaga.Common.{
  ℕ, Bool, true, false, not, ◌&&◌, ◌||◌, String, str_eq, List, [], ◌∷◌, Option, none, some,
  if◌then◌else◌, ltb, ◌==◌, lookup, insert, is_some, pos,
}
use radio_gaga.RideGroup.State.{Control, PeerDescriptor}
use radio_gaga.RideGroup.Publication.{second}
use radio_gaga.RideGroup.Authorization.{grant_current_v2}
use radio_gaga.RideGroup.Messages.{PeerPositionV2, PeerStatusV2}
use radio_gaga.RideGroup.Session.{PeerReplayState, Session, World}
use radio_gaga.RideGroup.Session.Sending.{queue_redis}

abbrev pub names_peer : String → List PeerDescriptor → Bool
names_peer id [] = false
names_peer id (p ∷ ps) = str_eq p.peer_id id || names_peer id ps

unfoldable pub authorized_streams :
    List PeerDescriptor → List (String × PeerReplayState) → List (String × PeerReplayState)
authorized_streams peers [] = []
authorized_streams peers ((k, r) ∷ m) =
    let rest = authorized_streams peers m in if names_peer k peers then (k, r) ∷ rest else rest

-- The session is that of a control with a session; its peers are all that is read beside it.
unfoldable pub set_peer_replay_scope : String → List PeerDescriptor → Session → Session
set_peer_replay_scope session peers s = record s {
  peer_streams =
      authorized_streams peers (if str_eq s.peer_scope session then s.peer_streams else []);
  peer_scope = session;
}

abbrev pub peers_of : Option Control → List PeerDescriptor
peers_of none = []
peers_of (some g) = g.peers

-- For the second protocol.
unfoldable pub peer_in_grant : String → Session → Bool
peer_in_grant id s =
    names_peer id
      (if is_some s.adapter.grant_v2 then peers_of s.adapter.grant_v2 else peers_of s.adapter.grant)

abbrev pub has_text : String → Option String → Bool
has_text t none = false
has_text t (some u) = str_eq u t

abbrev pub at_receiver : String → ℕ → ℕ → String → Option Control → Bool
at_receiver session revision epoch stream none = false
at_receiver session revision epoch stream (some g) =
    has_text session g.session_id
    && (g.revision == revision && (g.transport_epoch == epoch && has_text stream g.stream_id))

-- `receiverTupleCurrentV2Locked` of internal/ridegroup/ipc_v2.go, and the same test in the handlers.
unfoldable pub receiver_tuple_current_v2 : World → String → ℕ → ℕ → String → Session → Bool
receiver_tuple_current_v2 w session revision epoch stream s =
    grant_current_v2 w.connected w.now s.adapter
    && at_receiver session revision epoch stream s.adapter.grant_v2

-- Whether a position is news.
abbrev pub is_news : PeerPositionV2 → Option PeerReplayState → Bool
is_news p none = true
is_news p (some r) =
    not (ltb p.peer_transport_epoch r.epoch)
    && (not (p.peer_transport_epoch == r.epoch)
        || (str_eq p.peer_stream_id r.stream_id
            && (not r.closed && (ltb r.sequence p.sequence && ltb r.captured p.captured_at_ms))))

abbrev pub replay_of : PeerPositionV2 → PeerReplayState
replay_of p = record {
  stream_id = p.peer_stream_id;
  epoch = p.peer_transport_epoch;
  sequence = p.sequence;
  captured = p.captured_at_ms;
  status = "";
  closed = false;
}

unfoldable pub peer_accepted : World → PeerPositionV2 → Session → Bool
peer_accepted w p s =
    receiver_tuple_current_v2 w p.session_id p.revision p.transport_epoch p.stream_id s
    && (peer_in_grant p.peer_id s && is_news p (lookup p.peer_id s.peer_streams))

unfoldable pub handle_peer_v2 : World → String → PeerPositionV2 → Session → Session
handle_peer_v2 w payload p s =
    if peer_accepted w p s
    then queue_redis w "ride-group:peers" payload (pos second)
        (record s { peer_streams = insert p.peer_id (replay_of p) s.peer_streams })
    else s

abbrev pub status_is_news : PeerStatusV2 → Option PeerReplayState → Bool
status_is_news p none = true
status_is_news p (some r) =
    not (ltb p.peer_transport_epoch r.epoch)
    && (not (p.peer_transport_epoch == r.epoch) || str_eq p.peer_stream_id r.stream_id)

abbrev pub opened : PeerStatusV2 → PeerReplayState
opened p = record {
  stream_id = p.peer_stream_id;
  epoch = p.peer_transport_epoch;
  sequence = 0;
  captured = 0;
  status = "";
  closed = false;
}

abbrev pub previous_of : PeerStatusV2 → Option PeerReplayState → PeerReplayState
previous_of p none = opened p
previous_of p (some r) = if ltb r.epoch p.peer_transport_epoch then opened p else r

abbrev pub closes : String → Bool
closes status = str_eq status "inactive" || (str_eq status "cleared" || str_eq status "no_fix")

abbrev pub with_status : PeerStatusV2 → PeerReplayState → PeerReplayState
with_status p r = record r { status = p.status; closed = r.closed || closes p.status }

unfoldable pub status_accepted : World → PeerStatusV2 → Session → Bool
status_accepted w p s =
    receiver_tuple_current_v2 w p.session_id p.revision p.transport_epoch p.stream_id s
    && (peer_in_grant p.peer_id s && status_is_news p (lookup p.peer_id s.peer_streams))

unfoldable pub handle_peer_status_v2 : World → String → PeerStatusV2 → Session → Session
handle_peer_status_v2 w payload p s =
    if status_accepted w p s
    then queue_redis w "ride-group:peers" payload (pos second) (record s {
      peer_streams =
          insert p.peer_id (with_status p (previous_of p (lookup p.peer_id s.peer_streams)))
            s.peer_streams;
    })
    else s
