-- ===== src/RideGroup/Session/Replay.antt =====
-- The order in which internal/ridegroup/protocol_v2_adapter.go passes the positions of a peer on.
use radio_gaga.Common.{
  ◌≤◌, ◌<◌, ◌≡◌, ◌⊎◌, true, false, not, ◌||◌, String, str_eq, List, [], ◌∷◌, ◌++◌, Option, none,
  some, if◌then◌else◌, arith,
}
use radio_gaga.RideGroup.Messages.{PeerPositionV2, PeerStatusV2}
use radio_gaga.RideGroup.Session.{PeerReplayState, Session, World}
use radio_gaga.RideGroup.Session.Peers.{
  replay_of, peer_accepted, handle_peer_v2, handle_peer_status_v2,
}

pub data PeerMessage : Type 0 where
  position : String → PeerPositionV2 → PeerMessage
  status : String → PeerStatusV2 → PeerMessage

unfoldable pub receive : World → PeerMessage → Session → Session
receive w (position payload p) s = handle_peer_v2 w payload p s
receive w (status payload p) s = handle_peer_status_v2 w payload p s

-- What a message passes on.
unfoldable pub passed_by : World → PeerMessage → Session → List PeerPositionV2
passed_by w (position payload p) s = if peer_accepted w p s then p ∷ [] else []
passed_by w (status payload p) s = []

-- A message, what the rest of the adapter does before it comes, which is a function that leaves
-- `peerStreams` alone, and what the handler gets from outside.
pub record Arrival : Type 0 where
  pub between : Session → Session
  pub world : World
  pub message : PeerMessage

unfoldable pub passed : List Arrival → Session → List PeerPositionV2
passed [] s = []
passed (a ∷ as') s =
    let here : Session = record (a.between s) { peer_streams = s.peer_streams } in
    passed_by a.world a.message here ++ passed as' (receive a.world a.message here)

unfoldable pub of_peer : String → List PeerPositionV2 → List PeerPositionV2
of_peer id [] = []
of_peer id (p ∷ ps) = let rest = of_peer id ps in if str_eq p.peer_id id then p ∷ rest else rest

-- A position of a later epoch, or a later position of the same stream, which is not closed.
abbrev pub Newer : Option PeerReplayState → PeerPositionV2 → Type 0
Newer none p = Unit
Newer (some r) p =
    (r.epoch < p.peer_transport_epoch)
    ⊎ ((r.epoch ≡ p.peer_transport_epoch)
        × (r.closed ≡ false)
        × (r.stream_id ≡ p.peer_stream_id)
        × (r.sequence < p.sequence)
        × (r.captured < p.captured_at_ms))

abbrev pub Ordered : Option PeerReplayState → List PeerPositionV2 → Type 0
Ordered r [] = Unit
Ordered r (p ∷ ps) = Newer r p × Ordered (some (replay_of p)) ps

-- What is known of a peer only grows.
abbrev Later : Option PeerReplayState → Option PeerReplayState → Type 0
Later none _ = Unit
Later (some r) none = ⊥
Later (some r) (some t) =
    (r.epoch < t.epoch)
    ⊎ ((r.epoch ≡ t.epoch)
        × (r.stream_id ≡ t.stream_id)
        × (r.sequence ≤ t.sequence)
        × (r.captured ≤ t.captured)
        × ((not r.closed || t.closed) ≡ true))

Later-same : (r : Option PeerReplayState) → Later r r
Later-same none = tt
Later-same (some r) = ground arith
