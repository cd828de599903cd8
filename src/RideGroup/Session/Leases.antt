-- ===== src/RideGroup/Session/Leases.antt =====
-- How long a grant lasts in internal/ridegroup, for the adapter and for the scooter.
use radio_gaga.Common.{
  if_some, ℕ, ◌+◌, ◌-◌, ◌*◌, ◌/◌, ◌≤◌, ◌<◌, ◌≡◌, refl, subst, Bool, true, false, ◌&&◌, ◌||◌, String,
  str_eq, none, some, if◌then◌else◌, ltb, leb, or_else, lookup, arith,
}
use radio_gaga.RideGroup.State.{Control}
use radio_gaga.RideGroup.Publication.{within}
use radio_gaga.RideGroup.Messages.{control, peer_position, PeerPositionV2}
use radio_gaga.RideGroup.Channels.{RedisPublication}
use radio_gaga.RideGroup.Validation.{validate_control_v2}
use radio_gaga.RideGroup.Session.{write_message, read_message, Session, World}
use radio_gaga.RideGroup.Session.Peers.{receiver_tuple_current_v2}
use radio_gaga.RideGroup.Session.Ipc.{
  same_grant, lease_current, lease_left, final_grant, final_control, final_message, aged, age_ms,
  final_peer, final_redis_payload_v2, is_latest, no_peer,
}

lease_left-bounds :
    (w : World) (queued_at : ℕ) (c : Control) (s : Session)
    → within w.now s.adapter.grant_at s.adapter.grant_ttl ≡ true
    → 0 < lease_left w queued_at c s
    → (w.now + lease_left w queued_at c s ≤ s.adapter.grant_at + s.adapter.grant_ttl)
      × (w.now + lease_left w queued_at c s ≤ queued_at + c.lease_ttl_ms * 1000000)
unfolding lease_left within
lease_left-bounds w queued_at c s e h = ground (arith, e, h)

-- What was written, and how long it lasts.
abbrev pub Forwards : World → RedisPublication → Control → Session → String → Type 0
Forwards w p c s out =
    (ms : ℕ) × (write_message w (control (record c { lease_ttl_ms = ms })) ≡ some out)
    × (0 < ms)
    × (w.now + ms * 1000000 ≤ s.adapter.grant_at + s.adapter.grant_ttl)
    × (w.now + ms * 1000000 ≤ p.queued_at + c.lease_ttl_ms * 1000000)
    × (same_grant c s.adapter.grant_v2 ≡ true)

-- The encoder refuses a grant that lasts no time.
written_lease-positive :
    (w : World) (c : Control) (out : String)
    → (str_eq c.action "grant" || str_eq c.action "renew") ≡ true
    → write_message w (control c) ≡ some out
    → 0 < c.lease_ttl_ms
unfolding write_message validate_control_v2
written_lease-positive w c out g e =
    let (valid, sent) = if_some (validate_control_v2 c) _ e in ground (arith, g, valid)

final_grant-Forwards :
    (w : World) (p : RedisPublication) (c : Control) (s : Session) (out : String)
    → (str_eq c.action "grant" || str_eq c.action "renew") ≡ true
    → final_grant w p.queued_at c s ≡ some out
    → Forwards w p c s out
unfolding final_grant
final_grant-Forwards w p c s out g e =
    let left : ℕ = lease_left w p.queued_at c s in
    let (current, written) = if_some (lease_current w c s && ltb 0 left) _ e in
    let in_time : within w.now s.adapter.grant_at s.adapter.grant_ttl ≡ true =
      ground (arith, current) in
    let some_left : 0 < left = ground (arith, current) in
    let (own, queued) = lease_left-bounds w p.queued_at c s in_time some_left in
    (
      left / 1000000,
      written,
      written_lease-positive w _ out g written,
      omega (arith, own),
      omega (arith, queued),
      ground (arith, current),
    )

-- In the second protocol, a grant or a renewal that is passed to the scooter is the grant that the
-- adapter holds, and lasts for some time, but neither longer than the adapter's own lease nor longer
-- than the message allowed when it was queued.
pub final_redis_payload_v2-Forwards :
    (w : World) (p : RedisPublication) (c : Control) (s : Session) (out : String)
    → s.adapter.protocol_version ≡ 2
    → read_message w p.payload ≡ some (control c)
    → (str_eq c.action "grant" || str_eq c.action "renew") ≡ true
    → final_redis_payload_v2 w p s ≡ some out
    → Forwards w p c s out
unfolding final_redis_payload_v2 final_control
final_redis_payload_v2-Forwards w p c s out v r g e =
    let read : final_message w p s (read_message w p.payload) ≡ some out = ground (arith, v, e) in
    let checked : final_control w p c s ≡ some out =
      subst (λ m. final_message w p s m ≡ some out) r read in
    final_grant-Forwards w p c s out g (ground (arith, g, checked))

-- A position that was written again, and how long it is valid.
abbrev pub Ages : World → RedisPublication → PeerPositionV2 → String → Type 0
Ages w p v out =
    (ms : ℕ) × (write_message w (peer_position (record v { valid_for_ms = ms })) ≡ some out)
    × (0 < ms)
    × (w.now + ms * 1000000 < p.queued_at + v.valid_for_ms * 1000000 + 1000000)

aged_branch :
    (w : World) (v : PeerPositionV2) (b : Bool) (age : ℕ) (out : String)
    → aged w v (if b then none else some age) ≡ some out
    → (b ≡ false)
      × (ltb age v.valid_for_ms ≡ true)
      × (write_message w (peer_position (record v { valid_for_ms = v.valid_for_ms - age }))
          ≡ some out)
aged_branch w v true age out e = cc
aged_branch w v false age out e =
    let (younger, written) = if_some (ltb age v.valid_for_ms) _ e in (refl, younger, written)

aged-Ages :
    (w : World) (p : RedisPublication) (v : PeerPositionV2) (out : String)
    → aged w v (age_ms w.now p.queued_at) ≡ some out
    → Ages w p v out
aged-Ages w p v out e =
    let age : ℕ = (w.now - p.queued_at) / 1000000 in
    let (ahead, younger, written) = aged_branch w v (leb 1000000 (p.queued_at - w.now)) age out e in
    let sooner : age < v.valid_for_ms = ground (arith, younger) in
    let known : p.queued_at - w.now < 1000000 = ground (arith, ahead) in
    (v.valid_for_ms - age, written, omega (arith, sooner), omega (arith, sooner, known))

-- In the second protocol, a peer's position that is passed to the scooter is the last one of its
-- stream and still valid, and its validity ends less than a millisecond later than it did when it was
-- queued.
pub final_redis_payload_v2-Ages :
    (w : World) (p : RedisPublication) (v : PeerPositionV2) (s : Session) (out : String)
    → s.adapter.protocol_version ≡ 2
    → read_message w p.payload ≡ some (peer_position v)
    → final_redis_payload_v2 w p s ≡ some out
    → Ages w p v out × (is_latest v (or_else no_peer (lookup v.peer_id s.peer_streams)) ≡ true)
unfolding final_redis_payload_v2 final_peer
final_redis_payload_v2-Ages w p v s out u r e =
    let read : final_message w p s (read_message w p.payload) ≡ some out = ground (arith, u, e) in
    let checked : final_peer w p v s ≡ some out =
      subst (λ m. final_message w p s m ≡ some out) r read in
    let (current, written) =
      if_some
        (receiver_tuple_current_v2 w v.session_id v.revision v.transport_epoch v.stream_id s
          && is_latest v (or_else no_peer (lookup v.peer_id s.peer_streams)))
        _ checked in
    (aged-Ages w p v out written, ground (arith, current))
