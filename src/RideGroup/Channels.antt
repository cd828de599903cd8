-- ===== src/RideGroup/Channels.antt =====
-- internal/ridegroup/egress.go: the bounded channels to Redis and to the acknowledgements. An operation
-- runs to its end before the worker at the other end takes from the channel.
mod Window
mod Examples
use radio_gaga.Common.{
  ℕ, zero, suc, ◌+◌, ◌-◌, ◌*◌, ◌/◌, ◌%◌, ◌^◌, ◌≤◌, ◌<◌, ◌≡◌, ◌≢◌, ◌↔◌, ◌⊎◌, inl, inr, refl, sym, ap,
  subst, ◌∙◌, Bool, true, false, not, ◌&&◌, ◌||◌, String, str_eq, str_eq_iff, str_eq_differs,
  str_append, starts_with, List, [], ◌∷◌, ◌++◌, map, Option, none, some, if◌then◌else◌, if-true,
  ltb, leb, ◌==◌, ==_iff, or_else, get, lookup, insert, delete, lookup-insert, length-insert,
  insert-All, member, length, take, drop, length-append, length-drop, drop-append_length, is_empty,
  any, All, All-append, All-iff, Bool-cases, Option-cases, is_some, ℤ, pos, negsuc, at_most,
  at_least, codes, parse_int, arith,
}

pub record RedisPublication : Type 0 where
  pub channel : String
  pub payload : String
  pub expires_at : ℕ
  pub queued_at : ℕ

-- `redisEgressQueueSize`.
abbrev pub queue_size : ℕ
queue_size = 8

-- `ch <- x` in a `select` with a `default`: `none` where the channel is full.
abbrev pub offer : {A : Type 0} → A → List A → Option (List A)
offer x q = if ltb (length q) queue_size then some (q ++ x ∷ []) else none

-- `expiresAt`: zero where the age is not positive.
abbrev pub expiry : ℕ → ℤ → ℕ
expiry now (pos age) = if age == 0 then 0 else now + age
expiry now (negsuc age) = 0

unfoldable pub publication_of : ℕ → String → String → ℤ → RedisPublication
publication_of now channel payload max_age = record {
  channel = channel;
  payload = payload;
  expires_at = expiry now max_age;
  queued_at = now;
}

-- The inner `select`, where the channel was full.
unfoldable pub make_room : RedisPublication → List RedisPublication → List RedisPublication
make_room p q = or_else (drop 1 q) (offer p (drop 1 q))

unfoldable pub enqueue : RedisPublication → List RedisPublication → List RedisPublication
enqueue p q = or_else (make_room p q) (offer p q)

unfoldable pub queue_redis_publication :
    ℕ → String → String → ℤ → List RedisPublication → List RedisPublication
queue_redis_publication now channel payload max_age q =
    enqueue (publication_of now channel payload max_age) q

-- A message for an acknowledgement, with its quality of service.
pub record Message : Type 0 where
  pub id : ℕ
  pub qos : ℕ

unfoldable pub queue_ack : Option Message → List Message → List Message
queue_ack none q = q
queue_ack (some m) q = if m.qos == 0 then q else or_else q (offer m q)
