-- ===== src/RideGroup/Egress.antt =====
-- internal/ridegroup/egress.go: what waits for the broker, one publication of each kind, and the worker
-- that sends it. The worker takes a publication in one critical section and looks at the adapter in
-- another, so they are two steps, and the publication between them is `in_hand`. A wake-up of the worker is
-- left out: it may take its next step at any time. The map of the waiting publications is a list that
-- has the one that came last at its end.
mod Queued
mod Order
mod Stopping
mod Examples
use radio_gaga.Common.{
  ℕ, zero, suc, ◌+◌, ◌-◌, ◌*◌, ◌/◌, ◌%◌, ◌^◌, ◌≤◌, ◌<◌, ◌≡◌, ◌≢◌, ◌↔◌, ◌⊎◌, inl, inr, refl, sym, ap,
  subst, ◌∙◌, Bool, true, false, not, ◌&&◌, ◌||◌, String, str_eq, str_eq_iff, str_eq_differs,
  str_append, starts_with, List, [], ◌∷◌, ◌++◌, map, Option, none, some, if◌then◌else◌, if-true,
  ltb, leb, ◌==◌, ==_iff, or_else, get, lookup, insert, delete, lookup-insert, length-insert,
  insert-All, member, length, take, drop, length-append, length-drop, drop-append_length, is_empty,
  any, All, All-append, All-iff, Bool-cases, Option-cases, is_some, ℤ, pos, negsuc, at_most,
  at_least, codes, parse_int, arith,
}
use radio_gaga.RideGroup.State.{Adapter}
use radio_gaga.RideGroup.Publication.{MqttPublication}
use radio_gaga.RideGroup.Authorization.{authorized, online}

abbrev pub Pending : Type 0
Pending = List (String × MqttPublication)

pub record Egress : Type 0 where
  pub pending : Pending
  pub order : ℕ
  pub closing : Bool
  pub in_hand : Option MqttPublication

abbrev pub new_egress : Egress
new_egress = record { pending = []; order = 0; closing = false; in_hand = none }

-- `a.mqttOrder++`, on 64 bits.
unfoldable pub next_order : ℕ → ℕ
next_order n = (n + 1) % 2 ^ 64

unfoldable pub store : String → MqttPublication → Pending → Pending
store kind p m = delete kind m ++ (kind, p) ∷ []

-- Whether a publication takes the place of the one that waits under its kind.
abbrev pub replaces : MqttPublication → String → Option MqttPublication → Bool
replaces p kind none = true
replaces p kind (some previous) =
    leb previous.priority p.priority
    || ((str_eq kind "activity" && (not p.activity_local_stop && previous.activity_local_stop))
        || not (str_eq p.unsubscribe ""))

abbrev pub kind_of : MqttPublication → String
kind_of p = if str_eq p.unsubscribe "" then p.kind else "unsubscribe"

unfoldable pub queue_mqtt_publication : MqttPublication → Egress → Egress
queue_mqtt_publication p e =
    if e.closing
    then e
    else (if replaces p (kind_of p) (lookup (kind_of p) e.pending)
        then record e {
          pending =
              store (kind_of p) (record p { kind = kind_of p; order = next_order e.order })
                e.pending;
          order = next_order e.order;
        }
        else e)

unfoldable pub drop_pending_position : Egress → Egress
drop_pending_position e = record e { pending = delete "v2_position" (delete "position" e.pending) }

unfoldable pub drop_pending_v2_source : Egress → Egress
drop_pending_v2_source e = record e { pending = delete "v2_source_status" e.pending }

-- A publication with nothing but these fields.
unfoldable pub unsubscription : ℕ → String → ℕ → MqttPublication
unsubscription client topic order = record {
  client = some client;
  connection = "";
  message = "";
  expires_at = 0;
  priority = 100;
  kind = "unsubscribe";
  order = order;
  unsubscribe = topic;
  activity_boot_nonce = "";
  activity_sequence = 0;
  activity_active = false;
  activity_local_stop = false;
  position_session_id = "";
  position_member_id = "";
  position_stream_id = "";
  position_revision = 0;
  position_epoch = 0;
  position_generation = 0;
  position_captured_at = 0;
  stop_challenge = "";
  source_state = "";
  source_sequence = 0;
  source_captured_at = 0;
  source_generation = 0;
}

unfoldable pub stop_mqtt_worker : Option ℕ → String → Egress → Egress
stop_mqtt_worker none topic e = record e { pending = []; closing = true }
stop_mqtt_worker (some client) topic e =
    if str_eq topic "" then record e { pending = []; closing = true } else record e {
      pending = ("unsubscribe", unsubscription client topic (next_order e.order)) ∷ [];
      order = next_order e.order;
      closing = true;
    }

-- The loop over the map for the least order.
abbrev pub least : String × MqttPublication → Pending → String × MqttPublication
least best [] = best
least best (x ∷ m) = least (if ltb x.1.order best.1.order then x else best) m

unfoldable pub next_mqtt_publication : Pending → Option MqttPublication × Pending
next_mqtt_publication [] = (none, [])
next_mqtt_publication (x ∷ m) = let (kind, p) = least x m in (some p, delete kind (x ∷ m))

unfoldable pub take_next : Egress → Egress
take_next e =
    let (next, rest) = next_mqtt_publication e.pending in
    record e { pending = rest; in_hand = next }

-- What the worker sees behind a publication: the clock, the clients that are connected, the adapter.
pub record Seen : Type 0 where
  pub now : ℕ
  pub connected : ℕ → Bool
  pub adapter : Adapter

pub data Attempt : Type 0 where
  unsubscribed : MqttPublication → Attempt
  published : MqttPublication → Attempt
  skipped : MqttPublication → Attempt

abbrev pub same_client : Option ℕ → Option ℕ → Bool
same_client none _ = false
same_client (some c) none = false
same_client (some c) (some d) = c == d

unfoldable pub attempt : Seen → MqttPublication → Attempt
attempt s p =
    if not (str_eq p.unsubscribe "")
    then (if online s.connected p.client then unsubscribed p else skipped p)
    else (if (not (p.expires_at == 0) && leb p.expires_at s.now)
          || not (online s.connected p.client)
        then skipped p
        else (if same_client p.client s.adapter.mqtt
              && (str_eq s.adapter.connection p.connection
                  && authorized s.connected s.now s.adapter p)
            then published p
            else skipped p))

abbrev pub attempted : Seen → Option MqttPublication → List Attempt
attempted s none = []
attempted s (some p) = attempt s p ∷ []

-- The second half of a round of the worker.
unfoldable pub send_taken : Seen → Egress → Egress × List Attempt
send_taken s e = (record e { in_hand = none }, attempted s e.in_hand)

-- A round, with the rounds behind it: the loop ends where nothing was taken.
abbrev pub round :
    Seen → Egress → Option MqttPublication → Egress × List Attempt → Egress × List Attempt
round s taken none rest = (taken, [])
round s taken (some p) (e, sends) = (e, attempt s p ∷ sends)

-- The inner loop of `runMQTTWorker`, with what each of its rounds sees; it ends where nothing waits. The
-- list says how many rounds are looked at.
unfoldable pub drain : List Seen → Egress → Egress × List Attempt
drain [] e = (e, [])
drain (s ∷ ss) e =
    let taken = take_next e in
    let rest = drain ss (record taken { in_hand = none }) in round s taken taken.in_hand rest

-- What happens to the queue, in any order.
pub data Action : Type 0 where
  queues : MqttPublication → Action
  drops_position : Action
  drops_v2_source : Action
  stops : Option ℕ → String → Action
  takes : Action
  sends : Seen → Action

unfoldable pub act : Action → Egress → Egress × List Attempt
act (queues p) e = (queue_mqtt_publication p e, [])
act drops_position e = (drop_pending_position e, [])
act drops_v2_source e = (drop_pending_v2_source e, [])
act (stops client topic) e = (stop_mqtt_worker client topic e, [])
act takes e = (if is_some e.in_hand then e else take_next e, [])
act (sends s) e = send_taken s e

unfoldable pub acts : List Action → Egress → Egress × List Attempt
acts [] e = (e, [])
acts (a ∷ as') e =
    let (after, sent) = act a e in let (last, rest) = acts as' after in (last, sent ++ rest)
