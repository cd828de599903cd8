-- ===== src/RideGroup/Egress/Examples.antt =====
-- A queue of a position and a greeting, and the theorems at it.
use radio_gaga.Common.{
  ◌*◌, ◌≤◌, ◌≡◌, ◌⊎◌, refl, true, false, List, [], ◌∷◌, map, none, some, lookup, delete, length,
  arith,
}
use radio_gaga.RideGroup.State.{Activity, Control, Adapter}
use radio_gaga.RideGroup.Publication.{MqttPublication, second, within, fresh}
use radio_gaga.RideGroup.Authorization.{authorized, position_authorized}
use radio_gaga.RideGroup.Egress.{
  Egress, new_egress, Seen, published, attempt, drain, queues, takes, sends, act, acts,
  stop_mqtt_worker, queue_mqtt_publication, next_order, store, Action,
}
use radio_gaga.RideGroup.Egress.Order.{subject, waiting, Ascending, drain-acts}
use radio_gaga.RideGroup.Egress.Stopping.{publications, stop_mqtt_worker-acts}

abbrev greeting : MqttPublication
greeting = record {
  client = some 1;
  connection = "c";
  message = "hello";
  expires_at = 0;
  priority = 3;
  kind = "hello";
  order = 0;
  unsubscribe = "";
  activity_boot_nonce = "";
  activity_sequence = 0;
  activity_active = false;
  activity_local_stop = false;
  position_session_id = "s";
  position_member_id = "m";
  position_stream_id = "t";
  position_revision = 1;
  position_epoch = 2;
  position_generation = 7;
  position_captured_at = 100 * second;
  stop_challenge = "";
  source_state = "";
  source_sequence = 0;
  source_captured_at = 0;
  source_generation = 0;
}

abbrev position : MqttPublication
position = record greeting { kind = "position"; priority = 1; expires_at = 105 * second }

abbrev grant : Control
grant = record {
  connection_nonce = "c";
  action = "grant";
  session_id = some "s";
  member_id = some "m";
  revision = 1;
  transport_epoch = 2;
  stream_id = some "t";
  challenge = "q";
  server_time_ms = 1;
  lease_ttl_ms = 10000;
  cadence_ms = some 2000;
  peers = [];
  consent_generation = 0;
  stop_operation_id = none;
  stop_result = none;
  stop_expected_generation = none;
}

abbrev activity : Activity
activity = record {
  boot_nonce = "b";
  sequence = 3;
  active = true;
  local_stop = false;
  session_id = some "s";
  member_id = some "m";
  challenge = "q";
}

abbrev adapter : Adapter
adapter = record {
  protocol_version = 1;
  mqtt = some 1;
  connection = "c";
  activity = some activity;
  activity_at = 95 * second;
  activity_boot_nonce = "b";
  activity_sequence = 3;
  grant = some grant;
  grant_at = 90 * second;
  grant_ttl = 30 * second;
  grant_active = true;
  position_generation = 7;
  blocked = false;
  local_stop_pending = false;
  settings_ready = true;
  activity_v2 = none;
  grant_v2 = none;
  journal_ready = false;
  journal_state_v2 = none;
  journal_blocked_v2 = false;
  journal_ipc_epoch_v2 = 0;
  local_attempts_v2 = [];
  last_source_status_v2 = none;
  no_fix_closed_v2 = false;
  source_status_generation = 0;
}

abbrev seen : Seen
seen = record { now = 102 * second; connected = λ c. true; adapter = adapter }

goes_out : attempt seen position ≡ published position
unfolding attempt authorized position_authorized within fresh
goes_out = refl

abbrev actions : List Action
actions = queues position ∷ queues greeting ∷ queues position ∷ []

two_wait : length (acts actions new_egress).0.pending ≤ 3
unfolding acts act queue_mqtt_publication store delete lookup next_order
two_wait = omega arith

drain-acts_example :
    ((drain
        (seen ∷ seen ∷ seen ∷ [])
        (record (acts actions new_egress).0 { in_hand = none })).0.pending
      ≡ [])
    × (map subject
          (drain
            (seen ∷ seen ∷ seen ∷ [])
            (record (acts actions new_egress).0 { in_hand = none })).1
        ≡ waiting (acts actions new_egress).0.pending)
    × Ascending 0 (waiting (acts actions new_egress).0.pending)
drain-acts_example = drain-acts actions (seen ∷ seen ∷ seen ∷ []) (omega arith) two_wait

abbrev busy : Egress
busy = record new_egress { in_hand = some position }

stop_mqtt_worker-acts_example :
    (publications
        (acts
          (queues greeting ∷ sends seen ∷ takes ∷ sends seen ∷ [])
          (stop_mqtt_worker (some 1) "topic" busy)).1
      ≡ [])
    ⊎ ((p : MqttPublication) × (some position ≡ some p)
        × (publications
              (acts
                (queues greeting ∷ sends seen ∷ takes ∷ sends seen ∷ [])
                (stop_mqtt_worker (some 1) "topic" busy)).1
            ≡ p ∷ []))
stop_mqtt_worker-acts_example =
    stop_mqtt_worker-acts (some 1) "topic" busy
      (queues greeting ∷ sends seen ∷ takes ∷ sends seen ∷ [])
