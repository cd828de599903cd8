-- ===== src/RideGroup/Session/Sending.antt =====
-- internal/ridegroup/protocol_v2_adapter.go: what is queued for the broker and for Redis. Everything for
-- the broker goes to one topic, which is left out with the quality of service.
use radio_gaga.Common.{
  ℕ, ◌+◌, ◌*◌, Bool, false, not, ◌||◌, String, str_eq, Option, none, some, if◌then◌else◌, ℤ,
}
use radio_gaga.RideGroup.State.{Activity}
use radio_gaga.RideGroup.Publication.{MqttPublication, second}
use radio_gaga.RideGroup.Authorization.{online}
use radio_gaga.RideGroup.Messages.{hello, wire_activity}
use radio_gaga.RideGroup.Egress.{queue_mqtt_publication}
use radio_gaga.RideGroup.Channels.{queue_redis_publication}
use radio_gaga.RideGroup.Session.{write_message, Session, World, attempt_lifetime}

-- `a.mqtt != nil && a.mqtt.IsConnected()`.
abbrev pub is_online : World → Session → Bool
is_online w s = online w.connected s.adapter.mqtt

-- A publication with the fields that every kind has, and the rest unset.
unfoldable pub publication : Session → String → String → ℕ → ℕ → MqttPublication
publication s kind message priority expires_at = record {
  client = s.adapter.mqtt;
  connection = s.adapter.connection;
  message = message;
  expires_at = expires_at;
  priority = priority;
  kind = kind;
  order = 0;
  unsubscribe = "";
  activity_boot_nonce = "";
  activity_sequence = 0;
  activity_active = false;
  activity_local_stop = false;
  position_session_id = "";
  position_member_id = "";
  position_stream_id = "";
  position_revision = 0;
  position_epoch = 0;
  position_generation = 0;
  position_captured_at = 0;
  stop_challenge = "";
  source_state = "";
  source_sequence = 0;
  source_captured_at = 0;
  source_generation = 0;
}

unfoldable pub queue_mqtt : MqttPublication → Session → Session
queue_mqtt p s = record s { egress = queue_mqtt_publication p s.egress }

unfoldable pub queue_redis : World → String → String → ℤ → Session → Session
queue_redis w channel payload max_age s = record s {
  redis_queue = queue_redis_publication w.now channel payload max_age s.redis_queue;
}

abbrev send_hello : World → Session → Option String → Session
send_hello w s none = s
send_hello w s (some payload) =
    record (queue_mqtt (publication s "v2_hello" payload 3 (w.now + attempt_lifetime)) s) {
      last_hello_at = w.now;
    }

abbrev hello_with : World → Session → Option String → Session
hello_with w s none = s
hello_with w s (some challenge) = send_hello w s (
    write_message w
      (hello (record { connection_nonce = s.adapter.connection; challenge = challenge })))

unfoldable pub publish_hello_v2 : World → String → Session → Session
publish_hello_v2 w challenge s =
    if not (is_online w s) || str_eq s.adapter.connection ""
    then s
    else hello_with w s (if str_eq challenge "" then w.hello_uuid else some challenge)

abbrev send_activity : World → Activity → Session → Option String → Session
send_activity w v s none = s
send_activity w v s (some payload) =
    queue_mqtt
      (record (publication s "v2_activity" payload 2 (w.now + 5 * second)) {
        activity_boot_nonce = v.boot_nonce;
        activity_sequence = v.sequence;
        activity_active = v.active;
      })
      s

unfoldable pub publish_activity_v2 : World → Activity → Session → Session
publish_activity_v2 w v s =
    if not (is_online w s) || str_eq s.adapter.connection ""
    then s
    else send_activity w v s
        (write_message w (wire_activity s.adapter.connection (record v { local_stop = false })))
