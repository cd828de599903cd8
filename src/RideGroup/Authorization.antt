-- ===== src/RideGroup/Authorization.antt =====
-- `mqttPublicationAuthorizedLocked` of internal/ridegroup/egress.go: whether a publication is still right
-- when its turn comes. The clients that are connected are a parameter.
use radio_gaga.Common.{
  ℕ, Bool, true, false, not, ◌&&◌, ◌||◌, String, str_eq, Option, none, some, if◌then◌else◌, leb,
  ◌==◌, lookup, member, is_some,
}
use radio_gaga.RideGroup.State.{Activity, SourceStatusV2, LocalStopV2, LocalStopAttemptV2, Adapter}
use radio_gaga.RideGroup.Publication.{
  MqttPublication, Tuple, at_tuple, fresh, is_active, lease_duration, phase_is, riders_of, rides,
  same_option, tuple_of, within,
}

module _ (connected : ℕ → Bool) where
  abbrev pub online : Option ℕ → Bool
  online none = false
  online (some client) = connected client

  unfoldable pub grant_current_v2 : ℕ → Adapter → Bool
  grant_current_v2 now a =
      a.protocol_version == 2
      && (a.settings_ready
          && (a.journal_ready
              && (not a.blocked
                  && (not a.journal_blocked_v2
                      && (phase_is "idle" a.journal_state_v2
                          && (online a.mqtt
                              && (is_some a.grant_v2
                                  && (a.grant_active
                                      && (not (a.grant_at == 0)
                                          && (within now a.grant_at a.grant_ttl
                                              && (is_active a.activity_v2
                                                  && within now a.activity_at
                                                      lease_duration)))))))))))

  unfoldable pub hello_v2_authorized : Adapter → Bool
  hello_v2_authorized a = a.settings_ready && (a.protocol_version == 2 && online a.mqtt)

  abbrev pub same_activity : MqttPublication → Option Activity → Bool
  same_activity p none = false
  same_activity p (some v) =
      str_eq v.boot_nonce p.activity_boot_nonce
      && (v.sequence == p.activity_sequence
          && (if v.active then p.activity_active else not p.activity_active))

  unfoldable pub activity_v2_authorized : ℕ → Adapter → MqttPublication → Bool
  activity_v2_authorized now a p =
      a.settings_ready
      && (a.journal_ready
          && (not a.blocked
              && (not a.journal_blocked_v2
                  && (phase_is "idle" a.journal_state_v2
                      && (online a.mqtt
                          && (same_activity p a.activity_v2
                              && within now a.activity_at lease_duration))))))

  unfoldable pub position_v2_authorized : ℕ → Adapter → MqttPublication → Bool
  position_v2_authorized now a p =
      grant_current_v2 now a
      && (not a.no_fix_closed_v2
          && at_tuple now a p (tuple_of a.grant_v2) (riders_of a.activity_v2))

  abbrev pub at_status :
      ℕ
      → Adapter
      → MqttPublication
      → Option SourceStatusV2
      → Option Tuple
      → Option (String × String)
      → Bool
  at_status now a p none _ _ = false
  at_status now a p (some s) none _ = false
  at_status now a p (some s) (some t) none = false
  at_status now a p (some s) (some t) (some (session, member)) =
      p.source_generation == a.source_status_generation
      && (p.source_sequence == s.sequence
          && (str_eq p.source_state s.state
              && (str_eq s.session_id t.session
                  && (str_eq s.member_id t.member
                      && (str_eq s.stream_id t.stream
                          && (s.revision == t.revision
                              && (s.transport_epoch == t.epoch
                                  && (str_eq s.connection_nonce a.connection
                                      && (str_eq session s.session_id
                                          && (str_eq member s.member_id
                                              && (if str_eq s.state "no_fix"
                                                  then a.no_fix_closed_v2
                                                  else is_some s.captured_at_ms
                                                    && fresh now p.source_captured_at)))))))))))

  unfoldable pub source_status_v2_authorized : ℕ → Adapter → MqttPublication → Bool
  source_status_v2_authorized now a p =
      grant_current_v2 now a
      && at_status now a p a.last_source_status_v2 (tuple_of a.grant_v2) (riders_of a.activity_v2)

  abbrev pub operates : Option String → String → Bool
  operates none id = false
  operates (some op) id = str_eq op id

  abbrev pub at_journal : ℕ → Adapter → Option LocalStopAttemptV2 → Option LocalStopV2 → Bool
  at_journal now a none _ = false
  at_journal now a (some t) none = false
  at_journal now a (some t) (some j) =
      not t.consumed
      && (str_eq t.connection_nonce a.connection
          && (t.ipc_epoch == a.journal_ipc_epoch_v2
              && (leb t.started_at now
                  && (leb now t.deadline
                      && (operates j.operation_id t.operation_id
                          && (j.journal_revision == t.journal_revision
                              && (if str_eq t.mode "apply"
                                  then str_eq j.phase "prepared"
                                    && (same_option j.expected_generation t.fence
                                        && not (is_some j.committed_generation))
                                  else (str_eq j.phase "prepared" || str_eq j.phase "uncertain")
                                    && same_option j.expected_generation t.fence)))))))

  unfoldable pub stop_v2_authorized : ℕ → Adapter → MqttPublication → Bool
  stop_v2_authorized now a p =
      at_journal now a (lookup p.stop_challenge a.local_attempts_v2) a.journal_state_v2

  unfoldable pub position_authorized : ℕ → Adapter → MqttPublication → Bool
  position_authorized now a p =
      a.settings_ready
      && (not a.blocked
          && (not a.local_stop_pending
              && (is_some a.mqtt
                  && (is_some a.grant
                      && (a.grant_active
                          && (not (a.grant_at == 0)
                              && (within now a.grant_at a.grant_ttl
                                  && (rides a.activity
                                      && (within now a.activity_at lease_duration
                                          && at_tuple now a p (tuple_of a.grant)
                                              (riders_of a.activity))))))))))

  abbrev pub named_activity : Adapter → MqttPublication → Bool
  named_activity a p =
      str_eq a.activity_boot_nonce p.activity_boot_nonce
      && a.activity_sequence == p.activity_sequence

  abbrev pub stays_inactive : Adapter → MqttPublication → Option Activity → Bool
  stays_inactive a p none = true
  stays_inactive a p (some v) = not v.active && (not v.local_stop && named_activity a p)

  unfoldable pub activity_authorized : ℕ → Adapter → MqttPublication → Bool
  activity_authorized now a p =
      if p.activity_local_stop
      then a.local_stop_pending
      else (if p.activity_active
          then a.settings_ready
            && (not a.blocked
                && (not a.local_stop_pending
                    && (rides a.activity
                        && (named_activity a p && within now a.activity_at lease_duration))))
          else not (a.blocked || a.local_stop_pending) && stays_inactive a p a.activity)

  unfoldable pub authorized : ℕ → Adapter → MqttPublication → Bool
  authorized now a p =
      if str_eq p.kind "v2_hello"
      then hello_v2_authorized a
      else (if str_eq p.kind "v2_activity"
          then activity_v2_authorized now a p
          else (if str_eq p.kind "v2_position"
              then position_v2_authorized now a p
              else (if str_eq p.kind "v2_source_status"
                  then source_status_v2_authorized now a p
                  else (if str_eq p.kind "v2_stop"
                      then stop_v2_authorized now a p
                      else (if str_eq p.kind "position"
                          then position_authorized now a p
                          else (if str_eq p.kind "activity"
                              then activity_authorized now a p
                              else true))))))
