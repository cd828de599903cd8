-- ===== src/RideGroup/Session/Lifecycle.antt =====
-- internal/ridegroup/adapter.go and protocol_v2_adapter.go, in the second protocol: connections, leases
-- that end, the setting that blocks sharing, and what is received. Connecting is two critical sections
-- with the subscription between them. The feature is enabled, and the adapter's context is alive; its
-- `activity` and `grant` are those of the first protocol, and never set.
use radio_gaga.Common.{
  ℕ, Bool, true, false, not, ◌&&◌, ◌||◌, String, str_eq, [], Option, none, some, if◌then◌else◌, leb,
  ◌==◌, is_some,
}
use radio_gaga.RideGroup.State.{LocalStopAttemptV2}
use radio_gaga.RideGroup.Publication.{within, lease_duration}
use radio_gaga.RideGroup.Messages.{
  Message, activity, local_stop, control, peer_position, peer_status,
}
use radio_gaga.RideGroup.Egress.{drop_pending_position, same_client, stop_mqtt_worker}
use radio_gaga.RideGroup.Session.{
  read_message, reconcile, Session, World, retain, next_generation, invalidate_local_attempts_v2,
  clear_grant_v2, inhibit_journal_v2,
}
use radio_gaga.RideGroup.Session.Sending.{is_online, publish_hello_v2}
use radio_gaga.RideGroup.Session.Probes.{
  issue_local_probe_v2, maybe_issue_reconciliation_probe_v2, drop_dead_probes,
}
use radio_gaga.RideGroup.Session.Sources.{retry_no_fix_status_v2}
use radio_gaga.RideGroup.Session.Snapshots.{handle_local_stop_snapshot_v2}
use radio_gaga.RideGroup.Session.Activities.{accept_activity_v2}
use radio_gaga.RideGroup.Session.Controls.{handle_control_v2}
use radio_gaga.RideGroup.Session.Peers.{handle_peer_v2, handle_peer_status_v2}

unfoldable pub invalidate_position_publications : Session → Session
invalidate_position_publications s = record s {
  adapter = record s.adapter {
    position_generation = next_generation s.adapter.position_generation;
  };
  egress = drop_pending_position s.egress;
}

unfoldable pub clear_grant : Session → Session
clear_grant s =
    let invalidated = invalidate_position_publications s in
    clear_grant_v2 (record invalidated { adapter = record invalidated.adapter { grant = none } })

unfoldable pub attempt_lives : World → Session → LocalStopAttemptV2 → Bool
attempt_lives w s t =
    leb w.now t.deadline
    && (str_eq t.connection_nonce s.adapter.connection
        && t.ipc_epoch == s.adapter.journal_ipc_epoch_v2)

unfoldable pub expire_activity : World → Session → Session
expire_activity w s =
    if is_some s.adapter.activity_v2 && not (within w.now s.adapter.activity_at lease_duration)
    then clear_grant_v2 (record s {
      adapter = record s.adapter { activity_v2 = none; activity = none; activity_at = 0 };
      challenges = [];
    })
    else s

unfoldable pub expire_grant : World → Session → Session
expire_grant w s =
    if is_some s.adapter.grant_v2 && not (within w.now s.adapter.grant_at s.adapter.grant_ttl)
    then clear_grant_v2 s
    else s

unfoldable pub drop_dead_attempts : World → Session → Session
drop_dead_attempts w s = record s {
  adapter = record s.adapter {
    local_attempts_v2 = retain (attempt_lives w s) s.adapter.local_attempts_v2;
  };
}

unfoldable pub expire_v2_lease : World → Session → Session
expire_v2_lease w s =
    drop_dead_attempts w (drop_dead_probes w (expire_grant w (expire_activity w s)))

unfoldable pub expire_lease : World → Session → Session
expire_lease w s = retry_no_fix_status_v2 w (expire_v2_lease w s)

unfoldable pub reset_connection : Option ℕ → String → Session → Session
reset_connection client connection s =
    let invalidated = invalidate_local_attempts_v2 (record s {
      adapter = record s.adapter {
        mqtt = client;
        connection = connection;
        activity = none;
        activity_at = 0;
      };
      last_hello_at = 0;
      position_seq = 0;
      position_stream_id = "";
      position_session_id = "";
      position_epoch = 0;
      challenges = [];
    }) in
    clear_grant (record invalidated {
      adapter = record invalidated.adapter {
        journal_ready = false;
        journal_ipc_epoch_v2 = next_generation invalidated.adapter.journal_ipc_epoch_v2;
        activity_v2 = none;
        grant_v2 = none;
        journal_state_v2 = none;
        journal_blocked_v2 = false;
      };
      offer_permit_v2 = none;
      last_cleared_v2 = none;
      last_authority_v2 = none;
      pending_query_v2 = none;
    })

-- Up to the subscription: the number of the attempt, where there is one.
unfoldable pub begin_connect : World → ℕ → Session → Session × Option ℕ
begin_connect w client s =
    if not (w.connected client)
      || ((same_client (some client) s.adapter.mqtt && not (str_eq s.adapter.connection ""))
          || s.connecting)
    then (s, none)
    else (
      record s { connecting = true; connect_attempt = next_generation s.connect_attempt },
      some (next_generation s.connect_attempt),
    )

abbrev pub greet_connection : World → Session → Session
greet_connection w s =
    let greeted = publish_hello_v2 w "" s in
    if greeted.adapter.settings_ready
    then (issue_local_probe_v2 w reconcile none greeted).0
    else greeted

-- Behind the subscription; no identifier where it failed.
unfoldable pub end_connect : World → ℕ → ℕ → Option String → Session → Session
end_connect w client attempt none s =
    if s.connect_attempt == attempt then record s { connecting = false } else s
end_connect w client attempt (some connection) s =
    if s.connect_attempt == attempt
    then greet_connection w
        (reset_connection (some client) connection (record s { connecting = false }))
    else s

unfoldable pub on_disconnected : ℕ → Session → Session
on_disconnected client s =
    let ended : Session = record s {
      connecting = false;
      connect_attempt = next_generation s.connect_attempt;
    } in
    if same_client (some client) s.adapter.mqtt
    then reset_connection none "" ended
    else (if s.connecting then ended else s)

-- `Stop`, with the topic that is unsubscribed from.
unfoldable pub stop_adapter : World → String → Session → Session
stop_adapter w topic s =
    let ended =
      clear_grant
        (record s { connecting = false; connect_attempt = next_generation s.connect_attempt }) in
    record ended {
      adapter = record ended.adapter { mqtt = none };
      egress = stop_mqtt_worker s.adapter.mqtt (if is_online w s then topic else "") ended.egress;
    }

abbrev pub greet_ready : World → Bool → Session → Session
greet_ready w was_ready s =
    if not was_ready && is_online w s
    then (issue_local_probe_v2 w reconcile none (publish_hello_v2 w "" s)).0
    else s

abbrev pub inhibit_sharing : World → Session → Session
inhibit_sharing w s =
    let inhibited = invalidate_local_attempts_v2 (inhibit_journal_v2 s) in
    maybe_issue_reconciliation_probe_v2 w (record inhibited {
      adapter = record inhibited.adapter {
        journal_ipc_epoch_v2 = next_generation inhibited.adapter.journal_ipc_epoch_v2;
      };
    })

-- The state of the setting `ride-group.blocked` that was read.
unfoldable pub refresh_blocked : World → Bool → Session → Session
refresh_blocked w blocked s =
    let greeted =
      greet_ready w s.adapter.settings_ready
        (record s { adapter = record s.adapter { blocked = blocked; settings_ready = true } }) in
    if blocked || s.adapter.blocked then inhibit_sharing w greeted else greeted

unfoldable pub fail_closed : Session → Session
fail_closed s =
    let invalidated = invalidate_local_attempts_v2 (record s {
      adapter = record s.adapter {
        settings_ready = false;
        activity = none;
        activity_v2 = none;
        activity_at = 0;
      };
      challenges = [];
    }) in
    clear_grant (record invalidated {
      adapter = record invalidated.adapter {
        journal_ready = false;
        journal_blocked_v2 = true;
        journal_state_v2 = none;
        journal_ipc_epoch_v2 = next_generation invalidated.adapter.journal_ipc_epoch_v2;
      };
      offer_permit_v2 = none;
    })

-- `handleActivityV2`, by the type of what the parser read.
abbrev pub received_activity : World → Session → Option Message → Session
received_activity w s none = s
received_activity w s (some (local_stop j)) = handle_local_stop_snapshot_v2 w j s
received_activity w s (some (activity v)) = accept_activity_v2 w v s
received_activity w s (some m) = s

unfoldable pub handle_activity_v2 : World → String → Session → Session
handle_activity_v2 w payload s = received_activity w s (read_message w payload)

abbrev pub received : World → String → Session → Option Message → Session
received w payload s none = s
received w payload s (some (control c)) = handle_control_v2 w payload c s
received w payload s (some (peer_position p)) = handle_peer_v2 w payload p s
received w payload s (some (peer_status p)) = handle_peer_status_v2 w payload p s
received w payload s (some m) = s

-- `handleDownlink`, up to the acknowledgement; the parser refuses what is over 1024 bytes.
unfoldable pub handle_downlink : World → Bool → String → Session → Session
handle_downlink w retained payload s =
    if retained then s else received w payload s (read_message w payload)
