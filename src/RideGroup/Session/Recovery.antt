-- ===== src/RideGroup/Session/Recovery.antt =====
-- How the adapter of internal/ridegroup comes to believe the journal again.
use radio_gaga.Common.{
  same_text, ◌+◌, ◌≤◌, ◌≡◌, refl, sym, ap, subst, ◌∙◌, true, false, ◌&&◌, String, str_eq, [], none,
  some, if-true, leb, ◌==◌, lookup, lookup-insert, length, arith,
}
use radio_gaga.RideGroup.State.{LocalStopV2}
use radio_gaga.RideGroup.Messages.{local_stop, local_stop_probe}
use radio_gaga.RideGroup.Session.{
  write_message, reconcile, LocalProbe, Session, World, attempt_lifetime, retain,
  invalidate_local_attempts_v2, clear_grant_v2, inhibit_journal_v2,
}
use radio_gaga.RideGroup.Session.Sending.{queue_redis, is_online}
use radio_gaga.RideGroup.Session.Probes.{
  recent, new_probe, can_probe, register, issue_local_probe_v2, maybe_issue_reconciliation_probe_v2,
  drop_dead_probes, drop_old_times, consume_probe_v2,
}
use radio_gaga.RideGroup.Session.Snapshots.{
  pursue, accept_journal_revision_v2, adopt, accept_snapshot, is_answered,
  handle_local_stop_snapshot_v2,
}
use radio_gaga.RideGroup.Session.Machine.{Standing, standing}
use radio_gaga.RideGroup.Session.Standing.{pursue-standing}

-- The adapter asks again, and the journal answers, in time and as idle.
pub record Answered (w v : World) (j : LocalStopV2) (s : Session) : Type 0 where
  pub text : String
  pub canonical : String
  pub able : can_probe w s ≡ true
  pub few : leb 10 (length (recent w.now s.probe_times_v2)) ≡ false
  pub asked : w.probe_uuid ≡ some j.challenge
  pub written : write_message w (local_stop_probe j.challenge) ≡ some text
  pub online : is_online v s ≡ true
  pub begun : w.now ≤ v.now
  pub in_time : v.now ≤ w.now + attempt_lifetime
  pub encoded : write_message v (local_stop j) ≡ some canonical
  pub is_idle : str_eq j.phase "idle" ≡ true
  pub free : j.blocked ≡ false
  pub revised : accept_journal_revision_v2 j s.adapter.journal_state_v2 ≡ true

probed-answered :
    (w v : World) (j : LocalStopV2) (s : Session) (text : String)
    → is_online v s ≡ true
    → w.now ≤ v.now
    → v.now ≤ w.now + attempt_lifetime
    → s.journal_probes_v2 ≡ []
    → is_answered v
        (register w s reconcile none j.challenge (some text)).0
        (new_probe w s reconcile none j.challenge)
      ≡ true
unfolding new_probe queue_redis
probed-answered w v j s text online begun in_time empty =
    ground (arith, online, begun, in_time, same_text s.adapter.connection)

probed-lookup :
    (w : World) (j : LocalStopV2) (s : Session) (text : String)
    → s.journal_probes_v2 ≡ []
    → lookup j.challenge (register w s reconcile none j.challenge (some text)).0.journal_probes_v2
      ≡ some (new_probe w s reconcile none j.challenge)
unfolding queue_redis
probed-lookup w j s text empty =
    lookup-insert j.challenge j.challenge (new_probe w s reconcile none j.challenge)
      s.journal_probes_v2
    ∙ if-true (str_eq j.challenge j.challenge) _ _ (same_text j.challenge)

issued :
    (w : World) (challenge text : String) (s : Session)
    → can_probe w s ≡ true
    → leb 10 (length (recent w.now s.probe_times_v2)) ≡ false
    → w.probe_uuid ≡ some challenge
    → write_message w (local_stop_probe challenge) ≡ some text
    → s.journal_probes_v2 ≡ []
    → maybe_issue_reconciliation_probe_v2 w s
      ≡ (register w
          (drop_old_times w (drop_dead_probes w s))
          reconcile
          none
          challenge
          (some text)).0
unfolding maybe_issue_reconciliation_probe_v2 issue_local_probe_v2 drop_old_times drop_dead_probes
    retain
issued w challenge text s able few asked written empty =
    let enabled : (s.adapter.protocol_version == 2 && (s.adapter.settings_ready && is_online w s))
        ≡ true =
      ground (arith, able) in
    simp (enabled, able, few, asked, written, empty)

-- The journal is ready, not blocked, and as it was seen.
abbrev pub Believes : LocalStopV2 → Standing → Type 0
Believes j v = (v.ready ≡ true) × (v.blocked ≡ false) × (v.journal ≡ some j)

adopt-idle :
    (j : LocalStopV2) (s : Session)
    → str_eq j.phase "idle" ≡ true
    → j.blocked ≡ false
    → ((adopt j s).adapter.journal_ready ≡ true)
      × ((adopt j s).adapter.journal_blocked_v2 ≡ false)
      × ((adopt j s).adapter.journal_state_v2 ≡ some j)
unfolding adopt clear_grant_v2
adopt-idle j s i b = (simp (i, b), simp (i, b), simp (i, b))

adopt-Believes :
    (j : LocalStopV2) (s : Session)
    → str_eq j.phase "idle" ≡ true
    → j.blocked ≡ false
    → Believes j (standing (adopt j s))
adopt-Believes j s i b = adopt-idle j s i b

snapshot-adopt :
    (v : World) (j : LocalStopV2) (canonical : String) (s : Session) (probe : LocalProbe)
    → write_message v (local_stop j) ≡ some canonical
    → lookup j.challenge s.used_local_challenges ≡ none
    → lookup j.challenge s.journal_probes_v2 ≡ some probe
    → is_answered v s probe ≡ true
    → probe.purpose ≡ reconcile
    → accept_journal_revision_v2 j s.adapter.journal_state_v2 ≡ true
    → handle_local_stop_snapshot_v2 v j s
      ≡ pursue v j probe (adopt j (consume_probe_v2 v probe canonical s))
unfolding handle_local_stop_snapshot_v2 accept_snapshot
snapshot-adopt v j canonical s probe encoded unused found answered purpose revised =
    simp (encoded, unused, found, answered, revised, purpose)

-- A snapshot of an idle journal in answer to a challenge that reconciles.
snapshot-Believes :
    (v : World) (j : LocalStopV2) (canonical : String) (s : Session) (probe : LocalProbe)
    → write_message v (local_stop j) ≡ some canonical
    → lookup j.challenge s.used_local_challenges ≡ none
    → lookup j.challenge s.journal_probes_v2 ≡ some probe
    → is_answered v s probe ≡ true
    → probe.purpose ≡ reconcile
    → accept_journal_revision_v2 j s.adapter.journal_state_v2 ≡ true
    → str_eq j.phase "idle" ≡ true
    → j.blocked ≡ false
    → Believes j (standing (handle_local_stop_snapshot_v2 v j s))
snapshot-Believes v j canonical s probe encoded unused found answered purpose revised i b =
    let consumed : Session = consume_probe_v2 v probe canonical s in
    subst (Believes j)
      (sym (
        ap standing
          (snapshot-adopt v j canonical s probe encoded unused found answered purpose revised)
        ∙ pursue-standing v j probe (adopt j consumed)))
      (adopt-Believes j consumed i b)

-- An adapter that stopped to believe the journal believes it again, with the journal ready and no longer
-- blocked, when it can ask, has asked fewer than ten times in ten seconds, and the journal answers the
-- probe within ten seconds that it is idle and not blocked, with a revision that may follow the one
-- last seen.
pub inhibited-recovers :
    (w v : World) (j : LocalStopV2) (s : Session)
    → Answered w v j s
    → Believes j (
        standing (
          handle_local_stop_snapshot_v2 v j
            (maybe_issue_reconciliation_probe_v2 w (inhibit_journal_v2 s))))
unfolding new_probe inhibit_journal_v2 clear_grant_v2 invalidate_local_attempts_v2 drop_old_times
    drop_dead_probes queue_redis lookup retain
inhibited-recovers w v j s h =
    let s' : Session = inhibit_journal_v2 s in
    let tidy : Session = drop_old_times w (drop_dead_probes w s') in
    let asked = issued w j.challenge h.text s' h.able h.few h.asked h.written refl in
    subst (λ (u : Session). Believes j (standing (handle_local_stop_snapshot_v2 v j u))) (sym asked)
      (snapshot-Believes v j h.canonical
        (register w tidy reconcile none j.challenge (some h.text)).0
        (new_probe w tidy reconcile none j.challenge) h.encoded refl
        (probed-lookup w j tidy h.text refl)
        (probed-answered w v j tidy h.text h.online h.begun h.in_time refl) refl h.revised h.is_idle
        h.free)
