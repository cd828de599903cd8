-- ===== src/RideGroup/Session/JournalMoves.antt =====
-- The journal's part of internal/ridegroup/protocol_v2_adapter.go, against the machine of grants.
use radio_gaga.Common.{
  refl, Bool, true, if_both, ◌≡◌, inl, inr, sym, subst, ◌∙◌, true, false, not, ◌||◌, String, str_eq,
  Option, none, some, Bool-cases, arith,
}
use radio_gaga.RideGroup.State.{Activity, LocalStopV2}
use radio_gaga.RideGroup.Messages.{local_stop}
use radio_gaga.RideGroup.Session.{
  write_message, LocalProbe, Session, World, invalidate_local_attempts_v2, clear_grant_v2,
  inhibit_journal_v2,
}
use radio_gaga.RideGroup.Session.Sending.{publish_hello_v2}
use radio_gaga.RideGroup.Session.Probes.{consume_probe_v2, maybe_issue_reconciliation_probe_v2}
use radio_gaga.RideGroup.Session.Snapshots.{
  is_answered, accept_journal_revision_v2, snapshot_for, repeated, snapshot_written, confirms_apply,
  adopt, accept_snapshot, refuse_snapshot, unsolicited, handle_local_stop_snapshot_v2,
}
use radio_gaga.RideGroup.Session.Activities.{note_activity, activity_accepted, accept_activity_v2}
use radio_gaga.RideGroup.Session.Standing.{
  finalize-standing, pursue-standing, publish_hello_v2-standing, publish_activity_v2-standing,
  maybe_issue-standing,
}
use radio_gaga.RideGroup.Session.Machine.{
  Standing, standing, inhibits, believes, suspends, rides, rests, Moves, next,
}

-- What the machine comes to by moves from a standing.
abbrev pub From : Bool → Standing → Session → Type 0
From is_own v s = Moves is_own v (standing s)

pub kept : {o : Bool} {v u t : Standing} → t ≡ u → Moves o v u → Moves o v t
kept {o} {v} e h = subst (λ u. Moves o v u) (sym e) h

pub inhibit_journal_v2-From :
    {o : Bool} {v : Standing} (s : Session) → From o v s → From o v (inhibit_journal_v2 s)
unfolding inhibit_journal_v2 clear_grant_v2 invalidate_local_attempts_v2
inhibit_journal_v2-From s h = next h (inhibits (standing s))

pub maybe_issue-From :
    {o : Bool} {v : Standing} (w : World) (s : Session)
    → From o v s
    → From o v (maybe_issue_reconciliation_probe_v2 w s)
maybe_issue-From w s h = kept (maybe_issue-standing w s) h

adopt-believes :
    (j : LocalStopV2) (s : Session)
    → j.blocked ≡ false
    → str_eq j.phase "idle" ≡ true
    → standing (adopt j s) ≡ record (standing s) { ready = true; blocked = false; journal = some j }
unfolding adopt
adopt-believes j s b i = ground (arith, b, i)

adopt-suspends :
    (j : LocalStopV2) (s : Session)
    → (j.blocked || not (str_eq j.phase "idle")) ≡ true
    → standing (adopt j s)
      ≡ record (standing s) { grant = none; ready = false; blocked = j.blocked; journal = some j }
unfolding adopt clear_grant_v2
adopt-suspends j s e = ground (arith, e)

adopt-From :
    {v : Standing} (j : LocalStopV2) (s : Session) → From true v s → From true v (adopt j s)
adopt-From j s h = elim (Bool-cases (j.blocked || not (str_eq j.phase "idle"))) [
  | inl e ↦ kept (adopt-suspends j s e) (next h (suspends (standing s) j refl))
  | inr e ↦
      let is_idle : str_eq j.phase "idle" ≡ true = ground (arith, e) in
      kept (adopt-believes j s (ground (arith, e)) is_idle)
        (next h (believes (standing s) j refl is_idle))
]

accept_snapshot-From :
    {v : Standing} (w : World) (j : LocalStopV2) (probe : LocalProbe) (canonical : String)
    (s : Session)
    → From true v s
    → From true v (accept_snapshot w j probe canonical s)
unfolding accept_snapshot consume_probe_v2
accept_snapshot-From {v} w j probe canonical s h =
    let adopted : Session = adopt j (consume_probe_v2 w probe canonical s) in
    if_both (From true v) (confirms_apply probe.purpose)
      (kept (finalize-standing w j probe adopted) (adopt-From j _ h))
      (kept (pursue-standing w j probe adopted) (adopt-From j _ h))

refuse_snapshot-From :
    {v : Standing} (w : World) (probe : LocalProbe) (canonical : String) (s : Session)
    → From true v s
    → From true v (refuse_snapshot w probe canonical s)
unfolding refuse_snapshot consume_probe_v2
refuse_snapshot-From w probe canonical s h = maybe_issue-From w _ (inhibit_journal_v2-From s h)

unsolicited-From :
    {v : Standing} (w : World) (j : LocalStopV2) (s : Session)
    → From true v s
    → From true v (unsolicited w j s)
unfolding unsolicited
unsolicited-From {v} w j s h = maybe_issue-From w _ (
    if_both (From true v) (j.blocked || not (str_eq j.phase "idle")) (inhibit_journal_v2-From s h)
      h)

snapshot_for-From :
    {v : Standing} (w : World) (j : LocalStopV2) (canonical : String) (s : Session)
    (probe : Option LocalProbe)
    → From true v s
    → From true v (snapshot_for w j canonical s probe)
snapshot_for-From w j canonical s none h = unsolicited-From w j s h
snapshot_for-From {v} w j canonical s (some probe) h =
    if_both (From true v) (is_answered w s probe)
      (if_both (From true v) (accept_journal_revision_v2 j s.adapter.journal_state_v2)
        (accept_snapshot-From w j probe canonical s h) (refuse_snapshot-From w probe canonical s h))
      (unsolicited-From w j s h)

repeated-From :
    {v : Standing} (w : World) (j : LocalStopV2) (canonical : String) (s : Session)
    (prior : Option String)
    → From true v s
    → From true v (repeated w j canonical s prior)
repeated-From w j canonical s none h = snapshot_for-From w j canonical s _ h
repeated-From {v} w j canonical s (some prior) h =
    if_both (From true v) (str_eq prior canonical) h
      (maybe_issue-From w _ (inhibit_journal_v2-From s h))

snapshot_written-From :
    {v : Standing} (w : World) (j : LocalStopV2) (s : Session) (canonical : Option String)
    → From true v s
    → From true v (snapshot_written w j s canonical)
snapshot_written-From w j s none h = h
snapshot_written-From w j s (some canonical) h = repeated-From w j canonical s _ h

pub snapshot-From :
    {v : Standing} (w : World) (j : LocalStopV2) (s : Session)
    → From true v s
    → From true v (handle_local_stop_snapshot_v2 w j s)
unfolding handle_local_stop_snapshot_v2
snapshot-From w j s h = snapshot_written-From w j s (write_message w (local_stop j)) h

note_activity-rides :
    (w : World) (a : Activity) (s : Session)
    → a.active ≡ true
    → standing (note_activity w a s) ≡ record (standing s) { activity = some a }
unfolding note_activity
note_activity-rides w a s e = ground (arith, e)

note_activity-rests :
    (w : World) (a : Activity) (s : Session)
    → a.active ≡ false
    → standing (note_activity w a s) ≡ record (standing s) { grant = none; activity = some a }
unfolding note_activity clear_grant_v2
note_activity-rests w a s e = ground (arith, e)

note_activity-From :
    {v : Standing} (w : World) (a : Activity) (s : Session)
    → From true v s
    → From true v (note_activity w a s)
note_activity-From w a s h = elim (Bool-cases a.active) [
  | inl e ↦ kept (note_activity-rides w a s e) (next h (rides (standing s) a refl e))
  | inr e ↦ kept (note_activity-rests w a s e) (next h (rests (standing s) a refl))
]

pub accept_activity_v2-From :
    {v : Standing} (w : World) (a : Activity) (s : Session)
    → From true v s
    → From true v (accept_activity_v2 w a s)
unfolding accept_activity_v2
accept_activity_v2-From {v} w a s h =
    if_both (From true v) (activity_accepted w a s)
      (kept
        (publish_activity_v2-standing w a (publish_hello_v2 w a.challenge (note_activity w a s))
          ∙ publish_hello_v2-standing w a.challenge (note_activity w a s))
        (note_activity-From w a s h))
      h
