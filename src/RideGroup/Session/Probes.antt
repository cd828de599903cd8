-- ===== src/RideGroup/Session/Probes.antt =====
-- internal/ridegroup/protocol_v2_adapter.go: the challenges to the journal. There is one at a time, and
-- no more than ten in ten seconds.
use radio_gaga.Common.{
  ℕ, zero, suc, ◌+◌, ◌%◌, Bool, true, false, not, ◌&&◌, String, str_eq, List, [], ◌∷◌, ◌++◌, Option,
  none, some, if◌then◌else◌, ltb, leb, ◌==◌, insert, delete, length, pos,
}
use radio_gaga.RideGroup.Messages.{local_stop_probe}
use radio_gaga.RideGroup.Session.{
  write_message, ProbePurpose, reconcile, LocalProbe, PreparedQuery, Session, World,
  attempt_lifetime, retain,
}
use radio_gaga.RideGroup.Session.Sending.{is_online, queue_redis}

-- The opposite of what `issueLocalProbeV2Locked` and `expireV2LeaseLocked` delete.
unfoldable pub probe_lives : World → Session → LocalProbe → Bool
probe_lives w s p =
    leb w.now p.deadline
    && (str_eq p.connection s.adapter.connection && p.ipc_epoch == s.adapter.journal_ipc_epoch_v2)

unfoldable pub drop_dead_probes : World → Session → Session
drop_dead_probes w s = record s { journal_probes_v2 = retain (probe_lives w s) s.journal_probes_v2 }

-- The times of issue that are not before the cutoff.
unfoldable pub recent : ℕ → List ℕ → List ℕ
recent now [] = []
recent now (t ∷ ts) =
    let rest = recent now ts in if leb now (t + attempt_lifetime) then t ∷ rest else rest

unfoldable pub drop_old_times : World → Session → Session
drop_old_times w s = record s { probe_times_v2 = recent w.now s.probe_times_v2 }

abbrev pub with_query : Option PreparedQuery → LocalProbe → LocalProbe
with_query none p = p
with_query (some q) p = record p {
  deadline = if ltb q.deadline p.deadline then q.deadline else p.deadline;
  operation_id = q.operation_id;
  revision = q.revision;
  fence = some q.fence;
}

unfoldable pub new_probe :
    World → Session → ProbePurpose → Option PreparedQuery → String → LocalProbe
new_probe w s purpose query challenge = with_query query (record {
  challenge = challenge;
  connection = s.adapter.connection;
  issued_at = w.now;
  deadline = w.now + attempt_lifetime;
  purpose = purpose;
  operation_id = "";
  revision = 0;
  fence = none;
  ipc_epoch = s.adapter.journal_ipc_epoch_v2;
  consumed = false;
})

abbrev pub register :
    World → Session → ProbePurpose → Option PreparedQuery → String → Option String → Session × Bool
register w s purpose query challenge none = (s, false)
register w s purpose query challenge (some payload) = (
  queue_redis w "ride-group:control" payload (pos attempt_lifetime) (record s {
    journal_probes_v2 =
        insert challenge (new_probe w s purpose query challenge) s.journal_probes_v2;
    probe_times_v2 = s.probe_times_v2 ++ w.now ∷ [];
  }),
  true,
)

abbrev pub challenged :
    World → Session → ProbePurpose → Option PreparedQuery → Option String → Session × Bool
challenged w s purpose query none = (s, false)
challenged w s purpose query (some challenge) =
    register w s purpose query challenge (write_message w (local_stop_probe challenge))

-- Once the dead probes are gone.
abbrev pub with_slot : World → Session → ProbePurpose → Option PreparedQuery → Session × Bool
with_slot w s purpose query =
    let tidy = drop_old_times w s in
    if leb 1 (length s.journal_probes_v2)
    then (s, false)
    else (if leb 10 (length tidy.probe_times_v2)
        then (tidy, false)
        else challenged w tidy purpose query w.probe_uuid)

-- Whether a probe can be issued at all.
abbrev pub can_probe : World → Session → Bool
can_probe w s =
    s.adapter.protocol_version == 2
    && (s.has_redis
        && (s.adapter.settings_ready && (is_online w s && not (str_eq s.adapter.connection ""))))

unfoldable pub issue_local_probe_v2 :
    World → ProbePurpose → Option PreparedQuery → Session → Session × Bool
issue_local_probe_v2 w purpose query s =
    if can_probe w s then with_slot w (drop_dead_probes w s) purpose query else (s, false)

unfoldable pub maybe_issue_reconciliation_probe_v2 : World → Session → Session
maybe_issue_reconciliation_probe_v2 w s =
    if s.adapter.protocol_version == 2 && (s.adapter.settings_ready && is_online w s)
    then (issue_local_probe_v2 w reconcile none s).0
    else s

-- One arbitrary entry less, as long as there are more than ten.
unfoldable pub remove_at {ℓ} : {A : Type ℓ} → ℕ → List A → List A
remove_at n [] = []
remove_at zero (x ∷ xs) = xs
remove_at (suc n) (x ∷ xs) = x ∷ remove_at n xs

unfoldable pub evict {ℓ} : {A : Type ℓ} → (ℕ → ℕ) → ℕ → List A → List A
evict pick zero xs = xs
evict pick (suc fuel) xs =
    if ltb 10 (length xs) then evict pick fuel (remove_at (pick (length xs) % length xs) xs) else xs

unfoldable pub consume_probe_v2 : World → LocalProbe → String → Session → Session
consume_probe_v2 w p payload s =
    let used = insert p.challenge payload s.used_local_challenges in
    record s {
      journal_probes_v2 = delete p.challenge s.journal_probes_v2;
      used_local_challenges = evict w.pick (length used) used;
    }
