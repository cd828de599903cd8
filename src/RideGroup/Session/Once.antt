-- ===== src/RideGroup/Session/Once.antt =====
-- The answers of the broker to the stops of internal/ridegroup/protocol_v2_adapter.go.
use radio_gaga.Common.{
  if_both, same_text, ◌≡◌, ◌⊎◌, inl, inr, refl, sym, ap, subst, ◌∙◌, Bool, true, false, ◌&&◌,
  String, str_eq, Option, none, some, if◌then◌else◌, if-true, lookup, insert, lookup-insert,
  Bool-cases, arith,
}
use radio_gaga.RideGroup.State.{Control, LocalStopV2, LocalStopAttemptV2}
use radio_gaga.RideGroup.Messages.{local_stop_result}
use radio_gaga.RideGroup.Session.{
  write_message, ProbePurpose, apply_confirmation, LocalProbe, PreparedQuery, Session, World,
  invalidate_local_attempts_v2, clear_grant_v2, inhibit_journal_v2,
}
use radio_gaga.RideGroup.Session.Sending.{queue_redis, queue_mqtt}
use radio_gaga.RideGroup.Session.Probes.{issue_local_probe_v2, drop_dead_probes, drop_old_times}
use radio_gaga.RideGroup.Session.Stops.{
  prepared_at, is_committed, send_stop_v2, new_attempt, StopOrder, may_stop,
}
use radio_gaga.RideGroup.Session.Answers.{
  answers, contradicts, result_of, forward, confirming, pending_query_matches_v2, follow_up,
  answered, stop_status, handle_stop_status_v2, confirms, apply_order, applied, finalized,
  finalize_apply_confirmation_v2,
}

issue_local_probe_v2-attempts :
    (w : World) (purpose : ProbePurpose) (query : Option PreparedQuery) (s : Session)
    → (issue_local_probe_v2 w purpose query s).0.adapter.local_attempts_v2
      ≡ s.adapter.local_attempts_v2
unfolding issue_local_probe_v2 queue_redis drop_dead_probes drop_old_times
issue_local_probe_v2-attempts w purpose query s = ground arith

confirming-attempts :
    (q : Option PreparedQuery) (r : Session × Bool)
    → (confirming q r).adapter.local_attempts_v2 ≡ r.0.adapter.local_attempts_v2
confirming-attempts q r = ground arith

follow_up-attempts :
    (w : World) (result : String) (t : LocalStopAttemptV2) (s : Session)
    → (follow_up w result t s).adapter.local_attempts_v2 ≡ s.adapter.local_attempts_v2
follow_up-attempts w result t s =
    let K : Session → Type 0 = λ u. u.adapter.local_attempts_v2 ≡ s.adapter.local_attempts_v2 in
    if_both K
      (str_eq t.mode "query"
        && (str_eq result "not_found" && pending_query_matches_v2 w t s s.pending_query_v2))
      (confirming-attempts s.pending_query_v2
          (issue_local_probe_v2 w apply_confirmation s.pending_query_v2 s)
        ∙ issue_local_probe_v2-attempts w apply_confirmation s.pending_query_v2 s)
      (if_both K (str_eq t.mode "apply") refl refl)

forward-attempts :
    (w : World) (t : LocalStopAttemptV2) (s : Session) (payload : Option String)
    → (forward w t s payload).adapter.local_attempts_v2 ≡ s.adapter.local_attempts_v2
unfolding queue_redis
forward-attempts w t s none = refl
forward-attempts w t s (some payload) = refl

answered-attempts :
    (w : World) (c : Control) (result : String) (t : LocalStopAttemptV2) (s : Session)
    → (answered w c result t s).adapter.local_attempts_v2
      ≡ insert c.challenge (record t { consumed = true }) s.adapter.local_attempts_v2
answered-attempts w c result t s =
    follow_up-attempts w result t _
    ∙ forward-attempts w t _ (write_message w (local_stop_result (result_of c result t)))

-- No attempt waits under this challenge.
abbrev IsSettled : Option LocalStopAttemptV2 → Type 0
IsSettled none = Unit
IsSettled (some t) = t.consumed ≡ true

settled :
    (w : World) (c : Control) (result : String) (s : Session) (t : Option LocalStopAttemptV2)
    → IsSettled t
    → stop_status w c result s t ≡ s
settled w c result s none h = refl
settled w c result s (some t) h = rw h refl

answered-IsSettled :
    (w : World) (c : Control) (result : String) (t : LocalStopAttemptV2) (s : Session)
    → IsSettled (lookup c.challenge (answered w c result t s).adapter.local_attempts_v2)
answered-IsSettled w c result t s =
    subst (λ m. IsSettled (lookup c.challenge m)) (sym (answered-attempts w c result t s))
      (subst IsSettled
        (sym (
          lookup-insert c.challenge c.challenge (record t { consumed = true })
            s.adapter.local_attempts_v2
          ∙ if-true (str_eq c.challenge c.challenge) _ _ (same_text c.challenge)))
        refl)

inhibit_journal_v2-IsSettled :
    (challenge : String) (s : Session)
    → IsSettled (lookup challenge (inhibit_journal_v2 s).adapter.local_attempts_v2)
unfolding inhibit_journal_v2 clear_grant_v2 invalidate_local_attempts_v2 lookup
inhibit_journal_v2-IsSettled challenge s = tt

-- An answer that fits an attempt, whether it is forwarded or contradicts the journal, settles its
-- challenge: no later answer to it changes anything.
pub handle_stop_status_v2-once :
    (w v : World) (c d : Control) (result later : String) (s : Session) (t : LocalStopAttemptV2)
    → lookup c.challenge s.adapter.local_attempts_v2 ≡ some t
    → answers w c s t ≡ true
    → d.challenge ≡ c.challenge
    → handle_stop_status_v2 v d later (handle_stop_status_v2 w c result s)
      ≡ handle_stop_status_v2 w c result s
unfolding handle_stop_status_v2
handle_stop_status_v2-once w v c d result later s t found fits same =
    let after : Session =
      stop_status w c result s (lookup c.challenge s.adapter.local_attempts_v2) in
    let taken : after
        ≡ (if contradicts c result s t then inhibit_journal_v2 s else answered w c result t s) =
      ap (stop_status w c result s) found ∙ if-true (answers w c s t) _ _ fits in
    settled v d later after (lookup d.challenge after.adapter.local_attempts_v2) (
      subst (λ k. IsSettled (lookup k after.adapter.local_attempts_v2)) (sym same)
        (subst (λ u. IsSettled (lookup c.challenge u.adapter.local_attempts_v2)) (sym taken)
          (if_both (λ (u : Session). IsSettled (lookup c.challenge u.adapter.local_attempts_v2))
            (contradicts c result s t) (inhibit_journal_v2-IsSettled c.challenge s)
            (answered-IsSettled w c result t s))))

-- What a stop that is applied was confirmed by.
abbrev pub Applies : World → LocalStopV2 → LocalProbe → Session → Session → Type 0
Applies w j probe s t =
    (q : PreparedQuery) × (s.pending_query_v2 ≡ some q)
    × (confirms w j probe s q ≡ true)
    × (prepared_at (some q.fence) s.adapter.journal_state_v2 ≡ true)
    × (is_committed s.adapter.journal_state_v2 ≡ false)
    × (t.adapter.local_attempts_v2
        ≡ insert probe.challenge (new_attempt w (apply_order q probe) s)
            s.adapter.local_attempts_v2)

send_stop_v2-attempts :
    (w : World) (o : StopOrder) (s : Session)
    → ((send_stop_v2 w o s).0.adapter.local_attempts_v2 ≡ s.adapter.local_attempts_v2)
      ⊎ ((may_stop w o s ≡ true)
          × ((send_stop_v2 w o s).0.adapter.local_attempts_v2
              ≡ insert o.challenge (new_attempt w o s) s.adapter.local_attempts_v2))
unfolding send_stop_v2 queue_mqtt
send_stop_v2-attempts w o s = elim (Bool-cases (may_stop w o s)) [
  | inl e ↦ rw e (ground arith)
  | inr e ↦ rw e (inl refl)
]

applied-attempts :
    (r : Session × Bool) → (applied r).adapter.local_attempts_v2 ≡ r.0.adapter.local_attempts_v2
applied-attempts r = ground arith

may_apply :
    (w : World) (q : PreparedQuery) (probe : LocalProbe) (s : Session)
    → may_stop w (apply_order q probe) s ≡ true
    → (prepared_at (some q.fence) s.adapter.journal_state_v2 ≡ true)
      × (is_committed s.adapter.journal_state_v2 ≡ false)
may_apply w q probe s e = ground (arith, e)

finalized-Applies :
    (w : World) (j : LocalStopV2) (probe : LocalProbe) (s : Session) (q : Option PreparedQuery)
    → s.pending_query_v2 ≡ q
    → ((finalized w j probe s q).adapter.local_attempts_v2 ≡ s.adapter.local_attempts_v2)
      ⊎ Applies w j probe s (finalized w j probe s q)
finalized-Applies w j probe s none p = inl refl
finalized-Applies w j probe s (some q) p = elim (Bool-cases (confirms w j probe s q)) [
  | inl e ↦ rw e (elim (send_stop_v2-attempts w (apply_order q probe) s) [
    | inl same ↦ inl (applied-attempts _ ∙ same)
    | inr (may, sent) ↦
        let (prepared, open_) = may_apply w q probe s may in
        inr (q, p, e, prepared, open_, applied-attempts _ ∙ sent)
  ])
  | inr e ↦ rw e (inl refl)
]

-- A confirmation sends at most one stop, and only where a query waits that the snapshot confirms, with the
-- journal prepared at the fence of the query and not committed.
pub finalize-Applies :
    (w : World) (j : LocalStopV2) (probe : LocalProbe) (s : Session)
    → ((finalize_apply_confirmation_v2 w j probe s).adapter.local_attempts_v2
        ≡ s.adapter.local_attempts_v2)
      ⊎ Applies w j probe s (finalize_apply_confirmation_v2 w j probe s)
unfolding finalize_apply_confirmation_v2
finalize-Applies w j probe s = finalized-Applies w j probe s s.pending_query_v2 refl
