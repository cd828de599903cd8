-- ===== src/Client/TelemetryDelta/Resync.antt =====
-- How often internal/client/telemetry_delta.go sends telemetry in full.
use radio_gaga.Common.{
  if◌then◌else◌, ℕ, ◌+◌, ◌≤◌, ◌<◌, ◌≡◌, inl, inr, refl, ap, Bool, true, false, not, ◌||◌, String,
  str_eq, List, [], ◌∷◌, Option, none, some, leb, or_else, Bool-cases, is_some, arith,
}
use radio_gaga.Events.Movement.{Geo}
use radio_gaga.Client.TelemetryDelta.{
  Answer, confirmed, timed_out, lost, Arrived, after_answer, Fields, Publication, full, delta,
  full_resync_every, count_flush, against, Telemetry, Sent, never_sent, smooth_parked_gps,
  next_publication, send_publication, publish_telemetry_smart,
}

module _ (geo : Geo) where
  -- One call: what comes of the publish, the telemetry, and whether a full snapshot is asked for.
  pub record Call : Type 0 where
    pub answer : Publication → Answer
    pub current : Telemetry geo
    pub force_full : Bool

  -- The client after calls, and how many deltas were confirmed in time since the last full snapshot that
  -- was, if one was.
  abbrev pub since_sent : Publication → Option ℕ → Option ℕ
  since_sent (full m) n = some 0
  since_sent (delta d c) none = none
  since_sent (delta d c) (some n) = some (n + 1)

  abbrev pub since_full : Option Arrived → Option ℕ → Option ℕ
  since_full none n = n
  since_full (some p) n = if p.in_time then since_sent p.content n else n

  unfoldable pub calls : List Call → Sent geo → Option ℕ → Sent geo × Option ℕ
  calls [] s n = (s, n)
  calls (c ∷ cs) s n =
      let (after, out) = publish_telemetry_smart geo c.answer c.current c.force_full s in
      calls cs after (since_full out n)

  -- Nothing was sent, or the count of the client is that of the deltas, and within the bound.
  abbrev Counted : Sent geo → Option ℕ → Type 0
  Counted s none = s.last_sent_map ≡ none
  Counted s (some n) =
      (is_some s.last_sent_map ≡ true) × (s.flushes_since_full ≡ n) × (n ≤ full_resync_every)

  -- A publication that is full, or a delta within the bound.
  abbrev Due : Sent geo → Publication → Type 0
  Due s (full m) = Unit
  Due s (delta d c) = (is_some s.last_sent_map ≡ true) × (s.flushes_since_full < full_resync_every)

  against-Due :
      (curr : Fields) (s : Sent geo) (o : Option Fields)
      → s.last_sent_map ≡ o
      → s.flushes_since_full < full_resync_every
      → Due s (against curr o)
  against-Due curr s none h few = tt
  against-Due curr s (some prev) h few = (ap is_some h, few)

  tests_lem :
      (a c : Bool) (n : ℕ) → (a || (leb full_resync_every n || c)) ≡ false → n < full_resync_every
  tests_lem a c n h = ground (arith, h)

  next_publication-Due :
      (force_full : Bool) (state : String) (curr : Fields) (s : Sent geo)
      → Due s (next_publication geo force_full state curr s)
  unfolding next_publication
  next_publication-Due force_full state curr s =
      elim (Bool-cases (
        force_full
        || (leb full_resync_every s.flushes_since_full || not (str_eq state s.last_sent_state)))) [
          | inl e ↦ rw e tt
          | inr e ↦ rw e (
              against-Due curr s s.last_sent_map refl
                (tests_lem force_full _ s.flushes_since_full e))
        ]

  sent-Counted :
      (p : Publication) (state : String) (curr : Fields) (s : Sent geo) (n : Option ℕ)
      → Due s p
      → Counted s n
      → Counted
          (record s {
            last_sent_map = some curr;
            last_sent_state = state;
            flushes_since_full = count_flush p s.flushes_since_full;
          })
          (since_sent p n)
  sent-Counted (full m) state curr s n d h = (refl, refl, omega arith)
  sent-Counted (delta f c) state curr s none d h = let no_map = ap is_some h in cc
  sent-Counted (delta f c) state curr s (some n) d h = (refl, omega (arith, h), omega (arith, d, h))

  after_answer-Counted :
      (answer : Answer) (p : Publication) (state : String) (curr : Fields) (s : Sent geo)
      (n : Option ℕ)
      → Due s p
      → Counted s n
      → Counted
          (after_answer geo answer p state curr s).0
          (since_full (after_answer geo answer p state curr s).1 n)
  unfolding after_answer
  after_answer-Counted confirmed p state curr s n d h = sent-Counted p state curr s n d h
  after_answer-Counted timed_out p state curr s n d h = h
  after_answer-Counted lost p state curr s n d h = h

  relocated-Counted :
      (s : Sent geo) (last : Option (geo.float × geo.float)) (n : Option ℕ)
      → Counted s n
      → Counted (record s { last_gps = last }) n
  relocated-Counted s last none h = h
  relocated-Counted s last (some n) h = h

  relocated-Due :
      (s : Sent geo) (last : Option (geo.float × geo.float)) (p : Publication)
      → Due s p
      → Due (record s { last_gps = last }) p
  relocated-Due s last (full m) d = tt
  relocated-Due s last (delta f c) d = d

  publish_telemetry_smart-Counted :
      (c : Call) (s : Sent geo) (n : Option ℕ)
      → Counted s n
      → Counted
          (publish_telemetry_smart geo c.answer c.current c.force_full s).0
          (since_full (publish_telemetry_smart geo c.answer c.current c.force_full s).1 n)
  unfolding publish_telemetry_smart send_publication
  publish_telemetry_smart-Counted c s n h =
      let smoothed =
        smooth_parked_gps geo c.current.gps s.last_gps (str_eq c.current.state "ready-to-drive") in
      let curr = c.current.to_map smoothed.0 in
      after_answer-Counted (c.answer _) _ c.current.state curr (record s { last_gps = smoothed.1 })
        n (relocated-Due s smoothed.1 _ (next_publication-Due c.force_full c.current.state curr s))
        (relocated-Counted s smoothed.1 n h)

  calls-Counted :
      (cs : List Call) (s : Sent geo) (n : Option ℕ)
      → Counted s n
      → Counted (calls cs s n).0 (calls cs s n).1
  unfolding calls
  calls-Counted [] s n h = h
  calls-Counted (c ∷ cs) s n h = calls-Counted cs _ _ (publish_telemetry_smart-Counted c s n h)

  few_deltas : (s : Sent geo) (n : Option ℕ) → Counted s n → or_else 0 n ≤ full_resync_every
  few_deltas s none h = omega arith
  few_deltas s (some n) h = omega (arith, h)

  map_sent : (s : Sent geo) (n : Option ℕ) → Counted s n → is_some s.last_sent_map ≡ is_some n
  map_sent s none h = ap is_some h
  map_sent s (some n) h = h.0

  -- Whatever comes of the publishes, a client that holds what it sent last has had a full snapshot
  -- confirmed in time, and no more than twenty deltas since the last such snapshot. A delta whose
  -- wait timed out is not counted, though it may have reached the broker.
  pub calls-never_sent :
      (cs : List Call)
      → (or_else 0 (calls cs (never_sent geo) none).1 ≤ full_resync_every)
        × (is_some (calls cs (never_sent geo) none).0.last_sent_map
            ≡ is_some (calls cs (never_sent geo) none).1)
  calls-never_sent cs =
      let after = calls cs (never_sent geo) none in
      let counted = calls-Counted cs (never_sent geo) none refl in
      (few_deltas after.0 after.1 counted, map_sent after.0 after.1 counted)
