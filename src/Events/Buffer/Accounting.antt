-- ===== src/Events/Buffer/Accounting.antt =====
-- What the buffer of internal/events/buffer.go keeps, over any interleaving of `Add`, `Flush` and the
-- end of a batch.
use radio_gaga.Common.{
  ℕ, ◌+◌, ◌≡◌, refl, sym, ap, ◌∙◌, inl, inr, Bool, true, false, List, [], ◌∷◌, ◌++◌, arith,
  drop-append_length, is_empty, Bool-cases, if◌then◌else◌, not, ◌||◌,
}
use mathlib.Core.List.{append_assoc, append-nil}
use radio_gaga.Events.Buffer.{
  BufferedEvent, Buffer, Sent, persist_to_disk, parse_lines, load_from_disk, new_buffer, add, flush,
  send_batch, commit_batch, next_round, finish_batch,
}

-- One thing that happens to the buffer: an event, a request, or the end of the running batch.
pub data Action (E : Type 0) : Type 0 where
  adds : Bool → E → Action E
  flushes : Action E
  ends_batch : Bool → (E → Bool) → Action E

-- The buffer, and the events that came in, went out, and were given up.
pub record Totals (E : Type 0) : Type 0 where
  pub buffer : Buffer E
  pub added : List E
  pub delivered : List E
  pub discarded : List E

-- The batch that is being sent is a prefix of the events, and none is sent outside a flush.
abbrev pub InBatch : {E : Type 0} → Buffer E → Type 0
InBatch {E} b =
    (rest : List (BufferedEvent E)) × (b.events ≡ b.batch ++ rest)
    × (b.flushing ≡ false → b.batch ≡ [])

module _ {E : Type 0} where
  abbrev pub tally : (E → Bool) → List E → ℕ
  tally p [] = 0
  tally p (e ∷ es) = (if p e then 1 else 0) + tally p es

  tally-append : (p : E → Bool) (xs ys : List E) → tally p (xs ++ ys) ≡ tally p xs + tally p ys
  tally-append p [] ys = omega arith
  tally-append p (x ∷ xs) ys = omega (arith, tally-append p xs ys)

  abbrev pub events_of : List (BufferedEvent E) → List E
  events_of [] = []
  events_of (b ∷ bs) = b.event ∷ events_of bs

  tally-events_of :
      (p : E → Bool) (xs ys : List (BufferedEvent E))
      → tally p (events_of (xs ++ ys)) ≡ tally p (events_of xs) + tally p (events_of ys)
  tally-events_of p [] ys = omega arith
  tally-events_of p (x ∷ xs) ys = omega (arith, tally-events_of p xs ys)

  unfoldable pub end_batch : Bool → (E → Bool) → Totals E → Totals E
  end_batch works sender t =
      let (b, sent) = finish_batch works sender t.buffer in
      record t {
        buffer = b;
        delivered = t.delivered ++ sent.delivered;
        discarded = t.discarded ++ sent.discarded;
      }

  unfoldable pub act : Action E → Totals E → Totals E
  act (adds works e) t = record t { buffer = add works e t.buffer; added = t.added ++ e ∷ [] }
  act flushes t = record t { buffer = flush t.buffer }
  act (ends_batch works sender) t = if t.buffer.flushing then end_batch works sender t else t

  unfoldable pub acts : List (Action E) → Totals E → Totals E
  acts [] t = t
  acts (a ∷ as') t = acts as' (act a t)

  -- Every event of a batch is sent, given up, or kept.
  tally-send_batch :
      (p : E → Bool) (max : ℕ) (sender : E → Bool) (bs : List (BufferedEvent E))
      → tally p (events_of (send_batch max sender bs).failed)
          + tally p (send_batch max sender bs).delivered
          + tally p (send_batch max sender bs).discarded
        ≡ tally p (events_of bs)
  unfolding send_batch
  tally-send_batch p max sender [] = refl
  tally-send_batch p max sender (b ∷ bs) = ground (arith, tally-send_batch p max sender bs)

  persist-events : (works : Bool) (b : Buffer E) → (persist_to_disk works b).events ≡ b.events
  unfolding persist_to_disk
  persist-events works b = ground arith

  persist_to_disk_lem :
      (works : Bool) (b : Buffer E)
      → persist_to_disk works b ≡ record b { file = (persist_to_disk works b).file }
  unfolding persist_to_disk
  persist_to_disk_lem works b = ground arith

  commit_batch-events :
      (works : Bool) (sender : E → Bool) (b : Buffer E) (batch rest : List (BufferedEvent E))
      → b.batch ≡ batch
      → b.events ≡ batch ++ rest
      → (commit_batch works (send_batch b.max_retries sender batch) b).events
        ≡ (send_batch b.max_retries sender batch).failed ++ rest
  unfolding commit_batch send_batch
  commit_batch-events works sender b [] rest e h = rw e h
  commit_batch-events works sender b (x ∷ xs) rest e h =
      rw (e, h, persist-events, drop-append_length xs rest)

  abbrev pub Balanced : Totals E → Type 0
  Balanced t =
      (p : E → Bool)
      → tally p t.added
        ≡ tally p t.delivered + tally p t.discarded + tally p (events_of t.buffer.events)

  pub record Inv (t : Totals E) : Type 0 where
    pub balanced : Balanced t
    pub in_batch : InBatch t.buffer

  commit_batch_kept :
      (works : Bool) (sent : Sent E) (b : Buffer E)
      → ((commit_batch works sent b).batch ≡ b.batch)
        × ((commit_batch works sent b).flushing ≡ b.flushing)
        × ((commit_batch works sent b).max_retries ≡ b.max_retries)
  unfolding commit_batch persist_to_disk
  commit_batch_kept works sent b = ground arith

  next_round-InBatch : (b : Buffer E) → b.flushing ≡ true → InBatch (next_round b)
  unfolding next_round
  next_round-InBatch b h = elim (Bool-cases (not b.flush_requested || is_empty b.events)) [
    | inl e ↦ rw e (b.events, refl, λ _. refl)
    | inr e ↦ rw e ([], sym (append-nil b.events), λ f. cc)
  ]

  next_round-events : (b : Buffer E) → (next_round b).events ≡ b.events
  unfolding next_round
  next_round-events b = ground arith

  add-InBatch : (works : Bool) (e : E) (b : Buffer E) → InBatch b → InBatch (add works e b)
  unfolding add
  add-InBatch works e b h = rw persist_to_disk_lem (
    h.0 ++ record { event = e; retries = 0 } ∷ [],
    ap (λ xs. xs ++ record { event = e; retries = 0 } ∷ []) h.1 ∙ append_assoc b.batch h.0 _,
    h.2,
  )

  flush-InBatch : (b : Buffer E) → InBatch b → InBatch (flush b)
  unfolding flush
  flush-InBatch b h = elim (Bool-cases b.flushing) [
    | inl e ↦ rw e (h.0, h.1, λ f. cc)
    | inr e ↦ rw e ([], sym (append-nil b.events), λ f. cc)
  ]

  end_batch-Inv :
      (works : Bool) (sender : E → Bool) (t : Totals E)
      → t.buffer.flushing ≡ true
      → Inv t
      → Inv (end_batch works sender t)
  unfolding end_batch finish_batch
  end_batch-Inv works sender t on v =
      let b : Buffer E = t.buffer in
      let sent : Sent E = send_batch b.max_retries sender b.batch in
      let kept = commit_batch_kept works sent b in
      let after = commit_batch-events works sender b b.batch v.in_batch.0 refl v.in_batch.1 in
      record {
        balanced = λ p. omega (
          arith,
          v.balanced p,
          tally-send_batch p b.max_retries sender b.batch,
          ap (λ es. tally p (events_of es)) v.in_batch.1,
          tally-events_of p b.batch v.in_batch.0,
          ap (λ es. tally p (events_of es)) (next_round-events (commit_batch works sent b)),
          ap (λ es. tally p (events_of es)) after,
          tally-events_of p sent.failed v.in_batch.0,
          tally-append p t.delivered sent.delivered,
          tally-append p t.discarded sent.discarded,
        );
        in_batch = next_round-InBatch (commit_batch works sent b) (kept.1 ∙ on);
      }

  add-events :
      (works : Bool) (e : E) (b : Buffer E)
      → (add works e b).events ≡ b.events ++ record { event = e; retries = 0 } ∷ []
  unfolding add
  add-events works e b = persist-events works _

  flush-events : (b : Buffer E) → (flush b).events ≡ b.events
  unfolding flush
  flush-events b = ground arith

  if_Inv : (b : Bool) {t u : Totals E} → (b ≡ true → Inv t) → Inv u → Inv (if b then t else u)
  if_Inv true f v = f refl
  if_Inv false f v = v

  act-Inv : (a : Action E) (t : Totals E) → Inv t → Inv (act a t)
  unfolding act
  act-Inv (adds works e) t v = record {
    balanced = λ p. omega (
      arith,
      v.balanced p,
      ap (λ es. tally p (events_of es)) (add-events works e t.buffer),
      tally-events_of p t.buffer.events (record { event = e; retries = 0 } ∷ []),
      tally-append p t.added (e ∷ []),
    );
    in_batch = add-InBatch works e t.buffer v.in_batch;
  }
  act-Inv flushes t v = record {
    balanced =
        λ p. omega (arith, v.balanced p, ap (λ es. tally p (events_of es)) (flush-events t.buffer));
    in_batch = flush-InBatch t.buffer v.in_batch;
  }
  act-Inv (ends_batch works sender) t v =
      if_Inv t.buffer.flushing (λ on. end_batch-Inv works sender t on v) v

  acts-Inv : (as' : List (Action E)) (t : Totals E) → Inv t → Inv (acts as' t)
  unfolding acts
  acts-Inv [] t v = v
  acts-Inv (a ∷ as') t v = acts-Inv as' (act a t) (act-Inv a t v)

  -- A buffer over a missing file, before anything happened.
  unfoldable pub started : (BufferedEvent E → ℕ) → Bool → ℕ → Totals E
  started bytes has_path max_retries = record {
    buffer = new_buffer bytes has_path max_retries [];
    added = [];
    delivered = [];
    discarded = [];
  }

  started-Inv :
      (bytes : BufferedEvent E → ℕ) (has_path : Bool) (max_retries : ℕ)
      → Inv (started bytes has_path max_retries)
  unfolding started new_buffer load_from_disk parse_lines
  started-Inv bytes true max_retries = record {
    balanced = λ p. refl;
    in_batch = ([], refl, λ _. refl);
  }
  started-Inv bytes false max_retries = record {
    balanced = λ p. refl;
    in_batch = ([], refl, λ _. refl);
  }

  -- Over any interleaving of `Add`, `Flush` and the end of the running batch, with any answers of the
  -- sender and any failures of the file, a buffer that starts empty loses no event and makes up none:
  -- whatever is asked of an event, as many of those that were added have it as of those sent, those
  -- given up and those still kept together.
  pub acts-started_balanced :
      (bytes : BufferedEvent E → ℕ) (has_path : Bool) (max_retries : ℕ) (as' : List (Action E))
      (p : E → Bool)
      → tally p (acts as' (started bytes has_path max_retries)).added
        ≡ tally p (acts as' (started bytes has_path max_retries)).delivered
          + tally p (acts as' (started bytes has_path max_retries)).discarded
          + tally p (events_of (acts as' (started bytes has_path max_retries)).buffer.events)
  acts-started_balanced bytes has_path max_retries as' p =
      (acts-Inv as' (started bytes has_path max_retries)
          (started-Inv bytes has_path max_retries)).balanced
        p
