-- ===== src/Events/Buffer/Examples.antt =====
-- A buffer with one waiting event, and the theorems at it. The events are numbers.
use radio_gaga.Common.{arith, ℕ, ◌+◌, ◌≡◌, refl, Bool, true, false, ◌==◌, List, [], ◌∷◌, ◌++◌}
use radio_gaga.Events.Buffer.{
  parsed, BufferedEvent, Buffer, add, flush, finish_batch, next_round, new_buffer, load_from_disk,
  parse_lines, persist_to_disk, commit_batch, send_batch,
}
use radio_gaga.Events.Buffer.Accounting.{
  tally, events_of, Action, adds, flushes, ends_batch, act, acts, end_batch, started,
  acts-started_balanced,
}
use radio_gaga.Events.Buffer.Reload.{commit_batch-new_buffer}

-- Only event 4 goes out.
abbrev sender : ℕ → Bool
sender n = n == 4

abbrev waiting : ℕ → BufferedEvent ℕ
waiting n = record { event = n; retries = 0 }

abbrev buffer : Buffer ℕ
buffer = record {
  has_path = true;
  max_retries = 3;
  events = waiting 4 ∷ waiting 5 ∷ waiting 6 ∷ [];
  flushing = true;
  flush_requested = true;
  file = [];
  batch = waiting 4 ∷ waiting 5 ∷ [];
}

abbrev actions : List (Action ℕ)
actions = adds true 4 ∷ adds true 5 ∷ flushes ∷ adds false 6 ∷ flushes ∷ ends_batch true sender ∷ []

-- A byte for every one of the event's number.
abbrev bytes : BufferedEvent ℕ → ℕ
bytes b = b.event

acts-started_balanced_example :
    tally (λ n. n == 6) (acts actions (started bytes true 3)).added
    ≡ tally (λ n. n == 6) (acts actions (started bytes true 3)).delivered
      + tally (λ n. n == 6) (acts actions (started bytes true 3)).discarded
      + tally (λ n. n == 6) (events_of (acts actions (started bytes true 3)).buffer.events)
acts-started_balanced_example = acts-started_balanced bytes true 3 actions (λ n. n == 6)

-- Of the three events, one goes out, one waits for another try, and one came while they were sent.
six_is_kept : events_of (acts actions (started bytes true 3)).buffer.events ≡ 5 ∷ 6 ∷ []
unfolding acts started new_buffer load_from_disk parse_lines add persist_to_disk commit_batch
    send_batch act flush end_batch finish_batch next_round
six_is_kept = refl

commit_batch-new_buffer_example :
    (new_buffer bytes true 3
      (commit_batch true (send_batch 3 sender (waiting 4 ∷ waiting 5 ∷ [])) buffer).file).events
    ≡ (send_batch 3 sender (waiting 4 ∷ waiting 5 ∷ [])).failed ++ waiting 6 ∷ []
unfolding send_batch
commit_batch-new_buffer_example =
    commit_batch-new_buffer bytes 3 sender buffer (waiting 4) (waiting 5 ∷ []) (waiting 6 ∷ []) refl
      refl refl (omega arith, (omega arith, tt))

-- A line that is too long ends the reading.
behind_long_line :
    parse_lines bytes (parsed (waiting 4) ∷ parsed (waiting 70000) ∷ parsed (waiting 5) ∷ [])
    ≡ waiting 4 ∷ []
unfolding parse_lines
behind_long_line = refl
