-- ===== src/Telemetry/Monitor/Deadlines.antt =====
-- Every change that waits in internal/telemetry/monitor.go has a timer that is due within the deadline
-- of its priority, whatever happens to the monitor.
use radio_gaga.Common.{ℕ, ◌+◌, ◌≡◌, sym, ◌∙◌, String, List, [], ◌∷◌, Option, none}
use radio_gaga.Telemetry.Priority.{Priority, get_field_priority}
use radio_gaga.Telemetry.Monitor.{
  Fields, Monitor, new_monitor, handle_field_change, flush_all_pending, flush_priority,
  initialize_baseline, has_pending_changes,
}
use radio_gaga.Telemetry.Monitor.Timers.{
  later, new_monitor-Inv, record_change-Inv, flush_all_pending-Inv, flush_priority-Inv,
  has_pending_changes_lem, flush_priority_lem, Inv,
}

-- What happens to a monitor that runs: time passes, a field changes, the function of a timer is called
-- (of one that was stopped too late as well), a flush is asked for, or the baseline is read.
pub data Happens : Type 0 where
  passes : ℕ → Happens
  changed : String → String → String → Happens
  runs_out : Priority → Happens
  flushed : Happens
  baseline_read : List (String × Option Fields) → Happens

pub record Clocked : Type 0 where
  pub now : ℕ
  pub monitor : Monitor

module _ (round_to : ℕ → String → Option String) where
  unfoldable pub happen : Happens → Clocked → Clocked
  happen (passes n) c = record c { now = c.now + n }
  happen (changed hash field value) c = record c {
    monitor = handle_field_change round_to c.now hash field value c.monitor;
  }
  happen (runs_out p) c = record c { monitor = (flush_priority p c.monitor).0 }
  happen flushed c = record c { monitor = (flush_all_pending c.monitor).0 }
  happen (baseline_read replies) c = record c {
    monitor = initialize_baseline round_to replies c.monitor;
  }

  unfoldable pub happens : List Happens → Clocked → Clocked
  happens [] c = c
  happens (h ∷ hs) c = happens hs (happen h c)

happen-Inv :
    (round_to : ℕ → String → Option String) (h : Happens) (c : Clocked)
    → Inv c.now c.monitor
    → Inv (happen round_to h c).now (happen round_to h c).monitor
unfolding happen initialize_baseline handle_field_change
happen-Inv round_to (passes n) c v = λ p. later c.now n _ _ _ (v p)
happen-Inv round_to (changed hash field value) c v =
    record_change-Inv c.now (get_field_priority hash field) hash field _ c.monitor v
happen-Inv round_to (runs_out p) c v = flush_priority-Inv c.now p c.monitor v
happen-Inv round_to flushed c v = flush_all_pending-Inv c.now c.monitor v
happen-Inv round_to (baseline_read replies) c v = v

happens-Inv :
    (round_to : ℕ → String → Option String) (hs : List Happens) (c : Clocked)
    → Inv c.now c.monitor
    → Inv (happens round_to hs c).now (happens round_to hs c).monitor
unfolding happens
happens-Inv round_to [] c v = v
happens-Inv round_to (h ∷ hs) c v =
    happens-Inv round_to hs (happen round_to h c) (happen-Inv round_to h c v)

unfoldable pub started : (Priority → ℕ) → Clocked
started deadlines = record { now = 0; monitor = new_monitor deadlines }

-- At any time in the run of a monitor, a priority either has no waiting change and no timer, or has
-- waiting changes and a timer, which is due no later than the deadline of the priority from then on.
pub happens-started_timed :
    (round_to : ℕ → String → Option String) (deadlines : Priority → ℕ) (hs : List Happens)
    → Inv
        (happens round_to hs (started deadlines)).now
        (happens round_to hs (started deadlines)).monitor
unfolding started
happens-started_timed round_to deadlines hs =
    happens-Inv round_to hs (started deadlines) (new_monitor-Inv deadlines)

-- In the run of a monitor, a timer that runs out sends telemetry just where some change of any priority
-- waits, and leaves no change and no timer of any priority behind.
pub flush_priority-sends :
    (round_to : ℕ → String → Option String) (deadlines : Priority → ℕ) (hs : List Happens)
    (p : Priority)
    → ((flush_priority p (happens round_to hs (started deadlines)).monitor).1
        ≡ has_pending_changes (happens round_to hs (started deadlines)).monitor)
      × ((q : Priority)
          → ((flush_priority p (happens round_to hs (started deadlines)).monitor).0.pending q ≡ [])
            × ((flush_priority p (happens round_to hs (started deadlines)).monitor).0.timers q
                ≡ none))
flush_priority-sends round_to deadlines hs p =
    let c = happens round_to hs (started deadlines) in
    let v = happens-started_timed round_to deadlines hs in
    let (sent, cleared) = flush_priority_lem c.now p c.monitor v in
    (sent ∙ sym (has_pending_changes_lem c.now c.monitor v), cleared)
