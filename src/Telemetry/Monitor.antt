-- ===== src/Telemetry/Monitor.antt =====
-- internal/telemetry/monitor.go: changed fields wait in the set of their priority until a timer of
-- some priority runs out. A timer is the time at which it is due. `FlushTelemetry` is outside: an
-- operation answers whether it calls it. The client's `HGetAll` is the reply that is passed in.
mod Timers
mod Deadlines
mod Changes
mod Examples
use radio_gaga.Common.{
  or_else, ℕ, ◌+◌, ◌≤◌, ◌≡◌, refl, Bool, true, false, ◌&&◌, ◌||◌, not, String, str_eq, List, [],
  ◌∷◌, ◌++◌, Option, none, some, if◌then◌else◌, lookup, insert, ◌==◌, ltb, length, any,
}
use radio_gaga.Telemetry.Priority.{
  Priority, immediate, quick, medium, slow, level, full_key, get_field_priority, quantize,
}

abbrev pub Fields : Type 0
Fields = List (String × String)

pub record Monitor : Type 0 where
  pub deadlines : Priority → ℕ
  pub pending : Priority → List (String × Fields)
  pub timers : Priority → Option ℕ
  pub last_values : Fields

-- Assignment to one entry of a map that is keyed by priority.
abbrev pub set_at {ℓ} : {A : Type ℓ} → Priority → A → (Priority → A) → Priority → A
set_at p a f q = if level p == level q then a else f q

unfoldable pub new_monitor : (Priority → ℕ) → Monitor
new_monitor deadlines = record {
  deadlines = deadlines;
  pending = λ _. [];
  timers = λ _. none;
  last_values = [];
}

-- The part of `handleFieldChange` behind the lookup of the priority.
unfoldable pub record_change : ℕ → Option Priority → String → String → String → Monitor → Monitor
record_change now none hash field value m = m
record_change now (some p) hash field value m =
    if str_eq (or_else "" (lookup (full_key hash field) m.last_values)) value then m else record m {
      last_values = insert (full_key hash field) value m.last_values;
      pending =
          set_at p
            (insert hash (insert field value (or_else [] (lookup hash (m.pending p))))
              (m.pending p))
            m.pending;
      timers =
          set_at p (elim (m.timers p) [ none ↦ some (now + m.deadlines p) | some t ↦ some t ])
            m.timers;
    }

unfoldable pub handle_field_change :
    (ℕ → String → Option String) → ℕ → String → String → String → Monitor → Monitor
handle_field_change round_to now hash field value m =
    record_change now (get_field_priority hash field) hash field
      (quantize round_to hash field value) m

-- The fields of one priority that wait, and those of all.
abbrev pub changes : List (String × Fields) → ℕ
changes [] = 0
changes ((_, fields) ∷ hashes) = length fields + changes hashes

unfoldable pub total_pending : Monitor → ℕ
total_pending m =
    changes (m.pending immediate)
    + changes (m.pending quick)
    + changes (m.pending medium)
    + changes (m.pending slow)

unfoldable pub clear_all : Monitor → Monitor
clear_all m = record m { pending = λ _. []; timers = λ _. none }

-- `FlushAllPending`.
unfoldable pub flush_all_pending : Monitor → Monitor × Bool
flush_all_pending m = if total_pending m == 0 then (m, false) else (clear_all m, true)

-- `flushPriority`, which a timer calls.
unfoldable pub flush_priority : Priority → Monitor → Monitor × Bool
flush_priority p m = flush_all_pending (record m { timers = set_at p none m.timers })

-- `InitializeBaseline`: the reply for each hash, `none` where the read failed.
unfoldable pub baseline_fields : (ℕ → String → Option String) → String → Fields → Fields → Fields
baseline_fields round_to hash [] last = last
baseline_fields round_to hash ((field, value) ∷ fields) last =
    baseline_fields round_to hash fields
      (insert (full_key hash field) (quantize round_to hash field value) last)

unfoldable pub baseline :
    (ℕ → String → Option String) → List (String × Option Fields) → Fields → Fields
baseline round_to [] last = last
baseline round_to ((hash, none) ∷ hashes) last = baseline round_to hashes last
baseline round_to ((hash, some fields) ∷ hashes) last =
    baseline round_to hashes (baseline_fields round_to hash fields last)

unfoldable pub initialize_baseline :
    (ℕ → String → Option String) → List (String × Option Fields) → Monitor → Monitor
initialize_baseline round_to replies m = record m {
  last_values = baseline round_to replies m.last_values;
}

unfoldable pub stop_all_timers : Monitor → Monitor
stop_all_timers m = record m { timers = λ _. none }

unfoldable pub has_pending_changes : Monitor → Bool
has_pending_changes m =
    ltb 0 (length (m.pending immediate))
    || ltb 0 (length (m.pending quick))
    || ltb 0 (length (m.pending medium))
    || ltb 0 (length (m.pending slow))
