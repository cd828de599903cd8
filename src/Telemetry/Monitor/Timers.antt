-- ===== src/Telemetry/Monitor/Timers.antt =====
-- Each operation of internal/telemetry/monitor.go keeps a timer for the changes that wait.
use radio_gaga.Common.{
  or_else, ℕ, ◌+◌, ◌≤◌, ◌<◌, ◌≡◌, ◌⊎◌, inl, inr, refl, Bool, true, false, not, String, List, [],
  ◌∷◌, Option, none, some, if◌then◌else◌, lookup, insert, length-insert, ◌==◌, ==_iff, ltb, length,
  arith, Bool-cases,
}
use radio_gaga.Telemetry.Priority.{Priority, immediate, quick, medium, slow}
use radio_gaga.Telemetry.Monitor.{
  Fields, Monitor, set_at, new_monitor, record_change, changes, total_pending, clear_all,
  flush_all_pending, flush_priority, has_pending_changes,
}

-- A priority has no waiting change and no timer, or both, and the timer is due in time.
abbrev pub Timed : ℕ → ℕ → List (String × Fields) → Option ℕ → Type 0
Timed now deadline pending timer =
    ((pending ≡ []) × (timer ≡ none))
    ⊎ ((0 < changes pending) × ((due : ℕ) × (timer ≡ some due) × (due ≤ now + deadline)))

abbrev pub Inv : ℕ → Monitor → Type 0
Inv now m = (p : Priority) → Timed now (m.deadlines p) (m.pending p) (m.timers p)

pub later :
    (now n deadline : ℕ) (pending : List (String × Fields)) (timer : Option ℕ)
    → Timed now deadline pending timer
    → Timed (now + n) deadline pending timer
later now n deadline pending timer (inl e) = inl e
later now n deadline pending timer (inr (l, (due, e, u))) = inr (l, (due, e, omega (arith, u)))

pub new_monitor-Inv : (deadlines : Priority → ℕ) → Inv 0 (new_monitor deadlines)
unfolding new_monitor
new_monitor-Inv deadlines p = inl (refl, refl)

pub clear_all-Inv : (now : ℕ) (m : Monitor) → Inv now (clear_all m)
unfolding clear_all
clear_all-Inv now m p = inl (refl, refl)

pub changes-insert :
    (hash : String) (fields : Fields) (pending : List (String × Fields))
    → 0 < length fields
    → 0 < changes (insert hash fields pending)
unfolding insert
changes-insert hash fields [] l = omega (arith, l)
changes-insert hash fields ((h, fs) ∷ pending) l =
    ground (arith, l, changes-insert hash fields pending l)

-- The timer that a change finds, or starts.
pub some_timer :
    (now deadline : ℕ) (before after : List (String × Fields)) (timer : Option ℕ)
    → Timed now deadline before timer
    → 0 < changes after
    → Timed now deadline after (elim timer [ none ↦ some (now + deadline) | some t ↦ some t ])
some_timer now deadline before after timer (inl (_, e)) l =
    rw e (inr (l, (now + deadline, refl, omega arith)))
some_timer now deadline before after timer (inr (_, (due, e, u))) l = rw e (inr (l, (due, refl, u)))

-- What holds at `p` of the new entries and elsewhere of the old ones, holds of the updated maps.
pub set_at-Timed :
    (now : ℕ) (m : Monitor) (p : Priority) (after : List (String × Fields)) (timer : Option ℕ)
    → Timed now (m.deadlines p) after timer
    → Inv now m
    → (q : Priority)
    → Timed now (m.deadlines q) (set_at p after m.pending q) (set_at p timer m.timers q)
set_at-Timed now m immediate after timer h v immediate = h
set_at-Timed now m quick after timer h v quick = h
set_at-Timed now m medium after timer h v medium = h
set_at-Timed now m slow after timer h v slow = h
set_at-Timed now m immediate after timer h v quick = v quick
set_at-Timed now m immediate after timer h v medium = v medium
set_at-Timed now m immediate after timer h v slow = v slow
set_at-Timed now m quick after timer h v immediate = v immediate
set_at-Timed now m quick after timer h v medium = v medium
set_at-Timed now m quick after timer h v slow = v slow
set_at-Timed now m medium after timer h v immediate = v immediate
set_at-Timed now m medium after timer h v quick = v quick
set_at-Timed now m medium after timer h v slow = v slow
set_at-Timed now m slow after timer h v immediate = v immediate
set_at-Timed now m slow after timer h v quick = v quick
set_at-Timed now m slow after timer h v medium = v medium

pub if_Inv :
    (now : ℕ) (b : Bool) (m n : Monitor)
    → Inv now m
    → (b ≡ false → Inv now n)
    → Inv now (if b then m else n)
if_Inv now true m n v w = v
if_Inv now false m n v w = w refl

pub record_change-Inv :
    (now : ℕ) (o : Option Priority) (hash field value : String) (m : Monitor)
    → Inv now m
    → Inv now (record_change now o hash field value m)
unfolding record_change
record_change-Inv now none hash field value m v = v
record_change-Inv now (some p) hash field value m v =
    let fields = insert field value (or_else [] (lookup hash (m.pending p))) in
    let after = insert hash fields (m.pending p) in
    let filled = changes-insert hash fields (m.pending p) (length-insert field value _) in
    let timed = some_timer now (m.deadlines p) (m.pending p) after (m.timers p) (v p) filled in
    if_Inv now _ m _ v (λ _. set_at-Timed now m p after _ timed v)

-- Nothing waits where nothing is counted.
pub total_pending-none :
    (now : ℕ) (m : Monitor)
    → Inv now m
    → total_pending m ≡ 0
    → (p : Priority) → (m.pending p ≡ []) × (m.timers p ≡ none)
unfolding total_pending
total_pending-none now m v h immediate = ground (arith, v immediate, h)
total_pending-none now m v h quick = ground (arith, v quick, h)
total_pending-none now m v h medium = ground (arith, v medium, h)
total_pending-none now m v h slow = ground (arith, v slow, h)

pub flush_all_pending-Inv : (now : ℕ) (m : Monitor) → Inv now m → Inv now (flush_all_pending m).0
unfolding flush_all_pending
flush_all_pending-Inv now m v = elim (Bool-cases (total_pending m == 0)) [
  | inl e ↦ rw e v
  | inr e ↦ rw e (clear_all-Inv now m)
]

pub set_at-none :
    (p q : Priority) (timers : Priority → Option ℕ)
    → timers q ≡ none
    → set_at p none timers q ≡ none
set_at-none p q timers e = ground (arith, e)

pub flush_priority-Inv :
    (now : ℕ) (p : Priority) (m : Monitor) → Inv now m → Inv now (flush_priority p m).0
unfolding flush_priority flush_all_pending total_pending clear_all
flush_priority-Inv now p m v = elim (Bool-cases (total_pending m == 0)) [
  | inl e ↦
      let nothing = total_pending-none now m v ((==_iff _ _).0 e) in
      rw e (λ q. inl ((nothing q).0, set_at-none p q m.timers (nothing q).1))
  | inr e ↦ rw e (λ q. inl (refl, refl))
]

pub length-Timed :
    (now deadline : ℕ) (pending : List (String × Fields)) (timer : Option ℕ)
    → Timed now deadline pending timer
    → ltb 0 (length pending) ≡ ltb 0 (changes pending)
length-Timed now deadline [] timer h = refl
length-Timed now deadline (entry ∷ pending) timer h = ground (arith, h)

pub has_pending_changes_lem :
    (now : ℕ) (m : Monitor) → Inv now m → has_pending_changes m ≡ not (total_pending m == 0)
unfolding has_pending_changes total_pending
has_pending_changes_lem now m v =
    rw
      (
        length-Timed now (m.deadlines immediate) (m.pending immediate) (m.timers immediate)
            (v immediate),
        length-Timed now (m.deadlines quick) (m.pending quick) (m.timers quick) (v quick),
        length-Timed now (m.deadlines medium) (m.pending medium) (m.timers medium) (v medium),
        length-Timed now (m.deadlines slow) (m.pending slow) (m.timers slow) (v slow),
      )
      (ground arith)

pub flush_priority_lem :
    (now : ℕ) (p : Priority) (m : Monitor)
    → Inv now m
    → ((flush_priority p m).1 ≡ not (total_pending m == 0))
      × ((q : Priority)
          → ((flush_priority p m).0.pending q ≡ []) × ((flush_priority p m).0.timers q ≡ none))
unfolding flush_priority flush_all_pending total_pending clear_all
flush_priority_lem now p m v = elim (Bool-cases (total_pending m == 0)) [
  | inl e ↦
      let nothing = total_pending-none now m v ((==_iff _ _).0 e) in
      rw e (refl, λ q. ((nothing q).0, set_at-none p q m.timers (nothing q).1))
  | inr e ↦ rw e (refl, λ q. (refl, refl))
]
