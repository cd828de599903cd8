-- ===== src/Telemetry/Monitor/Changes.antt =====
-- Which reports to internal/telemetry/monitor.go are changes.
use radio_gaga.Common.{
  or_else, ℕ, ◌≡◌, inl, inr, refl, false, String, str_eq, str_eq_iff, [], Option, none, some,
  lookup, lookup-insert, ==_iff, Bool-cases,
}
use radio_gaga.Telemetry.Priority.{Priority, level, full_key, get_field_priority, quantize}
use radio_gaga.Telemetry.Monitor.{Monitor, record_change, handle_field_change}

record_change-repeated :
    (now later_on : ℕ) (o : Option Priority) (hash field value : String) (m : Monitor)
    → record_change later_on o hash field value (record_change now o hash field value m)
      ≡ record_change now o hash field value m
unfolding record_change
record_change-repeated now later_on none hash field value m = refl
record_change-repeated now later_on (some p) hash field value m =
    elim (Bool-cases (str_eq (or_else "" (lookup (full_key hash field) m.last_values)) value)) [
      | inl e ↦ simp (e)
      | inr e ↦ simp (
        e,
        lookup-insert (full_key hash field) (full_key hash field) value m.last_values,
        (str_eq_iff (full_key hash field) (full_key hash field)).1 refl,
        (str_eq_iff value value).1 refl,
      )
    ]

-- A field that is reported again with the value it has already starts nothing: the second report leaves
-- the monitor as the first made it, at any time.
pub handle_field_change-repeated :
    (round_to : ℕ → String → Option String) (now later_on : ℕ) (hash field value : String)
    (m : Monitor)
    → handle_field_change round_to later_on hash field value
        (handle_field_change round_to now hash field value m)
      ≡ handle_field_change round_to now hash field value m
unfolding handle_field_change
handle_field_change-repeated round_to now later_on hash field value m =
    record_change-repeated now later_on (get_field_priority hash field) hash field _ m

-- A report of a field with a priority, whose rounded value differs from the last one, makes that value
-- wait under the priority, the hash and the field.
pub handle_field_change-waits :
    (round_to : ℕ → String → Option String) (now : ℕ) (hash field value : String) (m : Monitor)
    (p : Priority)
    → get_field_priority hash field ≡ some p
    → str_eq
        (or_else "" (lookup (full_key hash field) m.last_values))
        (quantize round_to hash field value)
      ≡ false
    → lookup field
        (or_else [] (lookup hash ((handle_field_change round_to now hash field value m).pending p)))
      ≡ some (quantize round_to hash field value)
unfolding handle_field_change record_change
handle_field_change-waits round_to now hash field value m p e h = simp (
  e,
  h,
  (==_iff (level p) (level p)).1 refl,
  lookup-insert,
  (str_eq_iff hash hash).1 refl,
  (str_eq_iff field field).1 refl,
)
