-- ===== src/Telemetry/Priority.antt =====
-- internal/telemetry/priority.go: how soon a changed field is reported. `strconv.ParseFloat`,
-- `math.Round` and `strconv.FormatInt` stand together as the parameter `round_to`, which answers `none`
-- for a text that is no number.
use radio_gaga.Common.{
  or_else, ℕ, ◌&&◌, ◌||◌, String, str_eq, List, [], ◌∷◌, Option, none, some, if◌then◌else◌, lookup,
  member, starts_with, str_append, leb,
}

pub data Priority : Type 0 where
  immediate : Priority
  quick : Priority
  medium : Priority
  slow : Priority

abbrev pub level : Priority → ℕ
level immediate = 0
level quick = 1
level medium = 2
level slow = 3

-- `hash + "[" + field + "]"`.
unfoldable pub full_key : String → String → String
full_key hash field = str_append hash (str_append "[" (str_append field "]"))

abbrev pub field_priorities : List (String × Priority)
field_priorities =
    ("vehicle[state]", immediate)
    ∷ ("vehicle[hop-on-active]", immediate)
    ∷ ("vehicle[seatbox:lock]", immediate)
    ∷ ("vehicle[handlebar:lock-sensor]", immediate)
    ∷ ("vehicle[blinker:state]", immediate)
    ∷ ("power-manager[state]", immediate)
    ∷ ("dashboard[service-mode-active]", immediate)
    ∷ ("gps[speed]", quick)
    ∷ ("gps[state]", quick)
    ∷ ("battery:0[charge]", quick)
    ∷ ("battery:0[state]", quick)
    ∷ ("battery:0[present]", quick)
    ∷ ("battery:1[charge]", quick)
    ∷ ("battery:1[state]", quick)
    ∷ ("battery:1[present]", quick)
    ∷ ("aux-battery[charge]", slow)
    ∷ ("aux-battery[voltage]", slow)
    ∷ ("aux-battery[charge-status]", slow)
    ∷ ("cb-battery[charge]", slow)
    ∷ ("cb-battery[cell-voltage]", slow)
    ∷ ("cb-battery[current]", slow)
    ∷ ("cb-battery[remaining-capacity]", slow)
    ∷ ("cb-battery[time-to-full]", slow)
    ∷ ("cb-battery[time-to-empty]", slow)
    ∷ ("ble[mac-address]", slow)
    ∷ ("ble[status]", slow)
    ∷ []

abbrev pub hash_priorities : List (String × Priority)
hash_priorities = ("battery:0", quick) ∷ ("battery:1", quick) ∷ []

abbrev pub noisy_fields : List String
noisy_fields =
    "gps[timestamp]" ∷ "internet[signal-quality]" ∷ "gps[latitude]" ∷ "gps[longitude]"
    ∷ "gps[altitude]" ∷ "gps[course]" ∷ []

abbrev pub quantization_buckets : List (String × ℕ)
quantization_buckets =
    ("battery:0[voltage]", 100)
    ∷ ("battery:1[voltage]", 100)
    ∷ ("battery:0[current]", 250)
    ∷ ("battery:1[current]", 250)
    ∷ ("engine-ecu[motor:voltage]", 50)
    ∷ ("engine-ecu[motor:current]", 100)
    ∷ ("aux-battery[voltage]", 50)
    ∷ ("cb-battery[cell-voltage]", 50)
    ∷ ("cb-battery[current]", 100)
    ∷ ("gps[speed]", 1)
    ∷ []

-- `none` stands for the source's -1, a field that is skipped.
unfoldable pub get_field_priority : String → String → Option Priority
get_field_priority hash field =
    if member (full_key hash field) noisy_fields
    then none
    else elim (lookup (full_key hash field) field_priorities) [
      | some p ↦ some p
      | none ↦
          if starts_with hash "battery:" && starts_with field "temperature"
          then some slow
          else some (or_else medium (lookup hash hash_priorities))
    ]

unfoldable pub quantize : (ℕ → String → Option String) → String → String → String → String
quantize round_to hash field value = elim (lookup (full_key hash field) quantization_buckets) [
  | none ↦ value
  | some bucket ↦
      if leb bucket 0 || str_eq value "" then value else or_else value (round_to bucket value)
]
