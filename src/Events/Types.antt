-- ===== src/Events/Types.antt =====
-- internal/events/types.go: an event for the cloud. Its timestamp is left out.
use radio_gaga.Common.{String, List, ℤ}

-- What the map of an event holds.
pub data Value : Type 0 where
  text : String → Value
  number : ℤ → Value
  hexadecimal : ℤ → Value
  texts : List String → Value
  table : List (String × String) → Value

pub record Event : Type 0 where
  pub event_type : String
  pub status : String
  pub details : List (String × Value)

unfoldable pub new_event : String → String → List (String × Value) → Event
new_event event_type status details = record {
  event_type = event_type;
  status = status;
  details = details;
}
