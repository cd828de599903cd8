-- ===== src/RideGroup/Session/Events.antt =====
-- What can happen to the adapter of internal/ridegroup in the second protocol, but a fix of GPS: in
-- any order, and each time with its own clock, connections, identifiers and encoder.
use radio_gaga.Common.{not, false, true, is_some, ℕ, Bool, String, List, [], ◌∷◌, Option}
use radio_gaga.RideGroup.Session.{Session, World}
use radio_gaga.RideGroup.Session.Lifecycle.{
  begin_connect, end_connect, on_disconnected, stop_adapter, refresh_blocked, fail_closed,
  expire_lease, handle_activity_v2, handle_downlink,
}

pub data Event : Type 0 where
  receives_activity : String → Event
  receives_downlink : Bool → String → Event
  ticks : Event
  begins_connect : ℕ → Event
  ends_connect : ℕ → ℕ → Option String → Event
  disconnects : ℕ → Event
  refreshes : Bool → Event
  fails : Event
  stops : String → Event

unfoldable pub step : World → Event → Session → Session
step w (receives_activity payload) s = handle_activity_v2 w payload s
step w (receives_downlink retained payload) s = handle_downlink w retained payload s
step w ticks s = expire_lease w s
step w (begins_connect client) s = (begin_connect w client s).0
step w (ends_connect client attempt connection) s = end_connect w client attempt connection s
step w (disconnects client) s = on_disconnected client s
step w (refreshes blocked) s = refresh_blocked w blocked s
step w fails s = fail_closed s
step w (stops topic) s = stop_adapter w topic s

unfoldable pub steps : List (World × Event) → Session → Session
steps [] s = s
steps ((w, e) ∷ es) s = steps es (step w e s)

-- Only a message of the scooter itself can tell of its journal and its activity.
abbrev pub is_own : Event → Bool
is_own (receives_activity payload) = true
is_own (receives_downlink retained payload) = false
is_own ticks = false
is_own (begins_connect client) = false
is_own (ends_connect client attempt connection) = false
is_own (disconnects client) = false
is_own (refreshes blocked) = false
is_own fails = false
is_own (stops topic) = false

-- Only a message of the broker that is not retained can grant.
abbrev pub may_grant : Event → Bool
may_grant (receives_downlink retained payload) = not retained
may_grant (receives_activity payload) = false
may_grant ticks = false
may_grant (begins_connect client) = false
may_grant (ends_connect client attempt connection) = false
may_grant (disconnects client) = false
may_grant (refreshes blocked) = false
may_grant fails = false
may_grant (stops topic) = false

-- Only the end of a connection, or a connection that comes to stand, can start anew.
abbrev pub may_reset : Event → Bool
may_reset (ends_connect client attempt connection) = is_some connection
may_reset (disconnects client) = true
may_reset (receives_downlink retained payload) = false
may_reset (receives_activity payload) = false
may_reset ticks = false
may_reset (begins_connect client) = false
may_reset (refreshes blocked) = false
may_reset fails = false
may_reset (stops topic) = false
