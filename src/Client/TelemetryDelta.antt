-- ===== src/Client/TelemetryDelta.antt =====
-- internal/client/telemetry_delta.go: telemetry that is sent in full, or as what has changed since. A map
-- is a list of fields; a value that is no map is the text of its JSON. Floating-point numbers are the
-- parameter `Geo` of the movement monitor, which has the same distance.
mod Received
mod RoundTrip
mod Resync
mod Examples
use radio_gaga.Common.{
  ℕ, zero, suc, ◌+◌, ◌-◌, ◌*◌, ◌/◌, ◌%◌, ◌^◌, ◌≤◌, ◌<◌, ◌≡◌, ◌≢◌, ◌↔◌, ◌⊎◌, inl, inr, refl, sym, ap,
  subst, ◌∙◌, Bool, true, false, not, ◌&&◌, ◌||◌, String, str_eq, str_eq_iff, str_eq_differs,
  str_append, starts_with, List, [], ◌∷◌, ◌++◌, map, Option, none, some, if◌then◌else◌, if-true,
  ltb, leb, ◌==◌, ==_iff, or_else, get, lookup, insert, delete, lookup-insert, length-insert,
  insert-All, member, length, take, drop, length-append, length-drop, drop-append_length, is_empty,
  any, All, All-append, All-iff, Bool-cases, Option-cases, is_some, ℤ, pos, negsuc, at_most,
  at_least, codes, parse_int, arith,
}
use radio_gaga.Events.Movement.{Geo}

mutual
  pub data Json : Type 0 where
    value : String → Json
    object : Fields → Json

  pub data Fields : Type 0 where
    end : Fields
    field : String → Json → Fields → Fields

unfoldable pub find_field : String → Fields → Option Json
find_field k end = none
find_field k (field j v fs) = if str_eq j k then some v else find_field k fs

-- A path is the list of its keys; `dotted` gives the text of `joinKey`, which the code passes down.
abbrev pub KeyPath : Type 0
KeyPath = List String

abbrev pub join_key : String → String → String
join_key prefix k = if str_eq prefix "" then k else str_append prefix (str_append "." k)

abbrev pub dotted : String → KeyPath → String
dotted prefix [] = prefix
dotted prefix (k ∷ p) = dotted (join_key prefix k) p

abbrev pub below_key : String → List KeyPath → List KeyPath
below_key k [] = []
below_key k (p ∷ ps) = (k ∷ p) ∷ below_key k ps

-- The keys of `prev` that `curr` lacks.
unfoldable pub gone : Fields → Fields → List KeyPath
gone end curr = []
gone (field k v prev) curr =
    let rest = gone prev curr in if is_some (find_field k curr) then rest else (k ∷ []) ∷ rest

-- `if len(sub) > 0`.
abbrev pub not_empty_object : Fields → Option Json
not_empty_object end = none
not_empty_object (field k v fs) = some (object (field k v fs))

abbrev pub put : String → Option Json × List KeyPath → Fields × List KeyPath → Fields × List KeyPath
put k (none, cleared) (delta, rest) = (delta, below_key k cleared ++ rest)
put k (some v, cleared) (delta, rest) = (field k v delta, below_key k cleared ++ rest)

unfoldable mutual
  -- One round of the loop over `curr`, at a key with the value that `prev` has there.
  pub diff_value : Option Json → Json → Option Json × List KeyPath
  diff_value none cv = (some cv, [])
  diff_value (some (value a)) (value b) = (if str_eq a b then none else some (value b), [])
  diff_value (some (value a)) (object c) = (some (object c), [])
  diff_value (some (object p)) (value b) = (some (value b), [])
  diff_value (some (object p)) (object c) =
      let (sub, cleared) = diff_fields p c in (not_empty_object sub, cleared ++ gone p c)

  -- The loop over `curr`.
  pub diff_fields : Fields → Fields → Fields × List KeyPath
  diff_fields prev end = (end, [])
  diff_fields prev (field k cv curr) =
      put k (diff_value (find_field k prev) cv) (diff_fields prev curr)

unfoldable pub compute_delta : Fields → Fields → Fields × List KeyPath
compute_delta prev curr =
    let (delta, cleared) = diff_fields prev curr in (delta, cleared ++ gone prev curr)

pub data Publication : Type 0 where
  full : Fields → Publication
  delta : Fields → List KeyPath → Publication

-- What comes of a publish: the broker confirms it in time, or it only reaches the broker, where the wait
-- timed out, or it is lost or not handed over.
pub data Answer : Type 0 where
  confirmed : Answer
  timed_out : Answer
  lost : Answer

-- A publication that reached the broker, and whether the client knows.
pub record Arrived : Type 0 where
  pub content : Publication
  pub in_time : Bool

abbrev pub full_resync_every : ℕ
full_resync_every = 20

abbrev pub count_flush : Publication → ℕ → ℕ
count_flush (full m) n = 0
count_flush (delta d c) n = n + 1

abbrev pub against : Fields → Option Fields → Publication
against curr none = full curr
against curr (some prev) = let (changed, cleared) = compute_delta prev curr in delta changed cleared

module _ (geo : Geo) where
  abbrev pub Point : Type 0
  Point = geo.float × geo.float

  -- `telemetryToMap` at a position, with the state and the position that are read from the telemetry.
  pub record Telemetry : Type 0 where
    pub state : String
    pub gps : Point
    pub to_map : Point → Fields

  -- What the client remembers of its sends; a position that is not valid is `none`.
  pub record Sent : Type 0 where
    pub last_gps : Option Point
    pub last_sent_map : Option Fields
    pub last_sent_state : String
    pub flushes_since_full : ℕ

  abbrev pub never_sent : Sent
  never_sent = record {
    last_gps = none;
    last_sent_map = none;
    last_sent_state = "";
    flushes_since_full = 0;
  }

  abbrev pub gps_fix_valid : Point → Bool
  gps_fix_valid p = not (geo.is_zero p.0 && geo.is_zero p.1)

  -- A valid position of a vehicle that is not driving, against the last one.
  abbrev pub hold_position : Point → Option Point → Point × Option Point
  hold_position cur none = (cur, some cur)
  hold_position cur (some last) =
      if geo.below (geo.distance last cur) 5 then (last, some last) else (cur, some cur)

  -- The reported position, and the last one from now on.
  unfoldable pub smooth_parked_gps : Point → Option Point → Bool → Point × Option Point
  smooth_parked_gps cur last driving =
      if driving || not (gps_fix_valid cur)
      then (cur, if gps_fix_valid cur then some cur else none)
      else hold_position cur last

  -- What `publishTelemetrySmart` is about to send.
  unfoldable pub next_publication : Bool → String → Fields → Sent → Publication
  next_publication force_full state curr s =
      if force_full
        || (leb full_resync_every s.flushes_since_full || not (str_eq state s.last_sent_state))
      then full curr
      else against curr s.last_sent_map

  -- What the client keeps of a publish, and what reaches the broker.
  unfoldable pub after_answer :
      Answer → Publication → String → Fields → Sent → Sent × Option Arrived
  after_answer confirmed p state curr s = (
    record s {
      last_sent_map = some curr;
      last_sent_state = state;
      flushes_since_full = count_flush p s.flushes_since_full;
    },
    some (record { content = p; in_time = true }),
  )
  after_answer timed_out p state curr s = (s, some (record { content = p; in_time = false }))
  after_answer lost p state curr s = (s, none)

  -- The end of `publishTelemetrySmart`.
  unfoldable pub send_publication :
      (Publication → Answer) → Publication → String → Fields → Sent → Sent × Option Arrived
  send_publication answer p state curr s = after_answer (answer p) p state curr s

  unfoldable pub publish_telemetry_smart :
      (Publication → Answer) → Telemetry → Bool → Sent → Sent × Option Arrived
  publish_telemetry_smart answer current force_full s =
      let (reported, last) =
        smooth_parked_gps current.gps s.last_gps (str_eq current.state "ready-to-drive") in
      let curr = current.to_map reported in
      send_publication answer (next_publication force_full current.state curr s) current.state curr
        (record s { last_gps = last })
