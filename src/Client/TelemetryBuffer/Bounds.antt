-- ===== src/Client/TelemetryBuffer/Bounds.antt =====
-- The size of the buffer of internal/client/telemetry_buffer.go, and what it keeps at that size.
use radio_gaga.Common.{
  ℕ, suc, ◌+◌, ◌*◌, ◌≤◌, ◌≡◌, inl, inr, refl, sym, ap, ◌∙◌, Bool, true, false, List, [], ◌∷◌, ◌++◌,
  Option, none, some, if◌then◌else◌, ltb, length, length-append, arith, Bool-cases, if-true,
}
use radio_gaga.Client.TelemetryBuffer.{
  TelemetryData, BufferedTelemetryEvent, TelemetryBuffer, Outside, Client, relative, drop_relative,
  handle_cross_session_buffer, every_second, new_event, split_last, subsample, adopt, append_event,
  current_buffer, persist_added, save_buffer_to_redis, save_buffer_to_disk, add_telemetry_to_buffer,
}

length-every_second :
    (es : List BufferedTelemetryEvent) → length (every_second es) * 2 ≤ length es + 1
length-every_second [] = omega arith
length-every_second (x ∷ []) = omega arith
length-every_second (x ∷ y ∷ es) = omega (arith, length-every_second es)

length-split_last :
    (x : BufferedTelemetryEvent) (es : List BufferedTelemetryEvent)
    → length (split_last x es).0 ≡ length es
length-split_last x [] = refl
length-split_last x (y ∷ es) = ap suc (length-split_last y es)

length-subsample :
    (max : ℕ) (es : List BufferedTelemetryEvent)
    → 3 ≤ max
    → length es ≤ max + 1
    → length (subsample es) ≤ max
unfolding subsample
length-subsample max [] l u = omega (arith, l)
length-subsample max (x ∷ []) l u = omega (arith, l)
length-subsample max (x ∷ y ∷ []) l u = omega (arith, l)
length-subsample max (x ∷ y ∷ z ∷ es) l u =
    let middle : List BufferedTelemetryEvent = (split_last y (z ∷ es)).0 in
    omega (
      arith,
      l,
      u,
      length-split_last y (z ∷ es),
      length-every_second middle,
      length-append (every_second middle) ((split_last y (z ∷ es)).1 ∷ []),
    )

length-drop_relative : (es : List BufferedTelemetryEvent) → length (drop_relative es) ≤ length es
unfolding drop_relative
length-drop_relative [] = omega arith
length-drop_relative (e ∷ es) = elim (Bool-cases (relative e)) [
  | inl h ↦ rw h (omega (arith, length-drop_relative es))
  | inr h ↦ rw h (omega (arith, length-drop_relative es))
]

length-adopt : (c : Client) (b : TelemetryBuffer) → length (adopt c b).events ≤ length b.events
unfolding adopt handle_cross_session_buffer
length-adopt c b = ground (arith, length-drop_relative b.events)

-- The newest event.
abbrev pub latest : List BufferedTelemetryEvent → Option BufferedTelemetryEvent
latest [] = none
latest (x ∷ []) = some x
latest (x ∷ y ∷ es) = latest (y ∷ es)

latest-append :
    (x : BufferedTelemetryEvent) (es : List BufferedTelemetryEvent) → latest (es ++ x ∷ []) ≡ some x
latest-append x [] = refl
latest-append x (y ∷ []) = refl
latest-append x (y ∷ z ∷ es) = latest-append x (z ∷ es)

latest-split_last :
    (x : BufferedTelemetryEvent) (es : List BufferedTelemetryEvent)
    → latest (x ∷ es) ≡ some (split_last x es).1
latest-split_last x [] = refl
latest-split_last x (y ∷ es) = latest-split_last y es

latest-subsample : (es : List BufferedTelemetryEvent) → latest (subsample es) ≡ latest es
unfolding subsample
latest-subsample [] = refl
latest-subsample (x ∷ []) = refl
latest-subsample (x ∷ y ∷ []) = refl
latest-subsample (x ∷ y ∷ z ∷ es) =
    latest-append (split_last y (z ∷ es)).1 (x ∷ every_second (split_last y (z ∷ es)).0)
    ∙ sym (latest-split_last y (z ∷ es))

abbrev pub Added : Client → TelemetryData → Option BufferedTelemetryEvent → Type 0
Added c t newest =
    (e : BufferedTelemetryEvent) × (newest ≡ some e)
    × (e.telemetry ≡ t)
    × (e.session_id ≡ c.session_id)
    × (e.attempts ≡ 0)

ltb-false : (a b : ℕ) → ltb a b ≡ false → b ≤ a
ltb-false a b h = ground arith

if_latest :
    (b : Bool) (es : List BufferedTelemetryEvent)
    → latest (if b then subsample es else es) ≡ latest es
if_latest true es = latest-subsample es
if_latest false es = refl

append_event-Added :
    (o : Outside) (c : Client) (t : TelemetryData) (b : TelemetryBuffer)
    → Added c t (latest (append_event o c t b).events)
unfolding append_event
append_event-Added o c t b = (
  new_event o c t b,
  if_latest (ltb c.max_size (length (b.events ++ new_event o c t b ∷ [])))
        (b.events ++ new_event o c t b ∷ [])
      ∙ latest-append (new_event o c t b) b.events,
  refl,
  refl,
  refl,
)

if_bound :
    (max : ℕ) (es : List BufferedTelemetryEvent)
    → 3 ≤ max
    → length es ≤ max + 1
    → length (if ltb max (length es) then subsample es else es) ≤ max
if_bound max es l u = elim (Bool-cases (ltb max (length es))) [
  | inl h ↦ rw h (length-subsample max es l u)
  | inr h ↦ rw h (ltb-false max (length es) h)
]

length-append_event :
    (o : Outside) (c : Client) (t : TelemetryData) (b : TelemetryBuffer)
    → 3 ≤ c.max_size
    → length b.events ≤ c.max_size
    → length (append_event o c t b).events ≤ c.max_size
unfolding append_event
length-append_event o c t b l u =
    if_bound c.max_size _ l (omega (arith, u, length-append b.events (new_event o c t b ∷ [])))

persist_added-buffer :
    (o : Outside) (b : TelemetryBuffer) (c : Client) → (persist_added o b c).buffer ≡ c.buffer
unfolding persist_added save_buffer_to_redis save_buffer_to_disk
persist_added-buffer o b c = ground arith

-- With a maximum of three events or more, and no more than that in the buffer that is used: after an
-- event is added, the buffer in memory has no more than the maximum, and its newest event is the one
-- that was added, untried and of this session, however the stores behave.
pub add_telemetry_to_buffer-bound :
    (o : Outside) (t : TelemetryData) (c : Client)
    → c.enabled ≡ true
    → 3 ≤ c.max_size
    → length (current_buffer o c).events ≤ c.max_size
    → (b : TelemetryBuffer) × ((add_telemetry_to_buffer o t c).buffer ≡ some b)
      × (length b.events ≤ c.max_size)
      × Added c t (latest b.events)
unfolding add_telemetry_to_buffer
add_telemetry_to_buffer-bound o t c e l u =
    let before = adopt c (current_buffer o c) in
    let b = append_event o c t before in
    let small =
      length-append_event o c t before l (omega (arith, u, length-adopt c (current_buffer o c))) in
    let kept = persist_added-buffer o b (record c { buffer = some b }) in
    (b, ap (λ d. d.buffer) (if-true c.enabled _ c e) ∙ kept, small, append_event-Added o c t before)
