-- ===== src/Client/TelemetryBuffer/Sending.antt =====
-- What internal/client/telemetry_buffer.go sends, and what it keeps after that.
use radio_gaga.Common.{
  ◌≡◌, inl, inr, refl, sym, ap, ◌∙◌, true, false, ◌&&◌, String, str_eq, starts_with, List, [], ◌∷◌,
  Option, none, some, if◌then◌else◌, All, All-append, arith, Bool-cases, if-true, is_empty,
}
use radio_gaga.Client.TelemetryBuffer.{
  BufferedTelemetryEvent, TelemetryBuffer, Outside, Client, relative, with_timestamp, resolved,
  resolve_timestamps, Transmission, idle, emptied, unconnected, refused, sent, transmission,
  after_transmission, transmit_from, loaded, transmit_buffer, retry_from, retry_transmit_buffer,
  load_buffer, load_buffer_from_redis, load_buffer_from_disk, save_buffer_to_redis,
  save_buffer_to_disk, reset_buffer, create_new_buffer, first_of,
}

-- The events that a transmission is about.
abbrev pub carried : Option Transmission → List BufferedTelemetryEvent
carried none = []
carried (some idle) = []
carried (some emptied) = []
carried (some (unconnected kept)) = kept
carried (some (refused kept)) = kept
carried (some (sent kept)) = kept

abbrev pub Absolute : List BufferedTelemetryEvent → Type 0
Absolute = All (λ e. relative e ≡ false)

-- A time that an offset stands for is written as a date.
abbrev pub ResolvesToDates : Outside → Type 0
ResolvesToDates o =
    (s t : String) → o.resolve s ≡ some t → starts_with t "INVALID_RELATIVE:" ≡ false

with_timestamp-Absolute :
    (e : BufferedTelemetryEvent) (t : Option String)
    → ((s : String) → t ≡ some s → starts_with s "INVALID_RELATIVE:" ≡ false)
    → Absolute (with_timestamp t e)
with_timestamp-Absolute e none h = tt
with_timestamp-Absolute e (some t) h = (h t refl, tt)

resolved-Absolute :
    (o : Outside) (session : String) (e : BufferedTelemetryEvent)
    → ResolvesToDates o
    → Absolute (resolved o session e)
unfolding resolved
resolved-Absolute o session e dates = elim (Bool-cases (relative e)) [
  | inr h ↦ rw h (h, tt)
  | inl h ↦ elim (Bool-cases (o.clock_valid && str_eq e.session_id session)) [
    | inl k ↦
        rw (h, k)
          (with_timestamp-Absolute e (o.resolve e.telemetry.timestamp)
            (dates e.telemetry.timestamp))
    | inr k ↦ rw (h, k) tt
  ]
]

resolve_timestamps-Absolute :
    (o : Outside) (session : String) (es : List BufferedTelemetryEvent)
    → ResolvesToDates o
    → Absolute (resolve_timestamps o session es)
unfolding resolve_timestamps
resolve_timestamps-Absolute o session [] dates = tt
resolve_timestamps-Absolute o session (e ∷ es) dates =
    All-append _ _ _ (resolved-Absolute o session e dates)
      (resolve_timestamps-Absolute o session es dates)

transmission-Absolute :
    (o : Outside) (session : String) (b : TelemetryBuffer)
    → ResolvesToDates o
    → Absolute (carried (some (transmission o session b)))
unfolding transmission
transmission-Absolute o session b dates =
    let kept = resolve_timestamps o session b.events in
    let dated = resolve_timestamps-Absolute o session b.events dates in
    elim (Bool-cases (is_empty b.events)) [
      | inl e ↦ rw e tt
      | inr e ↦ elim (Bool-cases (is_empty kept)) [
        | inl f ↦ rw (e, f) tt
        | inr f ↦ elim (Bool-cases o.connected) [
          | inr g ↦ simp (e, f, g) dated
          | inl g ↦ elim (Bool-cases o.published) [
            | inl h ↦ simp (e, f, g, h) dated
            | inr h ↦ simp (e, f, g, h) dated
          ]
        ]
      ]
    ]

transmit_from-Absolute :
    (o : Outside) (b : Option TelemetryBuffer) (c : Client)
    → ResolvesToDates o
    → Absolute (carried (transmit_from o b c).1)
unfolding transmit_from
transmit_from-Absolute o none c dates = tt
transmit_from-Absolute o (some b) c dates = transmission-Absolute o c.session_id b dates

-- No transmission carries an event whose time is still relative to the start of a session, when offsets
-- resolve to dates.
pub transmit_buffer-Absolute :
    (o : Outside) (c : Client) → ResolvesToDates o → Absolute (carried (transmit_buffer o c).1)
unfolding transmit_buffer
transmit_buffer-Absolute o c dates = transmit_from-Absolute o _ c dates

abbrev unwrapped : Option Transmission → Transmission
unwrapped none = idle
unwrapped (some t) = t

-- A transmission that went out, at the buffer that was sent.
transmit_from-sent :
    (o : Outside) (b : Option TelemetryBuffer) (c : Client) (es : List BufferedTelemetryEvent)
    → (transmit_from o b c).1 ≡ some (sent es)
    → (old : TelemetryBuffer) × ((transmit_from o b c).0 ≡ after_transmission o old (sent es) c)
unfolding transmit_from
transmit_from-sent o none c es h = cc
transmit_from-sent o (some b) c es h = (b, ap (λ t. after_transmission o b t c) (ap unwrapped h))

after_sent-redis :
    (o : Outside) (b : TelemetryBuffer) (es : List BufferedTelemetryEvent) (c : Client)
    → o.redis_writes ≡ true
    → (after_transmission o b (sent es) c).redis ≡ some (create_new_buffer o c.session_id)
unfolding after_transmission save_buffer_to_disk save_buffer_to_redis reset_buffer
after_sent-redis o b es c w = ground (arith, w)

after_sent-buffer :
    (o : Outside) (b : TelemetryBuffer) (es : List BufferedTelemetryEvent) (c : Client)
    → (after_transmission o b (sent es) c).buffer ≡ some (create_new_buffer o c.session_id)
unfolding after_transmission save_buffer_to_disk save_buffer_to_redis reset_buffer
after_sent-buffer o b es c = ground arith

transmit_buffer-sent :
    (o : Outside) (c : Client) (es : List BufferedTelemetryEvent)
    → (transmit_buffer o c).1 ≡ some (sent es)
    → (old : TelemetryBuffer) × ((transmit_buffer o c).0 ≡ after_transmission o old (sent es) c)
unfolding transmit_buffer
transmit_buffer-sent o c es h = transmit_from-sent o _ c es h

first_of-redis :
    (o : Outside) (c : Client) (b : TelemetryBuffer)
    → o.redis_reads ≡ true
    → c.redis ≡ some b
    → load_buffer o c ≡ b
unfolding load_buffer load_buffer_from_redis
first_of-redis o c b r h =
    ap (λ s. first_of s (load_buffer_from_disk o c) (create_new_buffer o c.session_id))
      (if-true o.redis_reads c.redis none r ∙ h)

-- After a transmission that went out, the buffer in memory is new and empty; when Redis took it, so is
-- the one that a restart loads from Redis, whatever is on disk: no event is sent twice.
pub transmit_buffer-load_buffer :
    (o next : Outside) (c : Client) (es : List BufferedTelemetryEvent)
    → (transmit_buffer o c).1 ≡ some (sent es)
    → o.redis_writes ≡ true
    → next.redis_reads ≡ true
    → ((transmit_buffer o c).0.buffer ≡ some (create_new_buffer o c.session_id))
      × (load_buffer next (transmit_buffer o c).0 ≡ create_new_buffer o c.session_id)
transmit_buffer-load_buffer o next c es h w r =
    let (old, e) = transmit_buffer-sent o c es h in
    (
      ap (λ d. d.buffer) e ∙ after_sent-buffer o old es c,
      first_of-redis next (transmit_buffer o c).0 (create_new_buffer o c.session_id) r
          (ap (λ d. d.redis) e ∙ after_sent-redis o old es c w),
    )

loaded-held :
    (o : Outside) (c : Client) (b : TelemetryBuffer) → c.buffer ≡ some b → loaded o c ≡ some b
unfolding loaded
loaded-held o c b h = rw h refl

held_result :
    (o : Outside) (c : Client) (b : TelemetryBuffer)
    → c.buffer ≡ some b
    → (transmit_buffer o c).1 ≡ (transmit_from o (if c.enabled then some b else none) c).1
unfolding transmit_buffer
held_result o c b h =
    ap (λ s. (transmit_from o (if c.enabled then s else none) c).1) (loaded-held o c b h)

session_result :
    (o : Outside) (b : Option TelemetryBuffer) (c : Client) (r : Option TelemetryBuffer)
    → (transmit_from o b (record c { redis = r })).1 ≡ (transmit_from o b c).1
unfolding transmit_from
session_result o none c r = refl
session_result o (some b) c r = refl

retry_keeps :
    (o : Outside) (b : Option TelemetryBuffer) (c : Client)
    → (retry_from o b c).0 ≡ record c { redis = (retry_from o b c).0.redis }
unfolding retry_from save_buffer_to_redis
retry_keeps o none c = refl
retry_keeps o (some b) c = ground arith

-- A retry, also one that gives up because an event has been tried too often, changes nothing of what the
-- next transmission does with the buffer in memory: it sends the same events as without the retry.
pub retry_transmit_buffer-transmit_buffer :
    (o next : Outside) (c : Client) (b : TelemetryBuffer)
    → c.buffer ≡ some b
    → (transmit_buffer next (retry_transmit_buffer o c).0).1 ≡ (transmit_buffer next c).1
unfolding retry_transmit_buffer
retry_transmit_buffer-transmit_buffer o next c b h =
    let r = (retry_transmit_buffer o c).0.redis in
    ap (λ d. (transmit_buffer next d).1) (retry_keeps o _ c)
    ∙ (held_result next (record c { redis = r }) b h
        ∙ (session_result next (if c.enabled then some b else none) c r
            ∙ sym (held_result next c b h)))
