-- ===== src/Events/Detector/Delivery.antt =====
-- `sendEvent` of internal/events/detector.go: listeners hear of an event, and it is published, or kept
-- in the buffer of internal/events/buffer.go.
use radio_gaga.Common.{
  ◌≡◌, inl, inr, refl, sym, ap, ◌∙◌, Bool, true, false, ◌&&◌, String, List, [], ◌∷◌, ◌++◌, Option,
  none, some, if◌then◌else◌, lookup, member, is_empty, Bool-cases, arith,
}
use mathlib.Core.List.{append_assoc, append-nil}
use radio_gaga.Events.Types.{Event, Value, text, texts, number, hexadecimal, table}
use radio_gaga.Events.Buffer.{Buffer, BufferedEvent, add, persist_to_disk}

-- The publisher: `connected` is false where there is none.
pub record Link : Type 0 where
  pub connected : Bool
  pub accepts : Event → Bool

pub record EventListener : Type 0 where
  pub channel_name : String
  pub should_notify : String → Bool

-- What a send does outside of the detector, in order.
pub data Effect : Type 0 where
  notified : String → Event → Effect
  published : Event → Effect
  flushes_buffer : Effect
  flushes_telemetry : Effect

abbrev pub channel_list : Option Value → List String
channel_list none = []
channel_list (some (texts channels)) = channels
channel_list (some (text s)) = []
channel_list (some (number n)) = []
channel_list (some (hexadecimal n)) = []
channel_list (some (table t)) = []

unfoldable pub hears : Event → EventListener → Bool
hears e l =
    let targets = channel_list (lookup "channels" e.details) in
    if is_empty targets then l.should_notify e.event_type else member l.channel_name targets

unfoldable pub notify : Event → List EventListener → List Effect
notify e [] = []
notify e (l ∷ ls) =
    let rest = notify e ls in if hears e l then notified l.channel_name e ∷ rest else rest

abbrev pub goes_out : Link → Event → Bool
goes_out link e = link.connected && link.accepts e

-- The two flushes are goroutines; `flusher` says whether there is one to call.
unfoldable pub send_event :
    List EventListener → Bool → Bool → Link → Event → Buffer Event → Buffer Event × List Effect
send_event listeners flusher works link e b =
    if goes_out link e
    then (
      b,
      notify e listeners
          ++ published e ∷ flushes_buffer ∷ (if flusher then flushes_telemetry ∷ [] else []),
    )
    else (add works e b, notify e listeners)

-- Events that are sent one after another, each over the link of its time.
unfoldable pub send_events :
    List EventListener
    → Bool
    → List (Event × Bool × Link)
    → Buffer Event
    → Buffer Event × List Effect
send_events listeners flusher [] b = (b, [])
send_events listeners flusher ((e, works, link) ∷ es) b =
    let (after, effects) = send_event listeners flusher works link e b in
    let (last, rest) = send_events listeners flusher es after in (last, effects ++ rest)

-- `FlushBufferedEvents` passes on to the buffer when there is a connection.
unfoldable pub may_flush : Link → Bool
may_flush link = link.connected

abbrev pub publications : List Effect → List Event
publications [] = []
publications (published e ∷ es) = e ∷ publications es
publications (notified l e ∷ es) = publications es
publications (flushes_buffer ∷ es) = publications es
publications (flushes_telemetry ∷ es) = publications es

-- The events that their links take, and those that they do not, as the buffer keeps them.
abbrev pub taken : List (Event × Bool × Link) → List Event
taken [] = []
taken ((e, works, link) ∷ es) = if goes_out link e then e ∷ taken es else taken es

abbrev pub untaken : List (Event × Bool × Link) → List (BufferedEvent Event)
untaken [] = []
untaken ((e, works, link) ∷ es) =
    if goes_out link e then untaken es else record { event = e; retries = 0 } ∷ untaken es

publications-append :
    (xs ys : List Effect) → publications (xs ++ ys) ≡ publications xs ++ publications ys
publications-append [] ys = refl
publications-append (published e ∷ xs) ys = ap (λ zs. e ∷ zs) (publications-append xs ys)
publications-append (notified l e ∷ xs) ys = publications-append xs ys
publications-append (flushes_buffer ∷ xs) ys = publications-append xs ys
publications-append (flushes_telemetry ∷ xs) ys = publications-append xs ys

publications-notify : (e : Event) (ls : List EventListener) → publications (notify e ls) ≡ []
unfolding notify
publications-notify e [] = refl
publications-notify e (l ∷ ls) = elim (Bool-cases (hears e l)) [
  | inl h ↦ simp (h, publications-notify e ls)
  | inr h ↦ simp (h, publications-notify e ls)
]

add-keeps :
    (works : Bool) (e : Event) (b : Buffer Event)
    → (add works e b).events ≡ b.events ++ record { event = e; retries = 0 } ∷ []
unfolding add persist_to_disk
add-keeps works e b = ground arith

send_event-taken :
    (listeners : List EventListener) (flusher works : Bool) (link : Link) (e : Event)
    (b : Buffer Event)
    → goes_out link e ≡ true
    → (publications (send_event listeners flusher works link e b).1 ≡ e ∷ [])
      × ((send_event listeners flusher works link e b).0 ≡ b)
unfolding send_event
send_event-taken listeners true works link e b h =
    (simp (h, publications-append, publications-notify), simp h)
send_event-taken listeners false works link e b h =
    (simp (h, publications-append, publications-notify), simp h)

send_event-untaken :
    (listeners : List EventListener) (flusher works : Bool) (link : Link) (e : Event)
    (b : Buffer Event)
    → goes_out link e ≡ false
    → (publications (send_event listeners flusher works link e b).1 ≡ [])
      × ((send_event listeners flusher works link e b).0.events
          ≡ b.events ++ record { event = e; retries = 0 } ∷ [])
unfolding send_event
send_event-untaken listeners flusher works link e b h =
    (simp (h, publications-notify), simp (h, add-keeps))

-- Whatever the links and the listeners do, no event that is sent gets lost: those that their links take
-- are published, in order, and the others stand behind the buffered ones, in order and with no retries.
pub send_events_lem :
    (listeners : List EventListener) (flusher : Bool) (es : List (Event × Bool × Link))
    (b : Buffer Event)
    → (publications (send_events listeners flusher es b).1 ≡ taken es)
      × ((send_events listeners flusher es b).0.events ≡ b.events ++ untaken es)
unfolding send_events
send_events_lem listeners flusher [] b = (refl, sym (append-nil b.events))
send_events_lem listeners flusher ((e, works, link) ∷ es) b =
    let after : Buffer Event = (send_event listeners flusher works link e b).0 in
    let (rest, kept) = send_events_lem listeners flusher es after in
    elim (Bool-cases (goes_out link e)) [
      | inl h ↦
          let (out, same) = send_event-taken listeners flusher works link e b h in
          (
            rw publications-append (rw (out, rest, h) refl),
            rw h (kept ∙ ap (λ c. c.events ++ untaken es) same),
          )
      | inr h ↦
          let (out, more) = send_event-untaken listeners flusher works link e b h in
          (
            rw publications-append (rw (out, rest, h) refl),
            rw h (kept ∙ (ap (λ xs. xs ++ untaken es) more ∙ append_assoc b.events _ (untaken es))),
          )
    ]
