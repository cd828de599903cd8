-- ===== src/Client/PublishFailures.antt =====
-- internal/client/telemetry_delta.go and internal/client/client.go: how a snapshot or a delta is handed to
-- the broker, and the count of failures in a row behind which the client forces a new connection. The
-- count is on 32 bits, which it stays far below; one publication is counted at a time.
mod Examples
use radio_gaga.Common.{
  ◌>>=◌, same_text, and_false, get-insert, ℕ, zero, suc, ◌+◌, ◌-◌, ◌*◌, ◌/◌, ◌%◌, ◌^◌, ◌≤◌, ◌<◌,
  ◌≡◌, ◌≢◌, ◌↔◌, ◌⊎◌, inl, inr, refl, sym, ap, subst, ◌∙◌, Bool, true, false, not, ◌&&◌, ◌||◌,
  String, str_eq, str_eq_iff, str_eq_differs, str_append, starts_with, List, [], ◌∷◌, ◌++◌, map,
  Option, none, some, if◌then◌else◌, if-true, ltb, leb, ◌==◌, ==_iff, or_else, get, lookup, insert,
  delete, lookup-insert, length-insert, insert-All, member, length, take, drop, length-append,
  length-drop, drop-append_length, is_empty, any, All, All-append, All-iff, Bool-cases,
  Option-cases, is_some, ℤ, pos, negsuc, at_most, at_least, codes, parse_int, arith,
}

-- `models.MaxConsecutivePublishFailures`.
abbrev pub max_consecutive_publish_failures : ℕ
max_consecutive_publish_failures = 3

-- What comes of a publication: JSON or the client is missing, or the broker confirms it in time, or not.
pub data Handover : Type 0 where
  not_encoded : Handover
  no_client : Handover
  not_confirmed : Handover
  confirmed : Handover

-- The count, whether the publication went out, and whether a new connection is forced.
pub record PublishResult : Type 0 where
  pub consecutive_publish_failures : ℕ
  pub published : Bool
  pub reconnects : Bool

unfoldable pub count_failure : ℕ → PublishResult
count_failure failures =
    if leb max_consecutive_publish_failures failures
    then record { consecutive_publish_failures = 0; published = false; reconnects = true }
    else record { consecutive_publish_failures = failures; published = false; reconnects = false }

-- `publishTelemetryDelta`, and `publishTelemetryData` in the same way.
unfoldable pub publish_telemetry_delta : Handover → ℕ → PublishResult
publish_telemetry_delta not_encoded n = record {
  consecutive_publish_failures = n;
  published = false;
  reconnects = false;
}
publish_telemetry_delta no_client n = record {
  consecutive_publish_failures = n;
  published = false;
  reconnects = false;
}
publish_telemetry_delta not_confirmed n = count_failure (n + 1)
publish_telemetry_delta confirmed n = record {
  consecutive_publish_failures = 0;
  published = true;
  reconnects = false;
}

-- `rebuildClient`, which may fail to connect.
unfoldable pub rebuild_client : Bool → ℕ → ℕ
rebuild_client connects n = if connects then 0 else n

-- A publication, or a new client, for whatever reason.
pub data Happening : Type 0 where
  publishes : Handover → Happening
  rebuilds : Bool → Happening

-- The count behind a list of these, the last of which comes first.
unfoldable pub count_after : List Happening → ℕ
count_after [] = 0
count_after (publishes h ∷ hs) =
    (publish_telemetry_delta h (count_after hs)).consecutive_publish_failures
count_after (rebuilds connects ∷ hs) = rebuild_client connects (count_after hs)

-- The publications that were not confirmed since the last one that was, or the last new connection.
unfoldable pub unconfirmed : List Happening → ℕ
unconfirmed [] = 0
unconfirmed (publishes not_encoded ∷ hs) = unconfirmed hs
unconfirmed (publishes no_client ∷ hs) = unconfirmed hs
unconfirmed (publishes not_confirmed ∷ hs) = unconfirmed hs + 1
unconfirmed (publishes confirmed ∷ hs) = 0
unconfirmed (rebuilds true ∷ hs) = 0
unconfirmed (rebuilds false ∷ hs) = unconfirmed hs

abbrev pub fails : Handover → Bool
fails not_encoded = false
fails no_client = false
fails not_confirmed = true
fails confirmed = false

-- A remainder by three that grows by one.
count_failure-mod :
    (n m : ℕ) → n ≡ m % 3 → (count_failure (n + 1)).consecutive_publish_failures ≡ (m + 1) % 3
unfolding count_failure
count_failure-mod n m e = elim (Bool-cases (leb 3 (n + 1))) [
  | inl b ↦ rw b (let high : 3 ≤ n + 1 = ground (arith, b) in omega (arith, e, high))
  | inr b ↦ rw b (let low : n + 1 < 3 = ground (arith, b) in omega (arith, e, low))
]

count_after-unconfirmed : (hs : List Happening) → count_after hs ≡ unconfirmed hs % 3
unfolding count_after unconfirmed publish_telemetry_delta rebuild_client
count_after-unconfirmed [] = refl
count_after-unconfirmed (publishes not_encoded ∷ hs) = count_after-unconfirmed hs
count_after-unconfirmed (publishes no_client ∷ hs) = count_after-unconfirmed hs
count_after-unconfirmed (publishes not_confirmed ∷ hs) =
    count_failure-mod (count_after hs) (unconfirmed hs) (count_after-unconfirmed hs)
count_after-unconfirmed (publishes confirmed ∷ hs) = refl
count_after-unconfirmed (rebuilds true ∷ hs) = refl
count_after-unconfirmed (rebuilds false ∷ hs) = count_after-unconfirmed hs

count_failure-reconnects :
    (n m : ℕ) → n ≡ m % 3 → (count_failure (n + 1)).reconnects ≡ ((m + 1) % 3 == 0)
unfolding count_failure
count_failure-reconnects n m e = elim (Bool-cases (leb 3 (n + 1))) [
  | inl b ↦ rw b (
      let high : 3 ≤ n + 1 = ground (arith, b) in
      let zero_left : (m + 1) % 3 ≡ 0 = omega (arith, e, high) in
      sym ((==_iff ((m + 1) % 3) 0).1 zero_left))
  | inr b ↦ rw b (
      let low : n + 1 < 3 = ground (arith, b) in
      let some_left : 0 < (m + 1) % 3 = omega (arith, e, low) in ground (arith, some_left))
]

-- A publication forces a new connection just where it is not confirmed and makes the number of those that
-- were not confirmed since the last one that was, or since the last client that was rebuilt and
-- connected, a multiple of three; those that could not be handed over do not count.
pub publish_telemetry_delta-reconnects :
    (h : Handover) (hs : List Happening)
    → (publish_telemetry_delta h (count_after hs)).reconnects
      ≡ (fails h && unconfirmed (publishes h ∷ hs) % 3 == 0)
unfolding publish_telemetry_delta unconfirmed
publish_telemetry_delta-reconnects not_encoded hs = refl
publish_telemetry_delta-reconnects no_client hs = refl
publish_telemetry_delta-reconnects not_confirmed hs =
    count_failure-reconnects (count_after hs) (unconfirmed hs) (count_after-unconfirmed hs)
publish_telemetry_delta-reconnects confirmed hs = refl
