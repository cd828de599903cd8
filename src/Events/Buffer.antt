-- ===== src/Events/Buffer.antt =====
-- internal/events/buffer.go: events kept for a later transmission. The events are of any type `E`;
-- the file holds one entry for each line. How many bytes the line of an event has is a parameter. `Flush` releases the
-- lock while it sends, so its parts are steps of their own, and `Add` and `Flush` run in between.
mod Accounting
mod Reload
mod Examples
use radio_gaga.Common.{
  ℕ, ◌+◌, ◌-◌, ◌*◌, ◌^◌, ◌%◌, Bool, true, false, not, ◌||◌, List, [], ◌∷◌, ◌++◌, Option, none, some,
  if◌then◌else◌, leb, ltb, length, drop, is_empty,
}

pub record BufferedEvent (E : Type 0) : Type 0 where
  pub event : E
  pub retries : ℕ

-- A line of the file: an event, or so many bytes that do not parse.
pub data Line (E : Type 0) : Type 0 where
  parsed : BufferedEvent E → Line E
  unparsed : ℕ → Line E

-- `bufio.MaxScanTokenSize`, of which the newline takes one byte.
abbrev pub longest_line : ℕ
longest_line = 65535

-- The mutex-protected fields, the file, and the batch that a running flush is sending.
pub record Buffer (E : Type 0) : Type 0 where
  pub has_path : Bool
  pub max_retries : ℕ
  pub events : List (BufferedEvent E)
  pub flushing : Bool
  pub flush_requested : Bool
  pub file : List (Line E)
  pub batch : List (BufferedEvent E)

-- What one pass over a batch does with its events, in order.
pub record Sent (E : Type 0) : Type 0 where
  pub failed : List (BufferedEvent E)
  pub delivered : List E
  pub discarded : List E

module _ {E : Type 0} where
  abbrev pub lines : List (BufferedEvent E) → List (Line E)
  lines [] = []
  lines (e ∷ es) = parsed e ∷ lines es

  -- `persistToDisk`: the snapshot replaces the file whole, or fails and leaves it.
  unfoldable pub persist_to_disk : Bool → Buffer E → Buffer E
  persist_to_disk works b =
      if b.has_path then (if works then record b { file = lines b.events } else b) else b

  -- `loadFromDisk`: lines that do not parse are skipped. At a line that is too long the scanner stops,
  -- with an error that nothing asks for.
  unfoldable pub parse_lines : (BufferedEvent E → ℕ) → List (Line E) → List (BufferedEvent E)
  parse_lines bytes [] = []
  parse_lines bytes (unparsed n ∷ ls) =
      let rest = parse_lines bytes ls in if leb n longest_line then rest else []
  parse_lines bytes (parsed e ∷ ls) =
      let rest = parse_lines bytes ls in if leb (bytes e) longest_line then e ∷ rest else []

  unfoldable pub load_from_disk : (BufferedEvent E → ℕ) → Buffer E → Buffer E
  load_from_disk bytes b =
      if b.has_path then record b { events = b.events ++ parse_lines bytes b.file } else b

  -- `NewBuffer`, over the file that an earlier process left.
  unfoldable pub new_buffer : (BufferedEvent E → ℕ) → Bool → ℕ → List (Line E) → Buffer E
  new_buffer bytes has_path max_retries file = load_from_disk bytes (record {
    has_path = has_path;
    max_retries = max_retries;
    events = [];
    flushing = false;
    flush_requested = false;
    file = file;
    batch = [];
  })

  -- `Add`.
  unfoldable pub add : Bool → E → Buffer E → Buffer E
  add works e b =
      persist_to_disk works
        (record b { events = b.events ++ record { event = e; retries = 0 } ∷ [] })

  -- The entry of `Flush`: a running flush is asked for another round, else the first batch is taken.
  unfoldable pub flush : Buffer E → Buffer E
  flush b =
      if b.flushing
      then record b { flush_requested = true }
      else record b { flushing = true; flush_requested = false; batch = b.events }

  -- The loop of `flushBatch`; `sender` answers whether the event went out.
  unfoldable pub send_batch : ℕ → (E → Bool) → List (BufferedEvent E) → Sent E
  send_batch max sender [] = record { failed = []; delivered = []; discarded = [] }
  send_batch max sender (b ∷ bs) =
      let rest = send_batch max sender bs in
      if leb max b.retries
      then record rest { discarded = b.event ∷ rest.discarded }
      else (if sender b.event
          then record rest { delivered = b.event ∷ rest.delivered }
          else record rest { failed = record b { retries = b.retries + 1 } ∷ rest.failed })

  -- The end of `flushBatch`: the failed ones, then what was added meanwhile. An empty batch has
  -- returned before.
  unfoldable pub commit_batch : Bool → Sent E → Buffer E → Buffer E
  commit_batch works sent b =
      if is_empty b.batch
      then b
      else persist_to_disk works
          (record b { events = sent.failed ++ drop (length b.batch) b.events })

  -- The test of the loop in `Flush`: one more round, or done.
  unfoldable pub next_round : Buffer E → Buffer E
  next_round b =
      if not b.flush_requested || is_empty b.events
      then record b { flushing = false; batch = [] }
      else record b { flush_requested = false; batch = b.events }

  unfoldable pub finish_batch : Bool → (E → Bool) → Buffer E → Buffer E × Sent E
  finish_batch works sender b =
      let sent = send_batch b.max_retries sender b.batch in
      (next_round (commit_batch works sent b), sent)

  -- `Count`.
  unfoldable pub count : Buffer E → ℕ
  count b = length b.events

-- The wait after a failure, in nanoseconds: `time.Duration(1<<uint(retries-1)) * time.Second`, cut to
-- 30 seconds; a product that wraps to a negative number is no wait at all.
abbrev pub second : ℕ
second = 1_000_000_000

unfoldable pub backoff : ℕ → ℕ
backoff retries =
    let wrapped = 2 ^ (retries - 1) % 2 ^ 64 * second % 2 ^ 64 in
    if leb (2 ^ 63) wrapped then 0 else (if ltb (30 * second) wrapped then 30 * second else wrapped)
