-- ===== src/JournalUpload.antt =====
-- internal/journalupload: the journal goes to the server in batches, and a file says how far it got.
-- internal/journalupload/manager.go with the files of internal/journalupload/state.go. A text is a list of
-- bytes; an encoded record is a parameter of its entry, since encoding into memory does not fail. What the
-- journal, the server and the disk do in a round is an argument, and so is whether a flush is due.
mod Cursor
mod Examples
use radio_gaga.Common.{
  ℕ, zero, suc, ◌+◌, ◌-◌, ◌*◌, ◌/◌, ◌%◌, ◌^◌, ◌≤◌, ◌<◌, ◌≡◌, ◌≢◌, ◌↔◌, ◌⊎◌, inl, inr, refl, sym, ap,
  subst, ◌∙◌, Bool, true, false, not, ◌&&◌, ◌||◌, String, str_eq, str_eq_iff, str_eq_differs,
  str_append, starts_with, List, [], ◌∷◌, ◌++◌, map, Option, none, some, if◌then◌else◌, if-true,
  ltb, leb, ◌==◌, ==_iff, or_else, get, lookup, insert, delete, lookup-insert, length-insert,
  insert-All, member, length, take, drop, length-append, length-drop, drop-append_length, is_empty,
  any, All, All-append, All-iff, Bool-cases, Option-cases, is_some, ℤ, pos, negsuc, at_most,
  at_least, codes, parse_int, arith,
}

pub record Entry : Type 0 where
  pub cursor : String
  pub encoded : String

-- `Run` between two rounds: the buffer, as its records, and the two files.
pub record Tail : Type 0 where
  pub buf : List String
  pub last_cursor : String
  pub cursor_file : Option String
  pub session_file : Bool

pub data Upload : Type 0 where
  accepted : Upload
  session_invalid : Upload
  failed : Upload

-- The calls of a flush: the upload, and whether a write of the cursor or a removal of a file works.
pub record Calls : Type 0 where
  pub upload : Upload
  pub writes_cursor : Bool
  pub removes_session : Bool
  pub removes_cursor : Bool

unfoldable pub clear : Calls → Tail → Tail
clear c t = record t {
  session_file = t.session_file && not c.removes_session;
  cursor_file = if c.removes_cursor then none else t.cursor_file;
}

unfoldable pub write_cursor : Calls → Tail → Tail
write_cursor c t =
    if str_eq t.last_cursor "" || not c.writes_cursor
    then t
    else record t { cursor_file = some t.last_cursor }

-- What a part of the loop leaves: the state, what the server accepted, and whether the loop goes on.
pub record Step : Type 0 where
  pub tail : Tail
  pub uploaded : List String
  pub goes_on : Bool

abbrev pub uploads : Calls → Tail → Upload → Step
uploads c t accepted = record {
  tail = record (write_cursor c t) { buf = [] };
  uploaded = t.buf;
  goes_on = true;
}
uploads c t session_invalid = record { tail = clear c t; uploaded = []; goes_on = false }
uploads c t failed = record { tail = t; uploaded = []; goes_on = true }

unfoldable pub flush : Calls → Tail → Step
flush c t =
    if is_empty t.buf
    then record { tail = t; uploaded = []; goes_on = true }
    else uploads c t c.upload

-- One round: the context is over, the journal fails, it has nothing new, an entry cannot be read, or there
-- is an entry. `due` is whether the time since the last flush is up.
pub data Round : Type 0 where
  context_over : Calls → Round
  next_fails : Round
  nothing_new : Bool → Calls → Round
  entry_fails : Round
  next_entry : Entry → Bool → Calls → Round

abbrev pub buffered : List String → ℕ
buffered [] = 0
buffered (s ∷ ss) = length (codes s) + buffered ss

abbrev pub add_entry : Entry → Tail → Tail
add_entry e t = record t {
  buf = t.buf ++ e.encoded ∷ [];
  last_cursor = if str_eq e.cursor "" then t.last_cursor else e.cursor;
}

abbrev pub flush_when : Bool → Calls → Tail → Step
flush_when true c t = flush c t
flush_when false c t = record { tail = t; uploaded = []; goes_on = true }

unfoldable pub round : ℕ → Round → Tail → Step
round batch_kb (context_over c) t = record (flush c t) { goes_on = false }
round batch_kb next_fails t = record { tail = t; uploaded = []; goes_on = false }
round batch_kb (nothing_new due c) t = flush_when due c t
round batch_kb entry_fails t = record { tail = t; uploaded = []; goes_on = true }
round batch_kb (next_entry e due c) t =
    flush_when (leb (batch_kb * 1024) (buffered (t.buf ++ e.encoded ∷ [])) || due) c (add_entry e t)

abbrev pub entry_of : Round → List Entry
entry_of (context_over c) = []
entry_of next_fails = []
entry_of (nothing_new due c) = []
entry_of entry_fails = []
entry_of (next_entry e due c) = e ∷ []

-- The loop: the state at its end, the entries that were read, and what the server accepted.
unfoldable pub run : ℕ → List Round → Tail → Tail × List Entry × List String
run batch_kb [] t = (t, [], [])
run batch_kb (r ∷ rs) t =
    let step = round batch_kb r t in
    let (last, read, uploaded) = run batch_kb rs step.tail in
    if step.goes_on
    then (last, entry_of r ++ read, step.uploaded ++ uploaded)
    else (step.tail, entry_of r, step.uploaded)

abbrev pub warning : String
warning = "radio-gaga: journal cursor unresolvable, resuming from current boot head"

abbrev pub unresolvable : Option String → Bool → Bool → Bool
unresolvable none seeks knows = false
unresolvable (some c) seeks knows = not (seeks && knows)

-- The start of `Run`, with a session: whether the reader seeks and knows the stored cursor; the encoded
-- record with the warning is a parameter.
unfoldable pub start : (String → String) → Option String → Bool → Bool → Tail
start encode_message stored seeks knows = record {
  buf = if unresolvable stored seeks knows then encode_message warning ∷ [] else [];
  last_cursor = "";
  cursor_file = stored;
  session_file = true;
}
