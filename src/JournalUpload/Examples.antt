-- ===== src/JournalUpload/Examples.antt =====
-- Three entries, an upload that fails and one that works, and the theorem on the cursor at them.
use radio_gaga.Common.{◌≡◌, refl, true, false, String, str_append, List, [], ◌∷◌, ◌++◌, some}
use radio_gaga.JournalUpload.{
  Entry, Tail, accepted, failed, session_invalid, Upload, Calls, Round, next_entry, nothing_new,
  context_over, run, start, round, flush, write_cursor,
}
use radio_gaga.JournalUpload.Cursor.{Covers, texts_of, run-start}

abbrev calls : Upload → Calls
calls u = record { upload = u; writes_cursor = true; removes_session = true; removes_cursor = true }

abbrev entry : String → Entry
entry s = record { cursor = s; encoded = str_append "MESSAGE=" s }

abbrev begun : Tail
begun = start (λ m. m) (some "c") true false

abbrev rounds : List Round
rounds =
    next_entry (entry "a") true (calls failed)
    ∷ next_entry (entry "b") true (calls accepted)
    ∷ next_entry (entry "d") false (calls accepted)
    ∷ context_over (calls session_invalid)
    ∷ []

run-start_example :
    ((run 256 rounds begun).2 ++ (run 256 rounds begun).0.buf
      ≡ begun.buf ++ texts_of (run 256 rounds begun).1)
    × Covers begun
        (run 256 rounds begun).0.cursor_file
        (run 256 rounds begun).1
        (run 256 rounds begun).2
run-start_example = run-start 256 (λ m. m) (some "c") true false rounds

cursor_at_b :
    (run 256
      (nothing_new true (calls accepted) ∷ next_entry (entry "b") true (calls accepted) ∷ [])
      begun).0.cursor_file
    ≡ some "b"
unfolding run round flush write_cursor start
cursor_at_b = refl
