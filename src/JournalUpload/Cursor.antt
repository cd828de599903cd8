-- ===== src/JournalUpload/Cursor.antt =====
-- How far the cursor of internal/journalupload/manager.go may be.
use radio_gaga.Common.{
  ℕ, ◌≡◌, ◌⊎◌, inl, inr, refl, sym, ap, subst, ◌∙◌, Bool, true, false, not, ◌||◌, String, str_eq,
  List, [], ◌∷◌, ◌++◌, Option, none, some, if◌then◌else◌, is_empty, Bool-cases,
}
use mathlib.Core.List.{append_assoc, append-nil}
use radio_gaga.JournalUpload.{
  Entry, Tail, Upload, accepted, session_invalid, failed, Calls, clear, write_cursor, Step, uploads,
  flush, Round, context_over, next_fails, nothing_new, entry_fails, next_entry, add_entry,
  flush_when, round, entry_of, run, start,
}

abbrev pub texts_of : List Entry → List String
texts_of [] = []
texts_of (e ∷ es) = e.encoded ∷ texts_of es

-- The cursor of the last entry that has one.
abbrev pub cursor_after : String → List Entry → String
cursor_after c [] = c
cursor_after c (e ∷ es) = cursor_after (if str_eq e.cursor "" then c else e.cursor) es

-- What a step does to the buffer and the file, where `t` is the state with the entry of the round added.
abbrev Moves : Tail → Step → Type 0
Moves t s =
    (s.uploaded ++ s.tail.buf ≡ t.buf)
    × (s.tail.last_cursor ≡ t.last_cursor)
    × ((s.tail.cursor_file ≡ t.cursor_file)
        ⊎ ((s.tail.cursor_file ≡ none)
            ⊎ ((s.tail.cursor_file ≡ some t.last_cursor) × (s.tail.buf ≡ []))))

uploads-Moves : (c : Calls) (t : Tail) (u : Upload) → Moves t (uploads c t u)
unfolding clear write_cursor
uploads-Moves c t accepted = elim (Bool-cases (str_eq t.last_cursor "" || not c.writes_cursor)) [
  | inl e ↦ simp e (append-nil t.buf, refl, inl refl)
  | inr e ↦ simp e (append-nil t.buf, refl, inr (inr (refl, refl)))
]
uploads-Moves c t session_invalid = elim (Bool-cases c.removes_cursor) [
  | inl e ↦ simp e (refl, refl, inr (inl refl))
  | inr e ↦ simp e (refl, refl, inl refl)
]
uploads-Moves c t failed = (refl, refl, inl refl)

flush-Moves : (c : Calls) (t : Tail) → Moves t (flush c t)
unfolding flush
flush-Moves c t = elim (Bool-cases (is_empty t.buf)) [
  | inl e ↦ simp e (refl, refl, inl refl)
  | inr e ↦ simp e (uploads-Moves c t c.upload)
]

flush_when-Moves : (due : Bool) (c : Calls) (t : Tail) → Moves t (flush_when due c t)
flush_when-Moves true c t = flush-Moves c t
flush_when-Moves false c t = (refl, refl, inl refl)

abbrev with_entries : List Entry → Tail → Tail
with_entries [] t = t
with_entries (e ∷ es) t = add_entry e t

round-Moves : (kb : ℕ) (r : Round) (t : Tail) → Moves (with_entries (entry_of r) t) (round kb r t)
unfolding round
round-Moves kb (context_over c) t = flush-Moves c t
round-Moves kb next_fails t = (refl, refl, inl refl)
round-Moves kb (nothing_new due c) t = flush_when-Moves due c t
round-Moves kb entry_fails t = (refl, refl, inl refl)
round-Moves kb (next_entry e due c) t = flush_when-Moves _ c (add_entry e t)

entries_lem :
    (r : Round) (t : Tail)
    → ((with_entries (entry_of r) t).buf ≡ t.buf ++ texts_of (entry_of r))
      × ((with_entries (entry_of r) t).last_cursor ≡ cursor_after t.last_cursor (entry_of r))
      × ((with_entries (entry_of r) t).cursor_file ≡ t.cursor_file)
entries_lem (context_over c) t = (sym (append-nil t.buf), refl, refl)
entries_lem next_fails t = (sym (append-nil t.buf), refl, refl)
entries_lem (nothing_new due c) t = (sym (append-nil t.buf), refl, refl)
entries_lem entry_fails t = (sym (append-nil t.buf), refl, refl)
entries_lem (next_entry e due c) t = (refl, refl, refl)

texts_of-append : (xs ys : List Entry) → texts_of (xs ++ ys) ≡ texts_of xs ++ texts_of ys
texts_of-append [] ys = refl
texts_of-append (e ∷ xs) ys = ap (λ ts. e.encoded ∷ ts) (texts_of-append xs ys)

cursor_after-append :
    (c : String) (xs ys : List Entry)
    → cursor_after c (xs ++ ys) ≡ cursor_after (cursor_after c xs) ys
cursor_after-append c [] ys = refl
cursor_after-append c (e ∷ xs) ys =
    cursor_after-append (if str_eq e.cursor "" then c else e.cursor) xs ys

-- The cursor file is as before, or gone, or at an entry that was read: up to it, what the buffer
-- had and what was read has been accepted.
abbrev pub Covers : Tail → Option String → List Entry → List String → Type 0
Covers t file read sent =
    (file ≡ t.cursor_file)
    ⊎ ((file ≡ none)
        ⊎ ((done : List Entry) × (rest : List Entry) × (more : List String) × (read ≡ done ++ rest)
            × (file ≡ some (cursor_after t.last_cursor done))
            × (sent ≡ (t.buf ++ texts_of done) ++ more)))

-- A round, whether the entries behind it and what they send follow or not.
step-Covers :
    (kb : ℕ) (r : Round) (t : Tail) (read : List Entry) (sent : List String)
    → Covers t
        (round kb r t).tail.cursor_file
        (entry_of r ++ read)
        ((round kb r t).uploaded ++ sent)
step-Covers kb r t read sent =
    let s : Step = round kb r t in
    let (kept, cursor, file) = round-Moves kb r t in
    let (buf, last, same) = entries_lem r t in
    elim file [
      | inl unchanged ↦ inl (unchanged ∙ same)
      | inr (inl no_file) ↦ inr (inl no_file)
      | inr (inr (at_last, empty)) ↦ inr (
          inr (
            entry_of r,
            read,
            sent,
            refl,
            at_last ∙ ap some last,
            ap (λ xs. xs ++ sent)
                (sym (append-nil s.uploaded)
                  ∙ (ap (λ b. s.uploaded ++ b) (sym empty) ∙ (kept ∙ buf))),
          ))
    ]

step-Covers_alone :
    (kb : ℕ) (r : Round) (t : Tail)
    → Covers t (round kb r t).tail.cursor_file (entry_of r) (round kb r t).uploaded
step-Covers_alone kb r t =
    subst (λ es. Covers t (round kb r t).tail.cursor_file es (round kb r t).uploaded)
      (append-nil (entry_of r))
      (subst (λ xs. Covers t (round kb r t).tail.cursor_file (entry_of r ++ []) xs)
        (append-nil (round kb r t).uploaded) (step-Covers kb r t [] []))

kept_lem :
    (kb : ℕ) (r : Round) (t : Tail)
    → (round kb r t).uploaded ++ (round kb r t).tail.buf ≡ t.buf ++ texts_of (entry_of r)
kept_lem kb r t = (round-Moves kb r t).0 ∙ (entries_lem r t).0

behind : (xs ys zs : List String) → xs ++ (ys ++ zs) ≡ (xs ++ ys) ++ zs
behind xs ys zs = sym (append_assoc xs ys zs)

joined :
    (xs : List String) (es fs : List Entry)
    → (xs ++ texts_of es) ++ texts_of fs ≡ xs ++ texts_of (es ++ fs)
joined xs es fs =
    append_assoc xs (texts_of es) (texts_of fs) ∙ ap (λ ts. xs ++ ts) (sym (texts_of-append es fs))

-- What holds behind a round holds from before it.
round-Covers :
    (kb : ℕ) (r : Round) (t : Tail) (file : Option String) (read : List Entry) (sent : List String)
    → Covers (round kb r t).tail file read sent
    → Covers t file (entry_of r ++ read) ((round kb r t).uploaded ++ sent)
round-Covers kb r t file read sent (inl same) =
    subst (λ f. Covers t f (entry_of r ++ read) ((round kb r t).uploaded ++ sent)) (sym same)
      (step-Covers kb r t read sent)
round-Covers kb r t file read sent (inr (inl no_file)) = inr (inl no_file)
round-Covers kb r t file read sent (inr (inr (done, rest, more, split, at, all))) =
    let s : Step = round kb r t in
    let es : List Entry = entry_of r in
    let last = (round-Moves kb r t).1 ∙ (entries_lem r t).1 in
    inr (
      inr (
        es ++ done,
        rest,
        more,
        ap (λ xs. es ++ xs) split ∙ sym (append_assoc es done rest),
        at
            ∙ ap some (
                ap (λ c. cursor_after c done) last
                ∙ sym (cursor_after-append t.last_cursor es done)),
        ap (λ xs. s.uploaded ++ xs) all
            ∙ (sym (append_assoc s.uploaded (s.tail.buf ++ texts_of done) more)
                ∙ ap (λ xs. xs ++ more)
                    (behind s.uploaded s.tail.buf (texts_of done)
                      ∙ (ap (λ xs. xs ++ texts_of done) (kept_lem kb r t) ∙ joined t.buf es done))),
      ))

run_lem :
    (kb : ℕ) (rs : List Round) (t : Tail)
    → ((run kb rs t).2 ++ (run kb rs t).0.buf ≡ t.buf ++ texts_of (run kb rs t).1)
      × Covers t (run kb rs t).0.cursor_file (run kb rs t).1 (run kb rs t).2
unfolding run
run_lem kb [] t = (sym (append-nil t.buf), inl refl)
run_lem kb (r ∷ rs) t =
    let s : Step = round kb r t in
    let (all, covers) = run_lem kb rs s.tail in
    let last = run kb rs s.tail in
    let all_kept =
      append_assoc s.uploaded last.2 last.0.buf
      ∙ (ap (λ xs. s.uploaded ++ xs) all
          ∙ (behind s.uploaded s.tail.buf (texts_of last.1)
              ∙ (ap (λ xs. xs ++ texts_of last.1) (kept_lem kb r t)
                  ∙ joined t.buf (entry_of r) last.1))) in
    elim (Bool-cases s.goes_on) [
      | inl e ↦ simp e (all_kept, round-Covers kb r t last.0.cursor_file last.1 last.2 covers)
      | inr e ↦ simp e (kept_lem kb r t, step-Covers_alone kb r t)
    ]

-- Whatever the journal, the server and the disk do: what the server accepted, with the buffer behind it,
-- is the warning and the encoded entries in the order in which they were read, none left out and none twice.
-- The stored cursor is the one at the start, or is gone, or is that of the last entry with
-- a cursor among the first entries that were read, and all of those have been accepted.
pub run-start :
    (kb : ℕ) (encode_message : String → String) (stored : Option String) (seeks knows : Bool)
    (rs : List Round)
    → ((run kb rs (start encode_message stored seeks knows)).2
          ++ (run kb rs (start encode_message stored seeks knows)).0.buf
        ≡ (start encode_message stored seeks knows).buf
          ++ texts_of (run kb rs (start encode_message stored seeks knows)).1)
      × Covers
          (start encode_message stored seeks knows)
          (run kb rs (start encode_message stored seeks knows)).0.cursor_file
          (run kb rs (start encode_message stored seeks knows)).1
          (run kb rs (start encode_message stored seeks knows)).2
run-start kb encode_message stored seeks knows rs =
    run_lem kb rs (start encode_message stored seeks knows)
