-- ===== src/Handlers/SelfUpdate/History.antt =====
-- How long the history of internal/handlers/self_update_state.go gets.
use radio_gaga.Common.{
  ◌≤◌, inl, inr, String, List, [], ◌∷◌, ltb, length, length-append, Bool-cases, arith,
}
use radio_gaga.Handlers.SelfUpdate.{
  SelfUpdateResult, ResultsFile, missing, unreadable, entries, Around, Scan, found, other_identity,
  kept, trimmed, record_result, run_and_save, save_result, Save, saved, not_written, not_synced,
  after_scan, with_results, run_coordinated_self_update,
}
use radio_gaga.Handlers.SelfUpdate.Replay.{length-trimmed}

-- Runs one after another, with their requests and identities.
unfoldable pub runs : List (Around × String × String) → ResultsFile → ResultsFile
runs [] file = file
runs ((a, request, identity) ∷ as') file =
    runs as' (run_coordinated_self_update a request identity file).file

-- At most 64 results.
abbrev pub Short : ResultsFile → Type 0
Short missing = Unit
Short unreadable = Unit
Short (entries rs) = length rs ≤ 64

pub length-record_result :
    (a : Around) (request identity : String) (rs : List SelfUpdateResult)
    → length (record_result a request identity rs) ≤ 64
unfolding record_result
length-record_result a request identity rs = omega (
  arith,
  length-trimmed rs,
  length-append (trimmed rs)
      (record { request = request; identity = identity; error = _; finished = a.finished_at } ∷ []),
)

save_result-Short :
    (a : Around) (rs : List SelfUpdateResult) (file : ResultsFile) (s : Save)
    → length rs ≤ 64
    → Short file
    → Short (save_result a rs file s).file
save_result-Short a rs file saved l h = l
save_result-Short a rs file not_written l h = h
save_result-Short a rs file not_synced l h = l

run_and_save-Short :
    (a : Around) (request identity : String) (file : ResultsFile) (rs : List SelfUpdateResult)
    → Short file
    → Short (run_and_save a request identity file rs).file
unfolding run_and_save
run_and_save-Short a request identity file rs h = elim (Bool-cases a.over_after) [
  | inl e ↦ simp e h
  | inr e ↦
      simp e (save_result-Short a _ file a.save (length-record_result a request identity rs) h)
]

after_scan-Short :
    (a : Around) (request identity : String) (file : ResultsFile) (s : Scan)
    → Short file
    → Short (after_scan a request identity file s).file
after_scan-Short a request identity file (found r) h = h
after_scan-Short a request identity file other_identity h = h
after_scan-Short a request identity file (kept rs) h =
    run_and_save-Short a request identity file rs h

with_results-Short :
    (a : Around) (request identity : String) (file : ResultsFile)
    → Short file
    → Short (with_results a request identity file).file
with_results-Short a request identity missing h =
    run_and_save-Short a request identity missing [] tt
with_results-Short a request identity unreadable h = tt
with_results-Short a request identity (entries rs) h = elim (Bool-cases (ltb 64 (length rs))) [
  | inl e ↦ rw e h
  | inr e ↦ rw e (after_scan-Short a request identity (entries rs) _ h)
]

run-Short :
    (a : Around) (request identity : String) (file : ResultsFile)
    → Short file
    → Short (run_coordinated_self_update a request identity file).file
unfolding run_coordinated_self_update
run-Short a request identity file h = elim (Bool-cases a.over) [
  | inl e ↦ simp e h
  | inr e ↦ elim (Bool-cases a.directory_made) [
    | inr d ↦ simp (e, d) h
    | inl d ↦ elim (Bool-cases a.lock_taken) [
      | inr l ↦ simp (e, d, l) h
      | inl l ↦ simp (e, d, l) (with_results-Short a request identity file h)
    ]
  ]
]

-- Whatever runs come one after another, a file of results that is missing, unreadable or has at most 64
-- results is one of these again.
pub runs-Short :
    (as' : List (Around × String × String)) (file : ResultsFile)
    → Short file
    → Short (runs as' file)
unfolding runs
runs-Short [] file h = h
runs-Short ((a, request, identity) ∷ as') file h =
    runs-Short as' (run_coordinated_self_update a request identity file).file
      (run-Short a request identity file h)
