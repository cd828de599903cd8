-- ===== src/Handlers/SelfUpdate/Replay.antt =====
-- A request that comes again, to internal/handlers/self_update_state.go.
use radio_gaga.Common.{
  ℕ, zero, suc, ◌+◌, ◌-◌, ◌≤◌, ◌≡◌, inl, inr, refl, Bool, true, false, String, str_eq, List, [],
  ◌∷◌, ltb, leb, length, drop, length-drop, All, Bool-cases, arith,
}
use radio_gaga.Handlers.SelfUpdate.{
  cache_ttl, SelfUpdateResult, ResultsFile, missing, unreadable, entries, Around, Scan, found,
  other_identity, kept, keep, scan, trimmed, record_result, run_and_save, save_result, Save, saved,
  not_written, not_synced, after_scan, with_results, run_coordinated_self_update,
}

abbrev pub Other : String → SelfUpdateResult → Type 0
Other request r = str_eq r.request request ≡ false

abbrev of_scan : Scan → List SelfUpdateResult
of_scan (kept rs) = rs
of_scan (found r) = []
of_scan other_identity = []

keep-Other :
    (request : String) (r : SelfUpdateResult) (s : Scan)
    → Other request r
    → All (Other request) (of_scan s)
    → All (Other request) (of_scan (keep r s))
keep-Other request r (kept rs) h hs = (h, hs)
keep-Other request r (found q) h hs = tt
keep-Other request r other_identity h hs = tt

scan-Other :
    (now : ℕ) (request identity : String) (rs : List SelfUpdateResult)
    → All (Other request) (of_scan (scan now request identity rs))
unfolding scan
scan-Other now request identity [] = tt
scan-Other now request identity (r ∷ rs) = elim (Bool-cases (ltb cache_ttl (now - r.finished))) [
  | inl old ↦ rw old (scan-Other now request identity rs)
  | inr fresh ↦ elim (Bool-cases (str_eq r.request request)) [
    | inr other ↦
        rw (fresh, other) (keep-Other request r _ other (scan-Other now request identity rs))
    | inl same ↦ elim (Bool-cases (str_eq r.identity identity)) [
      | inl i ↦ rw (fresh, same, i) tt
      | inr i ↦ rw (fresh, same, i) tt
    ]
  ]
]

pub drop-Other :
    (request : String) (n : ℕ) (rs : List SelfUpdateResult)
    → All (Other request) rs
    → All (Other request) (drop n rs)
drop-Other request zero rs h = h
drop-Other request (suc n) [] h = tt
drop-Other request (suc n) (r ∷ rs) h = drop-Other request n rs h.1

pub trimmed-Other :
    (request : String) (rs : List SelfUpdateResult)
    → All (Other request) rs
    → All (Other request) (trimmed rs)
unfolding trimmed
trimmed-Other request rs h = elim (Bool-cases (leb 64 (length rs))) [
  | inl e ↦ rw e (drop-Other request (length rs - 63) rs h)
  | inr e ↦ rw e h
]

below : (n : ℕ) → leb 64 n ≡ false → n ≤ 63
below n h = ground (arith, h)

pub expired : (now t : ℕ) → now ≤ t + cache_ttl → ltb cache_ttl (now - t) ≡ false
expired now t h = ground (arith, h)

pub length-trimmed : (rs : List SelfUpdateResult) → length (trimmed rs) ≤ 63
unfolding trimmed
length-trimmed rs = elim (Bool-cases (leb 64 (length rs))) [
  | inl e ↦ rw e (omega (arith, length-drop (length rs - 63) rs))
  | inr e ↦ rw e (below (length rs) e)
]

-- The results are replaced, whether the directory syncs or not.
abbrev pub writes : Save → Bool
writes saved = true
writes not_written = false
writes not_synced = true

-- A run that is neither cut off nor fails to write leaves its result behind others' results.
abbrev pub Left : Around → String → String → ResultsFile → Type 0
Left a request identity file =
    (rs : List SelfUpdateResult) × (file ≡ entries (record_result a request identity rs))
    × All (Other request) rs

save_result-Left :
    (a : Around) (request identity : String) (file : ResultsFile) (rs : List SelfUpdateResult)
    (s : Save)
    → writes s ≡ true
    → All (Other request) rs
    → Left a request identity (save_result a (record_result a request identity rs) file s).file
save_result-Left a request identity file rs saved w o = (rs, refl, o)
save_result-Left a request identity file rs not_written w o = cc
save_result-Left a request identity file rs not_synced w o = (rs, refl, o)

run_and_save-Left :
    (a : Around) (request identity : String) (file : ResultsFile) (rs : List SelfUpdateResult)
    → a.over_after ≡ false
    → writes a.save ≡ true
    → All (Other request) rs
    → Left a request identity (run_and_save a request identity file rs).file
unfolding run_and_save
run_and_save-Left a request identity file rs h w o =
    simp h (save_result-Left a request identity file rs a.save w o)

after_scan-Left :
    (a : Around) (request identity : String) (file : ResultsFile) (s : Scan)
    → a.over_after ≡ false
    → writes a.save ≡ true
    → All (Other request) (of_scan s)
    → (after_scan a request identity file s).ran ≡ true
    → Left a request identity (after_scan a request identity file s).file
after_scan-Left a request identity file (kept rs) h w o r =
    run_and_save-Left a request identity file rs h w o
after_scan-Left a request identity file (found q) h w o r = cc
after_scan-Left a request identity file other_identity h w o r = cc

with_results-Left :
    (a : Around) (request identity : String) (file : ResultsFile)
    → a.over_after ≡ false
    → writes a.save ≡ true
    → (with_results a request identity file).ran ≡ true
    → Left a request identity (with_results a request identity file).file
with_results-Left a request identity missing h w r =
    run_and_save-Left a request identity missing [] h w tt
with_results-Left a request identity unreadable h w r = cc
with_results-Left a request identity (entries rs) h w r = elim (Bool-cases (ltb 64 (length rs))) [
  | inl e ↦ let r' = rw e at r in cc
  | inr e ↦ rw e (
      after_scan-Left a request identity (entries rs) (scan a.now request identity rs) h w
        (scan-Other a.now request identity rs) (rw e at r))
]

pub run-Left :
    (a : Around) (request identity : String) (file : ResultsFile)
    → a.over_after ≡ false
    → writes a.save ≡ true
    → (run_coordinated_self_update a request identity file).ran ≡ true
    → Left a request identity (run_coordinated_self_update a request identity file).file
unfolding run_coordinated_self_update
run-Left a request identity file h w r = elim (Bool-cases a.over) [
  | inl e ↦ let r' = simp e at r in cc
  | inr e ↦ elim (Bool-cases a.directory_made) [
    | inr d ↦ let r' = simp (e, d) at r in cc
    | inl d ↦ elim (Bool-cases a.lock_taken) [
      | inr l ↦ let r' = simp (e, d, l) at r in cc
      | inl l ↦ simp (e, d, l) (with_results-Left a request identity file h w (simp (e, d, l) at r))
    ]
  ]
]
