-- ===== src/Handlers/SelfUpdate.antt =====
-- internal/handlers/self_update_state.go: a self-update runs once for a request, and its result is replayed
-- when the request comes again. Times are seconds; a text of an error is the list of its bytes. The
-- digest of a request ID is a parameter, like the update itself.
mod Held
mod Between
mod Replay
mod History
mod Waiting
mod Examples
use radio_gaga.Common.{
  ◌>>=◌, ◌&&◌, ◌||◌, ◌+◌, ◌==◌, zero, suc, ℤ, pos, negsuc, ℕ, ◌-◌, ◌*◌, ◌/◌, ◌%◌, ◌^◌, ◌≤◌, ◌<◌,
  ◌≡◌, ◌≢◌, ◌↔◌, ◌⊎◌, inl, inr, refl, sym, ap, subst, ◌∙◌, Bool, true, false, not, String, str_eq,
  str_eq_iff, str_eq_differs, str_append, starts_with, List, [], ◌∷◌, ◌++◌, map, Option, none, some,
  if◌then◌else◌, if-true, ltb, leb, ==_iff, or_else, get, lookup, insert, delete, lookup-insert,
  length-insert, insert-All, member, length, take, drop, length-append, length-drop,
  drop-append_length, is_empty, any, All, All-append, All-iff, Bool-cases, Option-cases, is_some,
  at_most, at_least, codes, parse_int, arith,
}

-- `selfUpdateCacheTTL`, in seconds.
abbrev pub cache_ttl : ℕ
cache_ttl = 7 * 24 * 60 * 60

abbrev pub ErrorText : Type 0
ErrorText = List ℕ

pub record SelfUpdateResult : Type 0 where
  pub request : String
  pub identity : String
  pub error : ErrorText
  pub finished : ℕ

-- `results.json`.
pub data ResultsFile : Type 0 where
  missing : ResultsFile
  unreadable : ResultsFile
  entries : List SelfUpdateResult → ResultsFile

pub data UpdateError : Type 0 where
  cancelled : UpdateError
  no_directory : UpdateError
  locked : UpdateError
  unreadable_results : UpdateError
  too_many_results : UpdateError
  reused_request : UpdateError
  in_progress : UpdateError
  replayed : ErrorText → UpdateError
  update_failed : ErrorText → UpdateError
  not_saved : UpdateError

-- How the write of the results ends; behind the rename, the directory may still fail to sync.
pub data Save : Type 0 where
  saved : Save
  not_written : Save
  not_synced : Save

-- What the calls around one run do: whether the context is over at the start and behind the update, the
-- directory and the lock, the write of the results, the update itself, and the clock.
pub record Around : Type 0 where
  pub over : Bool
  pub directory_made : Bool
  pub lock_taken : Bool
  pub now : ℕ
  pub run : Option ErrorText
  pub over_after : Bool
  pub finished_at : ℕ
  pub save : Save

-- What a run leaves: the results, whether the update ran, and the error.
pub record Ran : Type 0 where
  pub file : ResultsFile
  pub ran : Bool
  pub answer : Option UpdateError

pub data Scan : Type 0 where
  found : SelfUpdateResult → Scan
  other_identity : Scan
  kept : List SelfUpdateResult → Scan

abbrev pub keep : SelfUpdateResult → Scan → Scan
keep r (kept rs) = kept (r ∷ rs)
keep r (found q) = found q
keep r other_identity = other_identity

-- The loop over the results.
unfoldable pub scan : ℕ → String → String → List SelfUpdateResult → Scan
scan now request identity [] = kept []
scan now request identity (r ∷ rs) =
    let rest = scan now request identity rs in
    if ltb cache_ttl (now - r.finished)
    then rest
    else (if str_eq r.request request
        then (if str_eq r.identity identity then found r else other_identity)
        else keep r rest)

abbrev pub answer_of : ErrorText → Option UpdateError
answer_of [] = none
answer_of (c ∷ cs) = some (replayed (c ∷ cs))

abbrev pub message_of : Option ErrorText → ErrorText
message_of none = []
message_of (some e) = take 512 e

-- The newest results, with room for one.
unfoldable pub trimmed : List SelfUpdateResult → List SelfUpdateResult
trimmed rs = if leb 64 (length rs) then drop (length rs - 63) rs else rs

abbrev pub failed_with : Option ErrorText → Option UpdateError
failed_with none = none
failed_with (some e) = some (update_failed e)

unfoldable pub record_result :
    Around → String → String → List SelfUpdateResult → List SelfUpdateResult
record_result a request identity rs =
    trimmed rs
    ++ record {
      request = request;
      identity = identity;
      error = message_of a.run;
      finished = a.finished_at;
    }
      ∷ []

abbrev pub save_result : Around → List SelfUpdateResult → ResultsFile → Save → Ran
save_result a rs file saved = record { file = entries rs; ran = true; answer = failed_with a.run }
save_result a rs file not_written = record { file = file; ran = true; answer = some not_saved }
save_result a rs file not_synced = record { file = entries rs; ran = true; answer = some not_saved }

-- From the run on.
unfoldable pub run_and_save : Around → String → String → ResultsFile → List SelfUpdateResult → Ran
run_and_save a request identity file rs =
    if a.over_after
    then record { file = file; ran = true; answer = some cancelled }
    else save_result a (record_result a request identity rs) file a.save

abbrev pub after_scan : Around → String → String → ResultsFile → Scan → Ran
after_scan a request identity file (found r) = record {
  file = file;
  ran = false;
  answer = answer_of r.error;
}
after_scan a request identity file other_identity = record {
  file = file;
  ran = false;
  answer = some reused_request;
}
after_scan a request identity file (kept rs) = run_and_save a request identity file rs

abbrev pub with_results : Around → String → String → ResultsFile → Ran
with_results a request identity missing = run_and_save a request identity missing []
with_results a request identity unreadable = record {
  file = unreadable;
  ran = false;
  answer = some unreadable_results;
}
with_results a request identity (entries rs) =
    if ltb 64 (length rs)
    then record { file = entries rs; ran = false; answer = some too_many_results }
    else after_scan a request identity (entries rs) (scan a.now request identity rs)

abbrev pub refused : ResultsFile → UpdateError → Ran
refused file e = record { file = file; ran = false; answer = some e }

unfoldable pub run_coordinated_self_update : Around → String → String → ResultsFile → Ran
run_coordinated_self_update a request identity file =
    if a.over
    then refused file cancelled
    else (if not a.directory_made
        then refused file no_directory
        else (if not a.lock_taken
            then refused file locked
            else with_results a request identity file))

-- The request of a command, and the key of its flight.
abbrev pub request_of : (String → String) → String → String → String
request_of digest id identity = if str_eq id "" then str_append "anonymous-" identity else digest id

-- The key of a flight: the request and the identity, in one directory.
abbrev pub Key : Type 0
Key = String × String

abbrev pub same_key : Key → Key → Bool
same_key (r, i) (s, j) = str_eq r s && str_eq i j

-- The flight in progress, and how many commands wait for its end.
pub record Flight : Type 0 where
  pub key : Key
  pub waiting : ℕ

-- What `coordinatedSelfUpdate` does at its start: it begins a flight, waits for the one with the same key,
-- or is refused.
pub data Arrival : Type 0 where
  begins : Arrival
  waits : Arrival
  turned_away : UpdateError → Arrival

unfoldable pub arrive : Key → Option Flight → Option Flight × Arrival
arrive k none = (some (record { key = k; waiting = 0 }), begins)
arrive k (some f) =
    if same_key f.key k
    then (some (record f { waiting = f.waiting + 1 }), waits)
    else (some f, turned_away in_progress)

-- A context that is over while its command waits.
unfoldable pub give_up : Option Flight → Option Flight × List (Option UpdateError)
give_up none = (none, [])
give_up (some f) =
    if f.waiting == 0
    then (some f, [])
    else (some (record f { waiting = f.waiting - 1 }), some cancelled ∷ [])

abbrev pub same_answers : ℕ → Option UpdateError → List (Option UpdateError)
same_answers zero e = []
same_answers (suc n) e = e ∷ same_answers n e

-- The deferred function: the command of the flight and all that wait get the result.
unfoldable pub land : Option UpdateError → Option Flight → Option Flight × List (Option UpdateError)
land e none = (none, [])
land e (some f) = (none, same_answers (suc f.waiting) e)

abbrev pub second : ℕ
second = 1000000000

-- A duration of the download policy, in nanoseconds, as `utils.ParseDuration` reads it.
unfoldable pub policy_duration : Option ℤ → ℕ → Option ℕ
policy_duration none max = none
policy_duration (some (negsuc n)) max = none
policy_duration (some (pos n)) max = if ltb n second || ltb max n then none else some n

-- `selfUpdateDownloadPolicy`: the budget and the stall timeout.
unfoldable pub self_update_download_policy : Option ℤ → Option ℤ → Option (ℕ × ℕ)
self_update_download_policy budget stall = do
  b ← policy_duration budget (24 * 60 * 60 * second)
  s ← policy_duration stall (30 * 60 * second)
  some (b, s)

-- `selfUpdateStateDir`; `filepath.Join` and `filepath.Dir` are parameters.
unfoldable pub self_update_state_dir :
    (String → String → String) → (String → String) → String → String → Option String
self_update_state_dir join dir state_dir config_path =
    if not (str_eq state_dir "")
    then some (join state_dir "self-update")
    else (if str_eq config_path "" then none else some (join (dir config_path) ".self-update"))
