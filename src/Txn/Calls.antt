-- ===== src/Txn/Calls.antt =====
-- The system calls that internal/txn makes, with failures and crashes at each of them, and the file
-- operations of pending.go and manager.go that are built from them. A call that returns has its
-- effect on disk; the program may stop before any call.
use radio_gaga.Common.{
  ℕ, suc, String, Bool, true, false, List, [], ◌∷◌, Option, none, some, if◌then◌else◌,
}
use radio_gaga.Txn.Disk.{
  Disk, File, FilePath, Marker, absent, garbled, holds, Pending, State, read, write,
}

-- What the environment does at one system call.
pub data Fault : Type 0 where
  goes_on fails crashes : Fault

-- The faults to come (none are left: all calls succeed), and the next inode number.
pub record World : Type 0 where
  pub disk : Disk
  pub faults : List Fault
  pub fresh : ℕ

pub data Error : Type 0 where
  probe_required not_config_only existing_config lstat_failed : Error
  needs_config forbids_binary needs_config_path : Error
  needs_binary forbids_config needs_binary_path needs_both needs_both_paths : Error
  unknown_kind : String → Error
  read_pending parse_pending remove_leftover stat_live snapshot_failed : Error
  config_appeared stage_failed chmod_failed write_pending : Error
  commit_binary commit_config create_initial remove_failed rename_failed link_failed : Error
  copy_failed remove_pending : Error
  inflight_exists : String → State → Error
  unknown_state : String → String → Error
  probe_failed : String → Error

-- A run returns, returns an error, or stops with the disk as it is.
pub data Outcome (A : Type 0) : Type 0 where
  done : A → World → Outcome A
  failed : Error → World → Outcome A
  crashed : Disk → Outcome A

abbrev pub M : Type 0 → Type 0
M A = World → Outcome A

abbrev pub pure : {A : Type 0} → A → M A
pure a w = done a w

abbrev pub raise : {A : Type 0} → Error → M A
raise e w = failed e w

module _ {A B : Type 0} where
  abbrev pub and_then : Outcome A → (A → M B) → Outcome B
  and_then (done a w) f = f a w
  and_then (failed e w) f = failed e w
  and_then (crashed d) f = crashed d

  infixl 5 ◌>>=◌ ◌>>◌
  abbrev pub ◌>>=◌ : M A → (A → M B) → M B
  ◌>>=◌ m f w = and_then (m w) f

  abbrev pub ◌>>◌ : M A → M B → M B
  m >> n = m >>= λ _. n

module _ {A : Type 0} where
  abbrev pub recover_with : Outcome A → (Error → M A) → Outcome A
  recover_with (done a w) f = done a w
  recover_with (failed e w) f = f e w
  recover_with (crashed d) f = crashed d

  -- `if err != nil { ... }` behind a call.
  abbrev pub catch : M A → (Error → M A) → M A
  catch m f w = recover_with (m w) f

  -- One system call: `act` says what it returns and does, given a number for a new inode.
  abbrev pub answer : List Fault → (ℕ → Disk → A × Disk) → Error → ℕ → Disk → Outcome A
  answer [] act e n d = done (act n d).0 (record { disk = (act n d).1; faults = []; fresh = suc n })
  answer (goes_on ∷ r) act e n d =
      done (act n d).0 (record { disk = (act n d).1; faults = r; fresh = suc n })
  answer (fails ∷ r) act e n d = failed e (record { disk = d; faults = r; fresh = suc n })
  answer (crashes ∷ r) act e n d = crashed d

  unfoldable pub syscall : (ℕ → Disk → A × Disk) → Error → M A
  syscall act e w = answer w.faults act e w.fresh w.disk

abbrev pub Done : Type 0
Done = Unit {0}

-- `_ = f()`: the error is dropped.
abbrev pub ignore : M Done → M Done
ignore m = catch m (λ _. pure tt)

-- A call that can fail by what it finds on disk, too: `none` is a failure.
abbrev pub or_raise : {A : Type 0} → Error → Option A → M A
or_raise e none = raise e
or_raise e (some a) = pure a

-- `os.Stat` and `os.Lstat`: is the file there? The file itself is the answer.
unfoldable pub stat : FilePath → M (Option File)
stat p = syscall (λ n d. (read d p, d)) Error.lstat_failed

-- `os.Remove`; a missing file is told apart by `os.IsNotExist`, here the answer `false`.
abbrev pub present : Option File → Bool
present none = false
present (some _) = true

unfoldable pub remove : FilePath → M Bool
remove p = syscall (λ n d. (present (read d p), write d p none)) Error.remove_failed

-- `_ = os.Remove(path)`.
unfoldable pub discard : FilePath → M Done
unfolding remove
discard p = ignore (remove p >> pure tt)

-- `os.Rename`: nothing changes when the old name is missing.
abbrev pub rename_effect : FilePath → FilePath → Option File → Disk → Bool × Disk
rename_effect from to none d = (false, d)
rename_effect from to (some f) d = (true, write (write d from none) to (some f))

unfoldable pub rename : FilePath → FilePath → Error → M Done
rename from to e = do
  moved ← syscall (λ n d. rename_effect from to (read d from) d) e
  if moved then pure tt else raise e

-- `os.Link`: fails where the new name is taken.
abbrev pub link_effect : FilePath → Option File → Option File → Disk → Bool × Disk
link_effect to none _ d = (false, d)
link_effect to (some f) (some g) d = (false, d)
link_effect to (some f) none d = (true, write d to (some f))

unfoldable pub link : FilePath → FilePath → M Done
link from to = do
  linked ← syscall (λ n d. link_effect to (read d from) (read d to) d) link_failed
  if linked then pure tt else raise link_failed

-- `os.OpenFile(dst, O_WRONLY|O_CREATE|O_TRUNC, mode)`: an old file is emptied, else one is made.
abbrev pub truncated : ℕ → ℕ → Option File → File
truncated n mode none = record { inode = n; mode = mode; bytes = [] }
truncated n mode (some f) = record f { bytes = [] }

abbrev pub filled : List ℕ → Option File → Option File
filled b none = none
filled b (some f) = some (record f { bytes = b })

-- `copyFile`, from the opening of `dst`. The content of `src` does not change between the calls.
unfoldable pub copy_opened : File → FilePath → M Done
unfolding discard syscall
copy_opened source dst = do
  _ ← syscall (λ n d. (tt, d)) copy_failed
  _ ← syscall (λ n d. (tt, write d dst (some (truncated n source.mode (read d dst))))) copy_failed
  _ ←
      catch (syscall (λ n d. (tt, write d dst (filled source.bytes (read d dst)))) copy_failed)
        (λ e. discard dst >> raise e)
  _ ← catch (syscall (λ n d. (tt, d)) copy_failed) (λ e. discard dst >> raise e)
  syscall (λ n d. (tt, d)) copy_failed

unfoldable pub copy_file : FilePath → FilePath → M Done
unfolding stat copy_opened
copy_file src dst = do
  found ← catch (stat src) (λ _. raise copy_failed)
  source ← or_raise copy_failed found
  copy_opened source dst

-- `writeFileSync`: a new file under a temporary name, moved over `path`, then the directory is
-- synchronised. The calls on the temporary name change none of the seven files: one call for all.
unfoldable pub write_file_sync : FilePath → List ℕ → ℕ → M Done
unfolding syscall
write_file_sync path bytes mode = do
  _ ← syscall (λ n d. (tt, d)) stage_failed
  _ ←
      syscall (λ n d. (tt, write d path (some (record { inode = n; mode = mode; bytes = bytes }))))
        stage_failed
  syscall (λ n d. (tt, d)) stage_failed

-- `os.Chmod`.
abbrev pub chmod_effect : FilePath → ℕ → Option File → Disk → Bool × Disk
chmod_effect path mode none d = (false, d)
chmod_effect path mode (some f) d = (true, write d path (some (record f { mode = mode })))

unfoldable pub chmod : FilePath → ℕ → M Done
unfolding syscall
chmod path mode = do
  changed ← syscall (λ n d. chmod_effect path mode (read d path) d) chmod_failed
  if changed then pure tt else raise chmod_failed

-- `readPending`: `none` where there is no marker, an error where it cannot be read or parsed.
abbrev pub parse_marker : Marker → M (Option Pending)
parse_marker absent = pure none
parse_marker garbled = raise parse_pending
parse_marker (holds p) = pure (some p)

unfoldable pub read_pending_file : M (Option Pending)
unfolding syscall
read_pending_file = do found ← syscall (λ n d. (d.marker, d)) read_pending; parse_marker found

-- `writePending`: the temporary file, then the rename over the marker.
unfoldable pub write_pending_file : Pending → M Done
unfolding syscall
write_pending_file p = do
  _ ← syscall (λ n d. (tt, d)) write_pending
  syscall (λ n d. (tt, record d { marker = holds p })) write_pending

-- `removePending`: a missing marker is no error.
unfoldable pub remove_pending_file : M Done
unfolding syscall
remove_pending_file = syscall (λ n d. (tt, record d { marker = absent })) remove_pending
