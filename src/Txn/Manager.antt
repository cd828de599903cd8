-- ===== src/Txn/Manager.antt =====
-- `Manager.Run` of internal/txn/manager.go and the functions that it calls. The paths of the manager
-- are only tested for being empty; the files that they name are the slots of `Disk`.
use radio_gaga.Common.{
  ℕ, String, Bool, true, false, not, ◌&&◌, ◌||◌, List, Option, none, some, if◌then◌else◌, str_eq,
  ◌==◌, is_empty,
}
use radio_gaga.Txn.Disk.{
  Disk, Kind, State, Pending, Candidate, Part, cfg_part, bin_part, FilePath, live, staging, lkg,
}
use radio_gaga.Txn.Calls.{
  Error, M, Done, pure, raise, ◌>>=◌, ◌>>◌, catch, syscall, ignore, present, stat, remove, discard,
  rename, link, copy_file, write_file_sync, chmod, read_pending_file, write_pending_file,
  remove_pending_file,
}

pub record Manager : Type 0 where
  pub live_config_path : String
  pub config_install_only : Bool
  pub config_mode : ℕ
  pub live_binary_path : String

-- What the probe is told: which binary to start and which configuration to feed it.
pub record ProbeInfo : Type 0 where
  pub kind : Kind
  pub binary_path : FilePath
  pub config_path : FilePath

-- `nil`, or a function that reads the disk and answers with an error or `none`.
abbrev pub ProbeFunc : Type 0
ProbeFunc = Option (ProbeInfo → Disk → Option String)

abbrev pub swaps_config : Kind → Bool
swaps_config Kind.config = true
swaps_config Kind.both = true
swaps_config _ = false

abbrev pub swaps_binary : Kind → Bool
swaps_binary Kind.binary = true
swaps_binary Kind.both = true
swaps_binary _ = false

abbrev pub when : Bool → Error → M Done
when b e = if b then raise e else pure tt

-- `validateKind`.
unfoldable pub validate_kind : Kind → Candidate → Manager → M Done
validate_kind Kind.config c m = do
  when (is_empty c.config) Error.needs_config
  when (not (is_empty c.binary)) Error.forbids_binary
  when (str_eq m.live_config_path "") Error.needs_config_path
validate_kind Kind.binary c m = do
  when (is_empty c.binary) Error.needs_binary
  when (not (is_empty c.config)) Error.forbids_config
  when (str_eq m.live_binary_path "") Error.needs_binary_path
validate_kind Kind.both c m = do
  when (is_empty c.config || is_empty c.binary) Error.needs_both
  when (str_eq m.live_config_path "" || str_eq m.live_binary_path "") Error.needs_both_paths
validate_kind (Kind.other k) c m = raise (Error.unknown_kind k)

-- `rollbackStaging` and `rollbackLkgs`.
abbrev pub only_if : Bool → M Done → M Done
only_if b m = if b then m else pure tt

unfoldable pub rollback_staging : Bool → Bool → M Done
rollback_staging swaps_cfg swaps_bin = do
  only_if swaps_cfg (discard (staging cfg_part))
  only_if swaps_bin (discard (staging bin_part))

unfoldable pub rollback_lkgs : Bool → Bool → M Done
rollback_lkgs swaps_cfg swaps_bin = do
  only_if swaps_cfg (discard (lkg cfg_part))
  only_if swaps_bin (discard (lkg bin_part))

-- `snapshotLkg`: `true` where there is no live file yet.
unfoldable pub snapshot_lkg : Part → M Bool
snapshot_lkg p = do
  found ← catch (stat (live p)) (λ _. raise Error.stat_live)
  if present found
      then catch (copy_file (live p) (lkg p)) (λ _. raise Error.snapshot_failed) >> pure false
      else pure true

-- The checks before anything is written: the probe, the kind, an installation's target, and that no
-- transaction is pending.
abbrev pub only_config : Kind → M Done
only_config Kind.config = pure tt
only_config _ = raise Error.not_config_only

unfoldable pub check_install : Manager → Kind → M Done
check_install m kind = only_if m.config_install_only (do
  only_config kind
  found ← catch (stat (live cfg_part)) (λ _. raise Error.lstat_failed)
  when (present found) Error.existing_config)

abbrev pub refuse_prior : Option Pending → M Done
refuse_prior none = pure tt
refuse_prior (some p) = raise (Error.inflight_exists p.txn_id p.state)

-- The loop over leftover staging and snapshot files.
unfoldable pub clear_leftover : FilePath → M Done
clear_leftover p = do
  found ← catch (stat p) (λ _. pure none)
  only_if (present found) (do
    removed ← catch (remove p) (λ _. raise Error.remove_leftover)
    when (not removed) Error.remove_leftover)

unfoldable pub clear_leftovers : Bool → Bool → M Done
clear_leftovers swaps_cfg swaps_bin = do
  only_if swaps_cfg (clear_leftover (staging cfg_part) >> clear_leftover (lkg cfg_part))
  only_if swaps_bin (clear_leftover (staging bin_part) >> clear_leftover (lkg bin_part))

-- Step 2: the snapshots, and for each part whether there was no live file.
unfoldable pub snapshot_config : Manager → M Bool
snapshot_config m = do
  fresh ← snapshot_lkg cfg_part
  only_if (m.config_install_only && not fresh)
      (discard (lkg cfg_part) >> raise Error.config_appeared)
  pure fresh

unfoldable pub snapshot_binary : Bool → Bool → M Bool
snapshot_binary swaps_cfg swaps_bin =
    catch (snapshot_lkg bin_part) (λ e. rollback_lkgs swaps_cfg swaps_bin >> raise e)

-- Step 3: the candidates under their staging names.
unfoldable pub stage_config : Manager → Bool → Bool → List ℕ → M Done
stage_config m swaps_cfg swaps_bin bytes =
    catch
      (write_file_sync (staging cfg_part) bytes
        (if m.config_mode == 0 then 0o644 else m.config_mode))
      (λ e. rollback_lkgs swaps_cfg swaps_bin >> raise e)

unfoldable pub stage_binary : Bool → Bool → List ℕ → M Done
stage_binary swaps_cfg swaps_bin bytes = do
  catch (write_file_sync (staging bin_part) bytes 0o755)
      (λ e. rollback_staging swaps_cfg false >> (rollback_lkgs swaps_cfg swaps_bin >> raise e))
  catch (chmod (staging bin_part) 0o755)
      (λ e. rollback_staging swaps_cfg swaps_bin >> (rollback_lkgs swaps_cfg swaps_bin >> raise e))

-- Step 4: the marker, in flight.
unfoldable pub mark_inflight : Bool → Bool → Pending → M Done
mark_inflight swaps_cfg swaps_bin pending =
    catch (write_pending_file pending)
      (λ e. rollback_staging swaps_cfg swaps_bin >> (rollback_lkgs swaps_cfg swaps_bin >> raise e))

-- `pickBinaryForProbe` and `pickConfigForProbe`.
abbrev pub pick_for_probe : Bool → Part → FilePath
pick_for_probe swapped p = if swapped then staging p else live p

-- Step 5: the verdict of the probe, which only reads; a failed probe is rolled back.
unfoldable pub run_probe : Bool → Bool → (Disk → Option String) → M Done
run_probe swaps_cfg swaps_bin verdict = do
  answer ←
      catch (syscall (λ n d. (verdict d, d)) (Error.probe_failed "deadline"))
        (λ _. pure (some "deadline"))
  elim answer [
    | none ↦ pure tt
    | some why ↦
        rollback_staging swaps_cfg swaps_bin
        >> (rollback_lkgs swaps_cfg swaps_bin
            >> (ignore remove_pending_file >> raise (Error.probe_failed why)))
  ]

-- Step 6a: the renames, binary first; an installation links instead, and never replaces a file.
unfoldable pub commit_config : Manager → Bool → M Done
commit_config m fresh =
    if m.config_install_only
    then when (not fresh) Error.config_appeared
      >> catch (link (staging cfg_part) (live cfg_part)) (λ e.
        discard (staging cfg_part) >> (ignore remove_pending_file >> raise Error.create_initial))
    else rename (staging cfg_part) (live cfg_part) Error.commit_config

unfoldable pub commit_renames : Manager → Bool → Bool → Bool → M Done
commit_renames m swaps_cfg swaps_bin fresh = do
  only_if swaps_bin (rename (staging bin_part) (live bin_part) Error.commit_binary)
  only_if swaps_cfg (commit_config m fresh)

-- Step 6c: what is left is removed; failures are logged only.
unfoldable pub clean_up : Manager → Bool → Bool → M Done
clean_up m swaps_cfg swaps_bin = do
  only_if m.config_install_only (discard (staging cfg_part))
  only_if swaps_cfg (discard (lkg cfg_part))
  only_if swaps_bin (discard (lkg bin_part))
  ignore remove_pending_file

-- What `Run` returns where it does not fail: `committed`, and the error beside it.
pub record Report : Type 0 where
  pub committed : Bool
  pub error : Option Error

-- Step 6b and 6c.
unfoldable pub finish : Manager → Bool → Bool → Pending → M Report
finish m swaps_cfg swaps_bin pending = do
  marked ←
      catch (write_pending_file (record pending { state = State.committed }) >> pure none)
        (λ e. pure (some e))
  elim marked [
    | some e ↦ pure (record { committed = true; error = some e })
    | none ↦ clean_up m swaps_cfg swaps_bin >> pure (record { committed = true; error = none })
  ]

-- Steps 4 to 6: what follows once the snapshots and the candidates stand.
unfoldable pub attempt : Manager → Bool → Bool → Pending → (Disk → Option String) → M Report
attempt m swaps_cfg swaps_bin pending verdict = do
  mark_inflight swaps_cfg swaps_bin pending
  run_probe swaps_cfg swaps_bin verdict
  commit_renames m swaps_cfg swaps_bin pending.no_prior_live_config
  finish m swaps_cfg swaps_bin pending

unfoldable pub prepare : Manager → Kind → Candidate → M (Bool × Bool)
prepare m kind c = do
  clear_leftovers (swaps_config kind) (swaps_binary kind)
  no_config ← if swaps_config kind then snapshot_config m else pure false
  no_binary ←
      if swaps_binary kind
      then snapshot_binary (swaps_config kind) (swaps_binary kind)
      else pure false
  only_if (swaps_config kind) (stage_config m (swaps_config kind) (swaps_binary kind) c.config)
  only_if (swaps_binary kind) (stage_binary (swaps_config kind) (swaps_binary kind) c.binary)
  pure (no_config, no_binary)

-- `Run`. The clock is read once, for the marker; `deadline` is the context's, or 0.
unfoldable pub run : Manager → String → Kind → Candidate → ProbeFunc → ℕ → ℕ → M Report
run m txn_id kind c none deadline now = raise Error.probe_required
run m txn_id kind c (some probe) deadline now = do
  validate_kind kind c m
  check_install m kind
  prior ← read_pending_file
  refuse_prior prior
  (no_config, no_binary) ← prepare m kind c
  attempt m (swaps_config kind) (swaps_binary kind)
      (record {
        txn_id = txn_id;
        kind = kind;
        state = State.inflight;
        started_at_unix = now;
        deadline_unix = deadline;
        config_install_only = m.config_install_only;
        no_prior_live_config = no_config;
        no_prior_live_binary = no_binary;
      })
      (probe (record {
        kind = kind;
        binary_path = pick_for_probe (swaps_binary kind) bin_part;
        config_path = pick_for_probe (swaps_config kind) cfg_part;
      }))
