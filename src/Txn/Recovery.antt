-- ===== src/Txn/Recovery.antt =====
-- `Manager.RecoverOnBoot` of internal/txn/manager.go and the functions that it calls.
use radio_gaga.Common.{Bool, true, false, not, Option, none, some, if◌then◌else◌, str_eq, ◌==◌}
use radio_gaga.Txn.Disk.{
  State, Pending, File, Part, cfg_part, bin_part, FilePath, live, staging, lkg,
}
use radio_gaga.Txn.Calls.{
  Error, M, Done, pure, raise, ◌>>=◌, ◌>>◌, catch, present, stat, discard, rename,
  read_pending_file, remove_pending_file,
}
use radio_gaga.Txn.Manager.{Manager, swaps_config, swaps_binary, only_if}

-- `rollbackOne`: a snapshot is moved back; with no live file at the start both names are removed.
unfoldable pub rollback_one : Part → Bool → M Done
rollback_one p true = discard (staging p) >> discard (live p)
rollback_one p false = do
  found ← catch (stat (lkg p)) (λ _. pure none)
  only_if (present found) (rename (lkg p) (live p) Error.rename_failed)
  discard (staging p)

-- `os.SameFile`, where both files could be read.
abbrev pub same_file : Option File → Option File → Bool
same_file (some f) (some g) = f.inode == g.inode
same_file _ _ = false

-- The installation that is undone: the live file goes only if it is the staged one.
unfoldable pub rollback_install : M Done
rollback_install = do
  staged ← catch (stat (staging cfg_part)) (λ _. pure none)
  found ← catch (stat (live cfg_part)) (λ _. pure none)
  only_if (same_file staged found) (discard (live cfg_part))
  discard (staging cfg_part)

abbrev pub rollback_config : Pending → M Done
rollback_config p =
    if p.config_install_only then rollback_install else rollback_one cfg_part p.no_prior_live_config

-- `cleanOrphans`: the files that are found are removed.
unfoldable pub clean_orphan : FilePath → M Done
clean_orphan p = do found ← catch (stat p) (λ _. pure none); only_if (present found) (discard p)

unfoldable pub clean_orphans : Manager → M Done
clean_orphans m = do
  only_if (not (str_eq m.live_config_path ""))
      (clean_orphan (staging cfg_part) >> clean_orphan (lkg cfg_part))
  only_if (not (str_eq m.live_binary_path ""))
      (clean_orphan (staging bin_part) >> clean_orphan (lkg bin_part))

unfoldable pub clean_committed : Pending → M Done
clean_committed p = do
  only_if (swaps_config p.kind) (discard (lkg cfg_part) >> discard (staging cfg_part))
  only_if (swaps_binary p.kind) (discard (lkg bin_part) >> discard (staging bin_part))
  remove_pending_file

unfoldable pub roll_back : Pending → M Done
roll_back p = do
  only_if (swaps_config p.kind) (rollback_config p)
  only_if (swaps_binary p.kind) (rollback_one bin_part p.no_prior_live_binary)
  remove_pending_file

-- The `switch` on the marker's state.
unfoldable pub reconcile : State → Pending → M Done
reconcile State.committed p = clean_committed p
reconcile State.inflight p = roll_back p
reconcile (State.unknown s) p = raise (Error.unknown_state s p.txn_id)

unfoldable pub recover_on_boot : Manager → M Done
recover_on_boot m = do
  prior ← read_pending_file
  elim prior [ none ↦ clean_orphans m | some p ↦ reconcile p.state p ]
