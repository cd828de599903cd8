-- ===== src/Txn/Examples.antt =====
-- A configuration that is replaced by another, on a disk with one file, and the theorems at it.
use radio_gaga.Common.{◌≡◌, refl, true, false, List, [], ◌∷◌, none, some, inl, inr}
use radio_gaga.Txn.Disk.{Disk, File, Slots, Kind, Candidate, Pending, State, absent, holds}
use radio_gaga.Txn.Calls.{World, Fault, goes_on, crashes}
use radio_gaga.Txn.Calls.{
  copy_file, copy_opened, write_file_sync, rename, read_pending_file, write_pending_file,
  remove_pending_file, syscall, stat, remove, discard,
}
use radio_gaga.Txn.Manager.{
  Manager, ProbeFunc, run, validate_kind, check_install, prepare, clear_leftovers, clear_leftover,
  snapshot_config, snapshot_lkg, stage_config, attempt, mark_inflight, run_probe, commit_renames,
  commit_config, finish, clean_up,
}
use radio_gaga.Txn.Recovery.{recover_on_boot}
use radio_gaga.Txn.Safety.{Version, Safe, OldSafe, NewSafe, Pre}
use radio_gaga.Txn.Hoare.{Ensures, any_fault, calmly}
use radio_gaga.Txn.RunSafety.{target, Reported}
use radio_gaga.Txn.Atomic.{
  run-Safe, recover_on_boot-OldSafe, recover_on_boot-NewSafe, reboots, disk_after, Promises,
  run-reboots_atomic,
}
use radio_gaga.Txn.Refusals.{run_pending_refused}

abbrev manager : Manager
manager = record {
  live_config_path = "/data/config.yaml";
  config_install_only = false;
  config_mode = 0;
  live_binary_path = "/usr/bin/radio-gaga";
}

abbrev old_file : File
old_file = record { inode = 1; mode = 420; bytes = 7 ∷ [] }

abbrev empty_slots : Slots
empty_slots = record { live = none; staging = none; lkg = none }

abbrev disk : Disk
disk = record {
  cfg = record { live = some old_file; staging = none; lkg = none };
  bin = empty_slots;
  marker = absent;
}

abbrev old_version : Version
old_version = record { cfg = some (7 ∷ []); bin = none }

abbrev candidate : Candidate
candidate = record { config = 8 ∷ 9 ∷ []; binary = [] }

abbrev probe : ProbeFunc
probe = some (λ info d. none)

abbrev world : List Fault → Disk → World
world fs d = record { disk = d; faults = fs; fresh = 2 }

-- The program stops behind the rename, before the marker says committed.
abbrev late_crash : List Fault
late_crash =
    goes_on ∷ goes_on ∷ goes_on ∷ goes_on ∷ goes_on ∷ goes_on ∷ goes_on ∷ goes_on ∷ goes_on
    ∷ goes_on ∷ goes_on ∷ goes_on ∷ goes_on ∷ goes_on ∷ goes_on ∷ goes_on ∷ goes_on ∷ crashes ∷ []

run-Safe_example :
    Ensures any_fault
      (Safe old_version (target old_version Kind.config candidate))
      (Reported old_version (target old_version Kind.config candidate))
      (OldSafe old_version)
      (run manager "t1" Kind.config candidate probe 0 100 (world late_crash disk))
run-Safe_example =
    run-Safe old_version manager "t1" Kind.config candidate probe 0 100 (world late_crash disk) refl
      (refl, (refl, refl))

run-reboots_atomic_example :
    Promises old_version
      (target old_version Kind.config candidate)
      (run manager "t1" Kind.config candidate probe 0 100 (world late_crash disk))
      (reboots manager
        ((goes_on ∷ crashes ∷ []) ∷ [])
        30
        (disk_after (run manager "t1" Kind.config candidate probe 0 100 (world late_crash disk))))
run-reboots_atomic_example =
    run-reboots_atomic old_version manager "t1" Kind.config candidate probe 0 100
      (world late_crash disk) ((goes_on ∷ crashes ∷ []) ∷ []) 30 refl (refl, (refl, refl))
      (refl, tt)

abbrev pending : Pending
pending = record {
  txn_id = "t1";
  kind = Kind.config;
  state = State.inflight;
  started_at_unix = 100;
  deadline_unix = 0;
  config_install_only = false;
  no_prior_live_config = false;
  no_prior_live_binary = false;
}

-- The new configuration is live, and the marker still says in flight.
abbrev half_done : Disk
half_done = record {
  cfg = record {
    live = some (record { inode = 4; mode = 420; bytes = 8 ∷ 9 ∷ [] });
    staging = none;
    lkg = some old_file;
  };
  bin = empty_slots;
  marker = holds pending;
}

half_done-OldSafe : OldSafe old_version half_done
half_done-OldSafe = inr (
  pending,
  record {
    marked = refl;
    in_flight = refl;
    replaces = refl;
    cfg_back = inr (inl (refl, inr (refl, refl, refl)));
    bin_back = inl (refl, refl);
  },
)

recover_on_boot-OldSafe_example :
    Ensures
      (calmly true)
      (OldSafe old_version)
      (λ _. Pre old_version)
      (λ _. ⊥)
      (recover_on_boot manager (world [] half_done))
recover_on_boot-OldSafe_example =
    recover_on_boot-OldSafe true old_version manager (world [] half_done) tt half_done-OldSafe

abbrev all_done : Disk
all_done = record half_done { marker = holds (record pending { state = State.committed }) }

abbrev new_version : Version
new_version = record { cfg = some (8 ∷ 9 ∷ []); bin = none }

recover_on_boot-NewSafe_example :
    Ensures
      (calmly false)
      (NewSafe new_version)
      (λ _. Pre new_version)
      (λ _. ⊥)
      (recover_on_boot manager (world (goes_on ∷ crashes ∷ []) all_done))
recover_on_boot-NewSafe_example =
    recover_on_boot-NewSafe false new_version manager (world (goes_on ∷ crashes ∷ []) all_done) refl
      (inr (record pending { state = State.committed }, refl, refl, (refl, refl)))

run_pending_refused_example :
    Ensures any_fault
      (λ d. d ≡ half_done)
      (λ _ _. ⊥)
      (λ d. d ≡ half_done)
      (run manager "t2" Kind.config candidate probe 0 200 (world [] half_done))
run_pending_refused_example =
    run_pending_refused manager "t2" Kind.config candidate probe 0 200 (world [] half_done) pending
      refl

abbrev installer : Manager
installer = record manager { config_install_only = true }

-- A run with no faults puts the candidate in place.
run_commits :
    (disk_after (run manager "t1" Kind.config candidate probe 0 100 (world [] disk))).cfg.live
    ≡ some (record { inode = 13; mode = 420; bytes = 8 ∷ 9 ∷ [] })
unfolding run validate_kind check_install prepare clear_leftovers clear_leftover snapshot_config
    snapshot_lkg copy_file copy_opened stage_config write_file_sync attempt mark_inflight run_probe
    commit_renames commit_config rename finish clean_up read_pending_file write_pending_file
    remove_pending_file syscall stat remove discard
run_commits = refl

crash_after_rename :
    (disk_after (run manager "t1" Kind.config candidate probe 0 100 (world late_crash disk))).marker
    ≡ holds pending
unfolding run validate_kind check_install prepare clear_leftovers clear_leftover snapshot_config
    snapshot_lkg copy_file copy_opened stage_config write_file_sync attempt mark_inflight run_probe
    commit_renames commit_config rename finish clean_up read_pending_file write_pending_file
    remove_pending_file syscall stat remove discard
crash_after_rename = refl
