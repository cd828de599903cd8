-- ===== src/Txn/Atomic.antt =====
-- The theorems on `Manager.Run` and `Manager.RecoverOnBoot`, and on a run followed by reboots.
use radio_gaga.Common.{
  ℕ, ◌≡◌, ◌⊎◌, inl, inr, Bool, true, false, List, [], ◌∷◌, Option, none, some, String, All,
}
use radio_gaga.Txn.Disk.{Disk, Kind, Candidate}
use radio_gaga.Txn.Calls.{Fault, World, Outcome, done, failed, crashed, Error, Done}
use radio_gaga.Txn.Manager.{Manager, Report, ProbeFunc, run}
use radio_gaga.Txn.Recovery.{recover_on_boot}
use radio_gaga.Txn.Safety.{Version, Safe, OldSafe, NewSafe, Pre}
use radio_gaga.Txn.Hoare.{Ensures, Allowed, any_fault, calmly}
use radio_gaga.Txn.RunSafety.{target, Reported, Settled}
use radio_gaga.Txn.RunResult.{Allowed-any_fault, run-Triple}
use radio_gaga.Txn.Recovered.{recover-old, recover-new}

-- On a disk with no marker, whose live files are at `o`: whatever calls fail, and wherever the program
-- stops, a run that replaces files leaves a disk that is safe for recovery to `o` or to the target; if
-- it returns an error, to `o`; if it reports `committed`, to the target when it reports no error
-- beside, and to `o` when it does.
pub run-Safe :
    (o : Version) (m : Manager) (txn_id : String) (kind : Kind) (c : Candidate) (probe : ProbeFunc)
    (deadline now : ℕ) (w : World)
    → m.config_install_only ≡ false
    → Pre o w.disk
    → Ensures any_fault
        (Safe o (target o kind c))
        (Reported o (target o kind c))
        (OldSafe o)
        (run m txn_id kind c probe deadline now w)
run-Safe o m txn_id kind c probe deadline now w inst pre =
    (run-Triple o m txn_id kind c probe deadline now inst).at w (Allowed-any_fault w.faults) pre

-- On a disk that is safe for the old version, with crashes as the only faults: recovery raises no
-- error; where it returns, the marker is gone and the live files are those of the old version; where
-- it stops, the disk is safe for the old version again; and it stops only at a crash.
pub recover_on_boot-OldSafe :
    (q : Bool) (o : Version) (m : Manager) (w : World)
    → Allowed (calmly q) w.faults
    → OldSafe o w.disk
    → Ensures (calmly q) (OldSafe o) (λ _. Pre o) (λ _. ⊥) (recover_on_boot m w)
recover_on_boot-OldSafe q o m w calm h = (recover-old q o m).at w calm h

-- On a disk that is safe for the new version, as a commit leaves it, with crashes as the only faults:
-- recovery raises no error; where it returns, the marker is gone and the live files are those of the
-- new version; where it stops, the disk is safe for the new version again; and it stops only at a crash.
pub recover_on_boot-NewSafe :
    (q : Bool) (n : Version) (m : Manager) (w : World)
    → Allowed (calmly q) w.faults
    → NewSafe n w.disk
    → Ensures (calmly q) (NewSafe n) (λ _. Pre n) (λ _. ⊥) (recover_on_boot m w)
recover_on_boot-NewSafe q n m w calm h = (recover-new q n m).at w calm h

-- The disk as a run leaves it.
abbrev pub disk_after : {A : Type 0} → Outcome A → Disk
disk_after (done a w) = w.disk
disk_after (failed e w) = w.disk
disk_after (crashed d) = d

-- Boots that may each be cut off, then one that is not.
pub reboots : Manager → List (List Fault) → ℕ → Disk → Disk
reboots m [] n d = disk_after (recover_on_boot m (record { disk = d; faults = []; fresh = n }))
reboots m (fs ∷ boots) n d =
    reboots m boots n (disk_after (recover_on_boot m (record { disk = d; faults = fs; fresh = n })))

abbrev pub OnlyCrashes : List (List Fault) → Type 0
OnlyCrashes = All (Allowed (calmly false))

module _ (v : Version) (S : Disk → Type 0) where
  settled :
      (o : Outcome Done) → Ensures (calmly true) S (λ _. Pre v) (λ _. ⊥) o → Pre v (disk_after o)
  settled (done a w) h = h.1
  settled (failed e w) h = absurd h.1
  settled (crashed d) h = cc (h.0)

  still_safe :
      (o : Outcome Done)
      → ((d : Disk) → Pre v d → S d)
      → Ensures (calmly false) S (λ _. Pre v) (λ _. ⊥) o
      → S (disk_after o)
  still_safe (done a w) s h = s w.disk h.1
  still_safe (failed e w) s h = absurd h.1
  still_safe (crashed d) s h = h.1

module _ (m : Manager) (n : ℕ) (v : Version) where
  pub reboots-OldSafe :
      (boots : List (List Fault)) (d : Disk)
      → OnlyCrashes boots
      → OldSafe v d
      → Pre v (reboots m boots n d)
  unfolding reboots
  reboots-OldSafe [] d b h = settled v (OldSafe v) _ (recover_on_boot-OldSafe true v m _ tt h)
  reboots-OldSafe (fs ∷ boots) d b h =
      reboots-OldSafe boots _ b.1
        (still_safe v (OldSafe v) _ (λ d h. inl h) (recover_on_boot-OldSafe false v m _ b.0 h))

  pub reboots-NewSafe :
      (boots : List (List Fault)) (d : Disk)
      → OnlyCrashes boots
      → NewSafe v d
      → Pre v (reboots m boots n d)
  unfolding reboots
  reboots-NewSafe [] d b h = settled v (NewSafe v) _ (recover_on_boot-NewSafe true v m _ tt h)
  reboots-NewSafe (fs ∷ boots) d b h =
      reboots-NewSafe boots _ b.1
        (still_safe v (NewSafe v) _ (λ d h. inl h) (recover_on_boot-NewSafe false v m _ b.0 h))

abbrev pub promised : Option Error → Version → Version → Version
promised none o n = n
promised (some _) o n = o

-- The version that an outcome promises: any of the two after a crash, the old one after an error, the
-- new one after a commit without an error beside it, the old one after a commit with one.
abbrev pub Promises : (o n : Version) → Outcome Report → Disk → Type 0
Promises o n (crashed _) d = Pre o d ⊎ Pre n d
Promises o n (failed _ _) d = Pre o d
Promises o n (done r _) d = (r.committed ≡ true) × Pre (promised r.error o n) d

report_kept :
    (o n : Version) (m : Manager) (boots : List (List Fault)) (i : ℕ) (e : Option Error) (d : Disk)
    → OnlyCrashes boots
    → Settled o n e d
    → Pre (promised e o n) (reboots m boots i d)
report_kept o n m boots i none d b h = reboots-NewSafe m i n boots d b h
report_kept o n m boots i (some e) d b h = reboots-OldSafe m i o boots d b h

promise_kept :
    (o n : Version) (m : Manager) (boots : List (List Fault)) (i : ℕ) (out : Outcome Report)
    → OnlyCrashes boots
    → Ensures any_fault (Safe o n) (Reported o n) (OldSafe o) out
    → Promises o n out (reboots m boots i (disk_after out))
promise_kept o n m boots i (done r w) b h =
    (h.1.0, report_kept o n m boots i r.error w.disk b h.1.1)
promise_kept o n m boots i (failed e w) b h = reboots-OldSafe m i o boots w.disk b h.1
promise_kept o n m boots i (crashed d) b (_, inl h) = inl (reboots-OldSafe m i o boots d b h)
promise_kept o n m boots i (crashed d) b (_, inr h) = inr (reboots-NewSafe m i n boots d b h)

-- A replacement is all or nothing. Start on a disk with no marker and live files at `o`, let any calls
-- of the run fail and the run stop anywhere, then reboot any number of times, each boot but the last
-- cut off by a crash. In the end the marker is gone, and the two live files together are at `o` or
-- together at the target: at `o` after an error, at the target after a commit with no error beside
-- it, at `o` after a commit with an error beside it, and at one of the two after a crash of the run.
pub run-reboots_atomic :
    (o : Version) (m : Manager) (txn_id : String) (kind : Kind) (c : Candidate) (probe : ProbeFunc)
    (deadline now : ℕ) (w : World) (boots : List (List Fault)) (i : ℕ)
    → m.config_install_only ≡ false
    → Pre o w.disk
    → OnlyCrashes boots
    → let out = run m txn_id kind c probe deadline now w in
      Promises o (target o kind c) out (reboots m boots i (disk_after out))
run-reboots_atomic o m txn_id kind c probe deadline now w boots i inst pre b =
    promise_kept o (target o kind c) m boots i _ b
      (run-Safe o m txn_id kind c probe deadline now w inst pre)
