-- ===== src/Txn/Prepared.antt =====
-- Steps 1 to 3 of `Manager.Run`, put together: after them the marker is still absent, the live files
-- are the old ones, and each swapped part has its snapshot and its candidate.
use radio_gaga.Common.{
  ℕ, ◌≡◌, Bool, true, false, List, Option, none, some, if◌then◌else◌, arith, ◌&&◌, not, sym, ap,
  ◌∙◌,
}
use radio_gaga.Txn.Disk.{
  Disk, File, Kind, Candidate, cfg_part, bin_part, staging, lkg, read, write, contents,
}
use radio_gaga.Txn.Calls.{Error, pure, raise, ◌>>◌, chmod_effect}
use radio_gaga.Txn.Manager.{
  Manager, swaps_config, swaps_binary, only_if, rollback_staging, rollback_lkgs, clear_leftovers,
  snapshot_config, snapshot_binary, stage_config, stage_binary, prepare,
}
use radio_gaga.Txn.Safety.{Version, Pre}
use radio_gaga.Txn.Hoare.{
  Triple-pure, Triple-raise, Triple-if, Triple-bind, Triple-catch, Triple-weaken,
}
use radio_gaga.Txn.CallRules.{Triple-write_file_sync, Triple-chmod}
use radio_gaga.Txn.Preparing.{
  Phase, SnappedPart, pre_crash, discard_spare, only_if_keeps, clear_leftover_keeps,
  snapshot_lkg_Snapped,
}

module _ (o n : Version) (sc sb : Bool) where
  rollback_lkgs-Pre : Phase o n (Pre o) (rollback_lkgs sc sb) (λ _. Pre o)
  unfolding rollback_lkgs
  rollback_lkgs-Pre =
      Triple-bind _ _ (λ _. Pre o)
        (only_if_keeps o n (Pre o) (λ d h. h) sc _
          (discard_spare o n (Pre o) (λ d h. h) (lkg cfg_part) (λ d f h. h)))
        (λ _.
          only_if_keeps o n (Pre o) (λ d h. h) sb _
            (discard_spare o n (Pre o) (λ d h. h) (lkg bin_part) (λ d f h. h)))

  rollback_staging-Pre : (sb' : Bool) → Phase o n (Pre o) (rollback_staging sc sb') (λ _. Pre o)
  unfolding rollback_staging
  rollback_staging-Pre sb' =
      Triple-bind _ _ (λ _. Pre o)
        (only_if_keeps o n (Pre o) (λ d h. h) sc _
          (discard_spare o n (Pre o) (λ d h. h) (staging cfg_part) (λ d f h. h)))
        (λ _.
          only_if_keeps o n (Pre o) (λ d h. h) sb' _
            (discard_spare o n (Pre o) (λ d h. h) (staging bin_part) (λ d f h. h)))

  -- The handlers: clean up, then the error.
  pub undo_lkgs :
      {A : Type 0} (e : Error) {Q : A → Disk → Type 0}
      → Phase o n (Pre o) (rollback_lkgs sc sb >> raise e) Q
  undo_lkgs e = Triple-bind _ _ (λ _. Pre o) rollback_lkgs-Pre (λ _. Triple-raise e (λ d h. h))

  pub undo_all :
      {A : Type 0} (sb' : Bool) (e : Error) {Q : A → Disk → Type 0}
      → Phase o n (Pre o) (rollback_staging sc sb' >> (rollback_lkgs sc sb >> raise e)) Q
  undo_all sb' e = Triple-bind _ _ (λ _. Pre o) (rollback_staging-Pre sb') (λ _. undo_lkgs e)

  clear_leftovers-Pre : Phase o n (Pre o) (clear_leftovers sc sb) (λ _. Pre o)
  unfolding clear_leftovers
  clear_leftovers-Pre =
      Triple-bind _ _ (λ _. Pre o)
        (only_if_keeps o n (Pre o) (λ d h. h) sc _
          (Triple-bind _ _ (λ _. Pre o)
            (clear_leftover_keeps o n (Pre o) (λ d h. h) (staging cfg_part) (λ d f h. h))
            (λ _. clear_leftover_keeps o n (Pre o) (λ d h. h) (lkg cfg_part) (λ d f h. h))))
        (λ _.
          only_if_keeps o n (Pre o) (λ d h. h) sb _
            (Triple-bind _ _ (λ _. Pre o)
              (clear_leftover_keeps o n (Pre o) (λ d h. h) (staging bin_part) (λ d f h. h))
              (λ _. clear_leftover_keeps o n (Pre o) (λ d h. h) (lkg bin_part) (λ d f h. h))))

  abbrev pub Snap1 : Bool → Disk → Type 0
  Snap1 nc d = Pre o d × (sc ≡ true → SnappedPart o cfg_part nc d)

  abbrev pub Snap2 : Bool → Bool → Disk → Type 0
  Snap2 nc nb d = Snap1 nc d × (sb ≡ true → SnappedPart o bin_part nb d)

  snapshot_config-Snap1 :
      (m : Manager)
      → m.config_install_only ≡ false
      → Phase o n (Pre o) (if sc then snapshot_config m else pure false) Snap1
  unfolding snapshot_config
  snapshot_config-Snap1 m inst =
      Triple-if sc
        (λ _.
          Triple-bind _ _ (λ fresh d. Pre o d × SnappedPart o cfg_part fresh d)
            (snapshot_lkg_Snapped o n (Pre o) (λ d h. h) cfg_part (λ d f h. h))
            (λ fresh.
              Triple-bind _ _ (λ _ d. Pre o d × SnappedPart o cfg_part fresh d)
                (Triple-if (m.config_install_only && not fresh) (λ e. absurd (ground arith))
                  (λ _. Triple-pure tt (λ d h. h)))
                (λ _. Triple-pure fresh (λ d h. (h.0, λ _. h.1)))))
        (λ e. Triple-pure false (λ d h. (h, λ t. cc)))

  snapshot_binary-Snap2 :
      (nc : Bool)
      → Phase o n (Snap1 nc) (if sb then snapshot_binary sc sb else pure false) (Snap2 nc)
  unfolding snapshot_binary
  snapshot_binary-Snap2 nc =
      Triple-if sb
        (λ _.
          Triple-catch _ _ (Pre o)
            (Triple-weaken (Snap1 nc) (Pre o)
              (λ fresh d. Snap1 nc d × SnappedPart o bin_part fresh d) _
              (snapshot_lkg_Snapped o n (Snap1 nc) (λ d h. h.0) bin_part (λ d f h. h)) (λ d h. h)
              (λ fresh d h. (h.0, λ _. h.1)) (λ d h. h))
            (λ e. undo_lkgs e))
        (λ e. Triple-pure false (λ d h. (h, λ t. cc)))

-- The candidates stand under their staging names.
abbrev pub Staged : Bool → Bool → Candidate → Disk → Type 0
Staged sc sb c d =
    (sc ≡ true → contents d.cfg.staging ≡ some c.config)
    × (sb ≡ true → contents d.bin.staging ≡ some c.binary)

contents-chmod :
    (mode : ℕ) (d : Disk) (b : List ℕ) (f : Option File)
    → read d (staging bin_part) ≡ f
    → contents d.bin.staging ≡ some b
    → contents (chmod_effect (staging bin_part) mode f d).1.bin.staging ≡ some b
contents-chmod mode d b none e h = h
contents-chmod mode d b (some f) e h = sym (ap contents e) ∙ h

chmod_kept :
    (P : Disk → Type 0) (mode : ℕ) (d : Disk) (f : Option File)
    → ((g : Option File) → P d → P (write d (staging bin_part) g))
    → P d
    → P (chmod_effect (staging bin_part) mode f d).1
chmod_kept P mode d none stable h = h
chmod_kept P mode d (some f) stable h = stable _ h

module _ (o n : Version) (sc sb : Bool) (c : Candidate) (nc nb : Bool) where
  abbrev Stage1 : Disk → Type 0
  Stage1 d = Snap2 o n sc sb nc nb d × (sc ≡ true → contents d.cfg.staging ≡ some c.config)

  abbrev pub Ready : Disk → Type 0
  Ready d = Snap2 o n sc sb nc nb d × Staged sc sb c d

  stage_config-Stage1 :
      (m : Manager)
      → Phase o n (Snap2 o n sc sb nc nb) (only_if sc (stage_config m sc sb c.config)) (λ _. Stage1)
  unfolding stage_config
  stage_config-Stage1 m =
      Triple-if sc
        (λ _.
          Triple-catch _ _ (Pre o)
            (Triple-weaken (Snap2 o n sc sb nc nb) (Pre o)
              (λ _ d. Snap2 o n sc sb nc nb d × (contents d.cfg.staging ≡ some c.config)) _
              (Triple-write_file_sync (Snap2 o n sc sb nc nb)
                (pre_crash o n (Snap2 o n sc sb nc nb) (λ d h. h.0.0)) (λ d h. h.0.0)
                (staging cfg_part) c.config _ (λ d f h. h))
              (λ d h. h) (λ _ d h. (h.0, λ _. h.1)) (λ d h. h))
            (λ e. undo_lkgs o n sc sb e))
        (λ e. Triple-pure tt (λ d h. (h, λ t. cc)))

  Stage1Binary : Disk → Type 0
  Stage1Binary d = Stage1 d × (contents d.bin.staging ≡ some c.binary)

  stage_binary-Ready : Phase o n Stage1 (only_if sb (stage_binary sc sb c.binary)) (λ _. Ready)
  unfolding stage_binary Stage1Binary
  stage_binary-Ready =
      Triple-if sb
        (λ _.
          Triple-bind _ _ (λ _. Stage1Binary)
            (Triple-catch _ _ (Pre o)
              (Triple-write_file_sync Stage1 (pre_crash o n Stage1 (λ d h. h.0.0.0))
                (λ d h. h.0.0.0) (staging bin_part) c.binary _ (λ d f h. h))
              (λ e. undo_all o n sc sb false e))
            (λ _.
              Triple-catch _ _ (Pre o)
                (Triple-weaken Stage1Binary (Pre o) (λ _. Stage1Binary) _
                  (Triple-chmod Stage1Binary (pre_crash o n Stage1Binary (λ d h. h.0.0.0.0))
                    (λ d h. h.0.0.0.0) (staging bin_part) 0o755
                    (λ d f e h. (
                      chmod_kept Stage1 0o755 d f (λ g k. k) h.0,
                      contents-chmod 0o755 d c.binary f e h.1,
                    )))
                  (λ d h. h) (λ _ d h. (h.0.0, (h.0.1, λ _. h.1))) (λ d h. h))
                (λ e. undo_all o n sc sb sb e)))
        (λ e. Triple-pure tt (λ d h. (h.0, (h.1, λ t. cc))))

-- After steps 1 to 3: the live files are the old ones, snapshots and candidates stand.
pub prepare-Ready :
    (o n : Version) (m : Manager) (kind : Kind) (c : Candidate)
    → m.config_install_only ≡ false
    → Phase o n
        (Pre o)
        (prepare m kind c)
        (λ fresh. Ready o n (swaps_config kind) (swaps_binary kind) c fresh.0 fresh.1)
unfolding prepare
prepare-Ready o n m kind c inst =
    Triple-bind _ _ (λ _. Pre o) (clear_leftovers-Pre o n sc sb)
      (λ _. Triple-bind _ _ (Snap1 o n sc sb) (snapshot_config-Snap1 o n sc sb m inst) (λ nc.
        Triple-bind _ _ (Snap2 o n sc sb nc) (snapshot_binary-Snap2 o n sc sb nc) (λ nb.
          Triple-bind _ _ (λ _. Stage1 o n sc sb c nc nb) (stage_config-Stage1 o n sc sb c nc nb m)
            (λ _.
              Triple-bind _ _ (λ _. Ready o n sc sb c nc nb) (stage_binary-Ready o n sc sb c nc nb)
                (λ _. Triple-pure (nc, nb) (λ d h. h))))))
  where
    sc : Bool
    sc = swaps_config kind

    sb : Bool
    sb = swaps_binary kind
