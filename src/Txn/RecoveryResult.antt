-- ===== src/Txn/RecoveryResult.antt =====
-- `Manager.RecoverOnBoot` as a whole, with crashes at every call.
use radio_gaga.Common.{ℕ, ◌≡◌, refl, inr, Bool, false, not, List, Option, none, arith, str_eq}
use radio_gaga.Txn.Disk.{
  Disk, Slots, Pending, State, cfg_part, bin_part, FilePath, staging, lkg, contents, holds,
}
use radio_gaga.Txn.Calls.{◌>>◌, discard, present}
use radio_gaga.Txn.Manager.{Manager, swaps_config, swaps_binary, only_if}
use radio_gaga.Txn.Recovery.{
  rollback_config, rollback_one, clean_orphan, clean_orphans, clean_committed, roll_back,
}
use radio_gaga.Txn.Safety.{Version, Restorable, Shows, Undoes, NewSafe, Pre}
use radio_gaga.Txn.Hoare.{
  calmly, Triple, Triple-pure, Triple-if, Triple-bind, Triple-catch, Triple-stat, Triple-weaken,
  Triple-discard,
}
use radio_gaga.Txn.CallRules.{Triple-remove_pending, Stable}
use radio_gaga.Txn.RecoverySafety.{Calm, rollback_one-Restored}

-- No marker: files left behind are removed, the live files stay.
module _ {q : Bool} {C : Disk → Type 0} (P : Disk → Type 0) (c : (d : Disk) → P d → C d) where
  clean_orphan_keeps :
      (f : FilePath) → Stable P f → Triple (calmly q) C P (clean_orphan f) (λ _. P) (λ _. ⊥)
  unfolding clean_orphan
  clean_orphan_keeps f stable =
      Triple-bind _ _ (λ _. P)
        (Triple-catch _ _ (λ _. ⊥) (Triple-stat f _ c (λ d h. h) (λ d e h. cc))
          (λ _. Triple-pure none (λ d h. absurd h)))
        (λ found.
          Triple-if (present found) (λ _. Triple-discard f c (λ d h. stable d none h) (λ d e h. cc))
            (λ _. Triple-pure tt (λ d h. h)))

  two_orphans :
      (b : Bool) (f g : FilePath)
      → Stable P f
      → Stable P g
      → Triple (calmly q) C P (only_if b (clean_orphan f >> clean_orphan g)) (λ _. P) (λ _. ⊥)
  two_orphans b f g sf sg =
      Triple-if b
        (λ _. Triple-bind _ _ (λ _. P) (clean_orphan_keeps f sf) (λ _. clean_orphan_keeps g sg))
        (λ _. Triple-pure tt (λ d h. h))

pub clean_orphans-Pre :
    {q : Bool} {C : Disk → Type 0} (v : Version) (m : Manager)
    → ((d : Disk) → Pre v d → C d)
    → Triple (calmly q) C (Pre v) (clean_orphans m) (λ _. Pre v) (λ _. ⊥)
unfolding clean_orphans
clean_orphans-Pre v m c =
    Triple-bind _ _ (λ _. Pre v)
      (two_orphans (Pre v) c (not (str_eq m.live_config_path "")) (staging cfg_part) (lkg cfg_part)
        (λ d f h. h) (λ d f h. h))
      (λ _.
        two_orphans (Pre v) c (not (str_eq m.live_binary_path "")) (staging bin_part) (lkg bin_part)
          (λ d f h. h) (λ d f h. h))

unswapped_kept :
    (swapped fresh : Bool) (old : Option (List ℕ)) (s : Slots)
    → Restorable swapped fresh old s
    → swapped ≡ false
    → contents s.live ≡ old
unswapped_kept swapped fresh old s r e = ground arith

-- In flight: both parts go back.
module _ (q : Bool) (o : Version) (p : Pending) where
  abbrev CfgBack : Disk → Type 0
  CfgBack d = Undoes o d p × (contents d.cfg.live ≡ o.cfg)

  abbrev BothBack : Disk → Type 0
  BothBack d = Undoes o d p × Shows o d

  rollback_cfg :
      (inst : p.config_install_only ≡ false)
      → Calm q o
          (λ d. Undoes o d p)
          (only_if (swaps_config p.kind) (rollback_config p))
          (λ _. CfgBack)
  rollback_cfg inst =
      Triple-if (swaps_config p.kind)
        (λ t.
          Triple-if p.config_install_only (λ e. absurd (ground arith))
            (λ _.
              Triple-weaken _ (λ _. ⊥) _ _
                (rollback_one-Restored q o p cfg_part t (λ _. Unit {0}) (λ d s k. k)
                  p.no_prior_live_config refl)
                (λ d h. (h, tt)) (λ _ d h. (h.0.0, h.1)) (λ d h. h)))
        (λ f. Triple-pure tt (λ d h. (h, unswapped_kept _ _ _ d.cfg h.cfg_back f)))

  rollback_bin :
      Calm q o CfgBack
        (only_if (swaps_binary p.kind) (rollback_one bin_part p.no_prior_live_binary))
        (λ _. BothBack)
  rollback_bin =
      Triple-if (swaps_binary p.kind)
        (λ t.
          Triple-weaken _ (λ _. ⊥) _ _
            (rollback_one-Restored q o p bin_part t (λ d. contents d.cfg.live ≡ o.cfg) (λ d s k. k)
              p.no_prior_live_binary refl)
            (λ d h. h) (λ _ d h. (h.0.0, (h.0.1, h.1))) (λ d h. h))
        (λ f. Triple-pure tt (λ d h. (h.0, (h.1, unswapped_kept _ _ _ d.bin h.0.bin_back f))))

  pub roll_back-Pre :
      p.config_install_only ≡ false → Calm q o (λ d. Undoes o d p) (roll_back p) (λ _. Pre o)
  unfolding roll_back
  roll_back-Pre inst =
      Triple-bind _ _ (λ _. CfgBack) (rollback_cfg inst)
        (λ _.
          Triple-bind _ _ (λ _. BothBack) rollback_bin
            (λ _. Triple-remove_pending (λ d h. inr (p, h.0)) (λ d h. (refl, h.1)) (λ d e h. cc)))

-- Committed: what is left is removed.
abbrev pub Committed : Version → Pending → Disk → Type 0
Committed n p d = (d.marker ≡ holds p) × (p.state ≡ State.committed) × Shows n d

module _ (q : Bool) (n : Version) (p : Pending) where
  Committed-crash : (d : Disk) → (Committed n p) d → NewSafe n d
  Committed-crash d h = inr (p, h.0, h.1, h.2)

  two_discards :
      (b : Bool) (f g : FilePath)
      → Stable (Committed n p) f
      → Stable (Committed n p) g
      → Triple
          (calmly q)
          (NewSafe n)
          (Committed n p)
          (only_if b (discard f >> discard g))
          (λ _. (Committed n p))
          (λ _. ⊥)
  two_discards b f g sf sg =
      Triple-if b
        (λ _.
          Triple-bind _ _ (λ _. (Committed n p))
            (Triple-discard f Committed-crash (λ d h. sf d none h) (λ d e h. cc))
            (λ _. Triple-discard g Committed-crash (λ d h. sg d none h) (λ d e h. cc)))
        (λ _. Triple-pure tt (λ d h. h))

  pub clean_committed-Pre :
      Triple (calmly q) (NewSafe n) (Committed n p) (clean_committed p) (λ _. Pre n) (λ _. ⊥)
  unfolding clean_committed
  clean_committed-Pre =
      Triple-bind _ _ (λ _. (Committed n p))
        (two_discards (swaps_config p.kind) (lkg cfg_part) (staging cfg_part) (λ d f h. h)
          (λ d f h. h))
        (λ _.
          Triple-bind _ _ (λ _. (Committed n p))
            (two_discards (swaps_binary p.kind) (lkg bin_part) (staging bin_part) (λ d f h. h)
              (λ d f h. h))
            (λ _. Triple-remove_pending Committed-crash (λ d h. (refl, h.2)) (λ d e h. cc)))
