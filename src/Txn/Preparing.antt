-- ===== src/Txn/Preparing.antt =====
-- Steps 1 to 3 of `Manager.Run` keep the live files and leave snapshots and candidates behind.
use radio_gaga.Common.{
  ℕ, ◌≡◌, refl, sym, ◌∙◌, inl, inr, Bool, true, false, not, List, Option, none, some, if◌then◌else◌,
}
use radio_gaga.Txn.Disk.{
  Disk, File, Part, cfg_part, bin_part, FilePath, live, lkg, slots, read, contents,
}
use radio_gaga.Txn.Calls.{
  Error, M, Done, pure, raise, ◌>>◌, catch, present, remove, discard, copy_file,
}
use radio_gaga.Txn.Manager.{only_if, snapshot_lkg, clear_leftover}
use radio_gaga.Txn.Safety.{Version, Snapped, of_part, Pre-live, Safe, Pre}
use radio_gaga.Txn.Hoare.{
  any_fault, Triple, Triple-pure, Triple-raise, Triple-if, Triple-syscall, Triple-bind,
  Triple-catch, Triple-stat, Triple-discard,
}
use radio_gaga.Txn.CallRules.{Stable, Triple-copy_file}

abbrev pub Phase :
    (o n : Version) {A : Type 0} → (Disk → Type 0) → M A → (A → Disk → Type 0) → Type 0
Phase o n P m Q = Triple any_fault (Safe o n) P m Q (Pre o)

present_of_contents : (f : Option File) (b : List ℕ) → contents f ≡ some b → present f ≡ true
present_of_contents none b h = cc
present_of_contents (some f) b h = refl

abbrev pub SnappedPart : Version → Part → Bool → Disk → Type 0
SnappedPart o p fresh d = Snapped fresh (of_part o p) (slots d p)

copied_Snapped :
    (o : Version) (p : Part) (d : Disk) (b : List ℕ)
    → some b ≡ of_part o p
    → contents (read d (lkg p)) ≡ some b
    → SnappedPart o p false d
copied_Snapped o cfg_part d b e h = inr (refl, present_of_contents d.cfg.lkg b h, h ∙ e)
copied_Snapped o bin_part d b e h = inr (refl, present_of_contents d.bin.lkg b h, h ∙ e)

module _ (o n : Version) (P : Disk → Type 0) (pre : (d : Disk) → P d → Pre o d) where
  pub pre_crash : (d : Disk) → P d → Safe o n d
  pre_crash d h = inl (inl (pre d h))

  pub discard_spare : (p : FilePath) → Stable P p → Phase o n P (discard p) (λ _. P)
  discard_spare p stable = Triple-discard p pre_crash (λ d h. stable d none h) (λ d _ h. h)

  pub only_if_keeps :
      (b : Bool) (m : M Done) → Phase o n P m (λ _. P) → Phase o n P (only_if b m) (λ _. P)
  only_if_keeps b m t = Triple-if b (λ _. t) (λ _. Triple-pure tt (λ d h. h))

  pub clear_leftover_keeps : (p : FilePath) → Stable P p → Phase o n P (clear_leftover p) (λ _. P)
  unfolding clear_leftover remove
  clear_leftover_keeps p stable =
      Triple-bind _ _ (λ _. P)
        (Triple-catch _ _ P (Triple-stat p _ pre_crash (λ d h. h) (λ d _ h. h))
          (λ _. Triple-pure none (λ d h. h)))
        (λ found. only_if_keeps (present found) _ (
          Triple-bind _ _ (λ _. P)
            (Triple-catch _ _ P
              (Triple-syscall _ _ pre_crash (λ n d h. stable d none h) (λ d _ h. h))
              (λ _. Triple-raise _ pre))
            (λ removed.
              Triple-if (not removed) (λ _. Triple-raise _ pre) (λ _. Triple-pure tt (λ d h. h)))))

  snapshot_found :
      (p : Part)
      → Stable P (lkg p)
      → (found : Option File)
      → Phase o n
          (λ d. P d × (contents found ≡ of_part o p))
          (if present found
            then catch (copy_file (live p) (lkg p)) (λ _. raise Error.snapshot_failed) >> pure false
            else pure true)
          (λ fresh d. P d × SnappedPart o p fresh d)
  snapshot_found p stable none = Triple-pure true (λ d h. (h.0, inl (refl, sym h.1)))
  snapshot_found p stable (some f) =
      Triple-bind _ _ (λ _ d. Q d × (contents (read d (lkg p)) ≡ some f.bytes))
        (Triple-catch _ _ Q
          (Triple-copy_file Q (λ d h. pre_crash d h.0) (λ d h. h) (live p) (lkg p) f.bytes
            (λ d g h. (stable d g h.0, h.1)) (λ d h. Pre-live o p d (pre d h.0) ∙ sym h.1))
          (λ _. Triple-raise _ (λ d h. pre d h.0)))
        (λ _. Triple-pure false (λ d h. (h.0.0, copied_Snapped o p d f.bytes h.0.1 h.1)))
    where
      Q : Disk → Type 0
      Q d = P d × (some f.bytes ≡ of_part o p)

  pub snapshot_lkg_Snapped :
      (p : Part)
      → Stable P (lkg p)
      → Phase o n P (snapshot_lkg p) (λ fresh d. P d × SnappedPart o p fresh d)
  unfolding snapshot_lkg
  snapshot_lkg_Snapped p stable =
      Triple-bind _ _ (λ found d. P d × (contents found ≡ of_part o p))
        (Triple-catch _ _ P
          (Triple-stat (live p) _ pre_crash (λ d h. (h, Pre-live o p d (pre d h))) (λ d _ h. h))
          (λ _. Triple-raise _ pre))
        (snapshot_found p stable)
