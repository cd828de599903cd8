-- ===== src/Txn/Committing.antt =====
-- Steps 4 to 6 of `Manager.Run`: from the marker on, the disk can always be brought back to the old
-- version, or is committed to the new one.
use radio_gaga.Common.{
  ℕ, ◌≡◌, refl, inl, inr, Bool, true, false, List, Option, none, some, ◌∙◌, String,
}
use radio_gaga.Txn.Disk.{
  Disk, Slots, Candidate, Pending, State, Part, cfg_part, bin_part, FilePath, staging, lkg, write,
  contents, holds,
}
use radio_gaga.Txn.Calls.{Error, M, Done, pure, raise, ◌>>◌, ignore, discard, remove_pending_file}
use radio_gaga.Txn.Manager.{
  swaps_config, swaps_binary, only_if, rollback_staging, rollback_lkgs, mark_inflight, run_probe,
}
use radio_gaga.Txn.Safety.{Version, Shows, Snapped, Restorable, Undoes, Safe, OldSafe, Pre}
use radio_gaga.Txn.Hoare.{
  any_fault, Triple, Triple-pure, Triple-raise, Triple-if, Triple-syscall, Triple-bind,
  Triple-catch, Triple-weaken, Triple-discard,
}
use radio_gaga.Txn.CallRules.{Triple-write_pending, Triple-remove_pending}
use radio_gaga.Txn.Prepared.{Staged, Ready, undo_all}

-- In flight, with the snapshots in place and the live files at `v`.
pub record Committing (o v : Version) (p : Pending) (d : Disk) : Type 0 where
  pub marked : d.marker ≡ holds p
  pub shown : Shows v d
  pub cfg_snapped : swaps_config p.kind ≡ true → Snapped p.no_prior_live_config o.cfg d.cfg
  pub bin_snapped : swaps_binary p.kind ≡ true → Snapped p.no_prior_live_binary o.bin d.bin
  pub cfg_kept : swaps_config p.kind ≡ false → v.cfg ≡ o.cfg
  pub bin_kept : swaps_binary p.kind ≡ false → v.bin ≡ o.bin

back :
    (swapped fresh : Bool) (old new : Option (List ℕ)) (s : Slots)
    → contents s.live ≡ new
    → (swapped ≡ true → Snapped fresh old s)
    → (swapped ≡ false → new ≡ old)
    → Restorable swapped fresh old s
back true fresh old new s e snap kept = inr (inl (refl, snap refl))
back false fresh old new s e snap kept = inl (refl, e ∙ kept refl)

Committing-Undoes :
    (o v : Version) (p : Pending) (d : Disk)
    → p.state ≡ State.inflight
    → p.config_install_only ≡ false
    → Committing o v p d
    → Undoes o d p
Committing-Undoes o v p d st inst h = record {
  marked = h.marked;
  in_flight = st;
  replaces = inst;
  cfg_back = back _ _ _ _ d.cfg h.shown.0 h.cfg_snapped h.cfg_kept;
  bin_back = back _ _ _ _ d.bin h.shown.1 h.bin_snapped h.bin_kept;
}

-- Undone as far as the probe's rollback goes: the live files are still the old ones.
abbrev Undone : Version → Pending → Disk → Type 0
Undone o p d = Undoes o d p × Shows o d

Restorable-lkg :
    (swapped fresh : Bool) (old : Option (List ℕ)) (s : Slots)
    → contents s.live ≡ old
    → Restorable swapped fresh old s
    → Restorable swapped fresh old (record s { lkg = none })
Restorable-lkg swapped fresh old s e (inl r) = inl r
Restorable-lkg swapped fresh old s e (inr (inl (t, inl r))) = inr (inl (t, inl r))
Restorable-lkg swapped fresh old s e (inr (inl (t, inr r))) = inr (inr (t, r.0, refl, e))
Restorable-lkg swapped fresh old s e (inr (inr r)) = inr (inr (r.0, r.1, refl, e))

Undone-lkg :
    (o : Version) (p : Pending) (part : Part) (d : Disk)
    → Undone o p d
    → Undone o p (write d (lkg part) none)
Undone-lkg o p cfg_part d h = (
  record {
    marked = h.0.marked;
    in_flight = h.0.in_flight;
    replaces = h.0.replaces;
    cfg_back = Restorable-lkg _ _ _ d.cfg h.1.0 h.0.cfg_back;
    bin_back = h.0.bin_back;
  },
  h.1,
)
Undone-lkg o p bin_part d h = (
  record {
    marked = h.0.marked;
    in_flight = h.0.in_flight;
    replaces = h.0.replaces;
    cfg_back = h.0.cfg_back;
    bin_back = Restorable-lkg _ _ _ d.bin h.1.1 h.0.bin_back;
  },
  h.1,
)

Undone-staging :
    (o : Version) (p : Pending) (part : Part) (d : Disk)
    → Undone o p d
    → Undone o p (write d (staging part) none)
Undone-staging o p cfg_part d h = (
  record {
    marked = h.0.marked;
    in_flight = h.0.in_flight;
    replaces = h.0.replaces;
    cfg_back = h.0.cfg_back;
    bin_back = h.0.bin_back;
  },
  h.1,
)
Undone-staging o p bin_part d h = (
  record {
    marked = h.0.marked;
    in_flight = h.0.in_flight;
    replaces = h.0.replaces;
    cfg_back = h.0.cfg_back;
    bin_back = h.0.bin_back;
  },
  h.1,
)

abbrev pub After :
    (o n : Version) {A : Type 0} → (Disk → Type 0) → M A → (A → Disk → Type 0) → Type 0
After o n P m Q = Triple any_fault (Safe o n) P m Q (OldSafe o)

module _ (o n : Version) (p : Pending) where
  abbrev pub sc : Bool
  sc = swaps_config p.kind

  abbrev pub sb : Bool
  sb = swaps_binary p.kind

  Undone-Safe : (d : Disk) → Undone o p d → Safe o n d
  Undone-Safe d h = inl (inr (p, h.0))

  Undone-discard :
      (b : Bool) (f : FilePath)
      → ((d : Disk) → Undone o p d → Undone o p (write d f none))
      → After o n (Undone o p) (only_if b (discard f)) (λ _. Undone o p)
  Undone-discard b f stable =
      Triple-if b (λ _. Triple-discard f Undone-Safe stable (λ d _ h. h))
        (λ _. Triple-pure tt (λ d h. h))

  Undone-rollback :
      (why : Error) {Q : Done → Disk → Type 0}
      → After o n
          (Undone o p)
          (rollback_staging sc sb
            >> (rollback_lkgs sc sb >> (ignore remove_pending_file >> raise why)))
          Q
  unfolding rollback_staging rollback_lkgs
  Undone-rollback why =
      Triple-bind _ _ (λ _. Undone o p)
        (Triple-bind _ _ (λ _. Undone o p)
          (Undone-discard sc (staging cfg_part) (Undone-staging o p cfg_part))
          (λ _. Undone-discard sb (staging bin_part) (Undone-staging o p bin_part)))
        (λ _.
          Triple-bind _ _ (λ _. Undone o p)
            (Triple-bind _ _ (λ _. Undone o p)
              (Undone-discard sc (lkg cfg_part) (Undone-lkg o p cfg_part))
              (λ _. Undone-discard sb (lkg bin_part) (Undone-lkg o p bin_part)))
            (λ _.
              Triple-bind _ _ (λ _. OldSafe o)
                (Triple-catch _ _ (OldSafe o)
                  (Triple-remove_pending Undone-Safe (λ d h. inl (refl, h.1))
                    (λ d _ h. inr (p, h.0)))
                  (λ _. Triple-pure tt (λ d h. h)))
                (λ _. Triple-raise why (λ d h. h))))

  -- What stands between the marker and the renames.
  abbrev pub Started : Candidate → Disk → Type 0
  Started c d = Committing o o p d × Staged sc sb c d

  module _ (st : p.state ≡ State.inflight) (inst : p.config_install_only ≡ false)
      (c : Candidate) where
    pub Committing-OldSafe : (v : Version) (d : Disk) → Committing o v p d → OldSafe o d
    Committing-OldSafe v d h = inr (p, Committing-Undoes o v p d st inst h)

    Started-Undone : (d : Disk) → Started c d → Undone o p d
    Started-Undone d h = (Committing-Undoes o o p d st inst h.0, h.0.shown)

    pub mark_inflight-Started :
        After o n
          (Ready o n sc sb c p.no_prior_live_config p.no_prior_live_binary)
          (mark_inflight sc sb p)
          (λ _. Started c)
    unfolding mark_inflight
    mark_inflight-Started =
        Triple-catch _ _ (Pre o)
          (Triple-write_pending p (λ d h. inl (inl h.0.0.0))
            (λ d h. (
              record {
                marked = refl;
                shown = h.0.0.0.1;
                cfg_snapped = h.0.0.1;
                bin_snapped = h.0.1;
                cfg_kept = λ _. refl;
                bin_kept = λ _. refl;
              },
              h.1,
            ))
            (λ d _ h. h.0.0.0))
          (λ e.
            Triple-weaken (Pre o) (Pre o) _ _ (undo_all o n sc sb sb e) (λ d h. h) (λ _ d h. h)
              (λ d h. inl h))

    probe_answer :
        (answer : Option String)
        → After o n
            (Started c)
            (elim answer [
              | none ↦ pure tt
              | some why ↦
                  rollback_staging sc sb
                  >> (rollback_lkgs sc sb
                      >> (ignore remove_pending_file >> raise (Error.probe_failed why)))
            ])
            (λ _. Started c)
    probe_answer none = Triple-pure tt (λ d h. h)
    probe_answer (some why) =
        Triple-weaken (Undone o p) (OldSafe o) _ _ (Undone-rollback (Error.probe_failed why))
          Started-Undone (λ _ d h. h) (λ d h. h)

    pub run_probe-Started :
        (verdict : Disk → Option String)
        → After o n (Started c) (run_probe sc sb verdict) (λ _. Started c)
    unfolding run_probe
    run_probe-Started verdict =
        Triple-bind _ _ (λ _. Started c)
          (Triple-catch _ _ (Started c)
            (Triple-syscall _ _ (λ d h. inl (Committing-OldSafe o d h.0)) (λ n' d h. h)
              (λ d _ h. h))
            (λ _. Triple-pure (some "deadline") (λ d h. h)))
          probe_answer
