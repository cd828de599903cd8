-- ===== src/Txn/RunSafety.antt =====
-- The renames, the committed marker and the clean-up of `Manager.Run`; then the whole of it.
use radio_gaga.Common.{
  ◌≡◌, refl, inl, inr, Bool, true, false, Option, none, some, if◌then◌else◌, arith, sym, ap, ◌∙◌,
  String,
}
use radio_gaga.Txn.Disk.{
  Disk, Kind, Candidate, Pending, State, cfg_part, bin_part, FilePath, live, staging, lkg, write,
  contents,
}
use radio_gaga.Txn.Calls.{Error, pure, ◌>>◌, discard, rename}
use radio_gaga.Txn.Manager.{
  Manager, Report, swaps_config, swaps_binary, only_if, commit_config, commit_renames, clean_up,
  finish, attempt,
}
use radio_gaga.Txn.Safety.{Version, Shows, OldSafe, NewSafe}
use radio_gaga.Txn.Hoare.{Triple-pure, Triple-if, Triple-bind, Triple-catch, Triple-discard}
use radio_gaga.Txn.CallRules.{Triple-rename, Triple-write_pending, Triple-remove_pending}
use radio_gaga.Txn.Prepared.{Ready}
use radio_gaga.Txn.Committing.{
  Committing, Committing-OldSafe, Started, After, mark_inflight-Started, run_probe-Started,
}

-- The version that a transaction puts in place.
abbrev pub target : Version → Kind → Candidate → Version
target o kind c = record {
  cfg = if swaps_config kind then some c.config else o.cfg;
  bin = if swaps_binary kind then some c.binary else o.bin;
}

-- After the binary's rename.
abbrev halfway : Version → Kind → Candidate → Version
halfway o kind c = record { cfg = o.cfg; bin = (target o kind c).bin }

pick_true : {A : Type 0} (b : Bool) (x y : A) → b ≡ true → x ≡ (if b then x else y)
pick_true true x y e = refl
pick_true false x y e = cc

pick_false : {A : Type 0} (b : Bool) (x y : A) → b ≡ false → y ≡ (if b then x else y)
pick_false true x y e = cc
pick_false false x y e = refl

module _ (o : Version) (p : Pending) (st : p.state ≡ State.inflight)
    (inst : p.config_install_only ≡ false) (c : Candidate) where
  abbrev v0 : Version
  v0 = halfway o p.kind c

  abbrev v1 : Version
  v1 = target o p.kind c

  abbrev old_safe : (v : Version) (d : Disk) → Committing o v p d → OldSafe o d
  old_safe v d h = Committing-OldSafe o v1 p st inst c v d h

  abbrev Half : Disk → Type 0
  Half d =
      Committing o v0 p d × (swaps_config p.kind ≡ true → contents d.cfg.staging ≡ some c.config)

  rename_binary-Half :
      After o v1
        (Started o v1 p c)
        (only_if
          (swaps_binary p.kind)
          (rename (staging bin_part) (live bin_part) Error.commit_binary))
        (λ _. Half)
  rename_binary-Half =
      Triple-if (swaps_binary p.kind)
        (λ t.
          Triple-rename _ _ _ (λ d h. inl (old_safe o d h.0)) (λ d h e. old_safe o d h.0)
            (λ d g h e. (
              record {
                marked = h.0.marked;
                shown = (
                  h.0.shown.0,
                  sym (ap contents e) ∙ h.1.1 t ∙ pick_true (swaps_binary p.kind) _ _ t,
                );
                cfg_snapped = h.0.cfg_snapped;
                bin_snapped = h.0.bin_snapped;
                cfg_kept = λ _. refl;
                bin_kept = λ f. cc;
              },
              h.1.0,
            ))
            (λ d _ h. old_safe o d h.0))
        (λ f. Triple-pure tt (λ d h. (
          record {
            marked = h.0.marked;
            shown = (h.0.shown.0, h.0.shown.1 ∙ pick_false (swaps_binary p.kind) _ _ f);
            cfg_snapped = h.0.cfg_snapped;
            bin_snapped = h.0.bin_snapped;
            cfg_kept = λ _. refl;
            bin_kept = λ f. sym (pick_false (swaps_binary p.kind) _ _ f);
          },
          h.1.0,
        )))

  rename_config-Committing :
      (m : Manager)
      → m.config_install_only ≡ false
      → After o v1 Half
          (only_if (swaps_config p.kind) (commit_config m p.no_prior_live_config))
          (λ _. Committing o v1 p)
  unfolding commit_config
  rename_config-Committing m no_install =
      Triple-if (swaps_config p.kind)
        (λ t.
          Triple-if m.config_install_only (λ e. absurd (ground arith))
            (λ _.
              Triple-rename _ _ _ (λ d h. inl (old_safe v0 d h.0)) (λ d h e. old_safe v0 d h.0)
                (λ d g h e. record {
                  marked = h.0.marked;
                  shown = (
                    sym (ap contents e) ∙ h.1 t ∙ pick_true (swaps_config p.kind) _ _ t,
                    h.0.shown.1,
                  );
                  cfg_snapped = h.0.cfg_snapped;
                  bin_snapped = h.0.bin_snapped;
                  cfg_kept = λ f. cc;
                  bin_kept = h.0.bin_kept;
                })
                (λ d _ h. old_safe v0 d h.0)))
        (λ f. Triple-pure tt (λ d h. record {
          marked = h.0.marked;
          shown = (h.0.shown.0 ∙ pick_false (swaps_config p.kind) _ _ f, h.0.shown.1);
          cfg_snapped = h.0.cfg_snapped;
          bin_snapped = h.0.bin_snapped;
          cfg_kept = λ f. sym (pick_false (swaps_config p.kind) _ _ f);
          bin_kept = h.0.bin_kept;
        }))

  commit_renames-Committing :
      (m : Manager)
      → m.config_install_only ≡ false
      → After o v1
          (Started o v1 p c)
          (commit_renames m (swaps_config p.kind) (swaps_binary p.kind) p.no_prior_live_config)
          (λ _. Committing o v1 p)
  unfolding commit_renames
  commit_renames-Committing m no_install =
      Triple-bind _ _ (λ _. Half) rename_binary-Half (λ _. rename_config-Committing m no_install)

-- A report without an error: committed for good. With one: the marker still says in flight.
abbrev pub Settled : Version → Version → Option Error → Disk → Type 0
Settled o n none d = NewSafe n d
Settled o n (some e) d = OldSafe o d

abbrev pub Reported : Version → Version → Report → Disk → Type 0
Reported o n r d = (r.committed ≡ true) × Settled o n r.error d

module _ (o n : Version) where
  new_discard :
      (b : Bool) (f : FilePath)
      → ((d : Disk) → NewSafe n d → NewSafe n (write d f none))
      → After o n (NewSafe n) (only_if b (discard f)) (λ _. NewSafe n)
  new_discard b f stable =
      Triple-if b (λ _. Triple-discard f (λ d h. inr h) stable (λ d _ h. h))
        (λ _. Triple-pure tt (λ d h. h))

  NewSafe-unmarked : (d : Disk) → NewSafe n d → Shows n d
  NewSafe-unmarked d (inl h) = h.1
  NewSafe-unmarked d (inr h) = h.3

  clean_up-NewSafe :
      (m : Manager) (sc sb : Bool) → After o n (NewSafe n) (clean_up m sc sb) (λ _. NewSafe n)
  unfolding clean_up
  clean_up-NewSafe m sc sb =
      Triple-bind _ _ (λ _. NewSafe n)
        (new_discard m.config_install_only (staging cfg_part) (λ d h. h))
        (λ _.
          Triple-bind _ _ (λ _. NewSafe n) (new_discard sc (lkg cfg_part) (λ d h. h))
            (λ _.
              Triple-bind _ _ (λ _. NewSafe n) (new_discard sb (lkg bin_part) (λ d h. h))
                (λ _.
                  Triple-catch _ _ (NewSafe n)
                    (Triple-remove_pending (λ d h. inr h) (λ d h. inl (refl, NewSafe-unmarked d h))
                      (λ d _ h. h))
                    (λ _. Triple-pure tt (λ d h. h)))))

module _ (o : Version) (p : Pending) (st : p.state ≡ State.inflight)
    (inst : p.config_install_only ≡ false) (c : Candidate) where
  abbrev new : Version
  new = target o p.kind c

  finish_answer :
      (m : Manager) (sc sb : Bool) (answer : Option Error)
      → After o new
          (Settled o new answer)
          (elim answer [
            | some e ↦ pure (record { committed = true; error = some e })
            | none ↦ clean_up m sc sb >> pure (record { committed = true; error = none })
          ])
          (Reported o new)
  finish_answer m sc sb none =
      Triple-bind _ _ (λ _. NewSafe new) (clean_up-NewSafe o new m sc sb)
        (λ _. Triple-pure _ (λ d h. (refl, h)))
  finish_answer m sc sb (some e) = Triple-pure _ (λ d h. (refl, h))

  finish-Reported :
      (m : Manager) (sc sb : Bool)
      → After o new (Committing o new p) (finish m sc sb p) (Reported o new)
  unfolding finish
  finish-Reported m sc sb =
      Triple-bind _ _ (Settled o new)
        (Triple-catch _ _ (OldSafe o)
          (Triple-bind _ _ (λ _. NewSafe new)
            (Triple-write_pending _ (λ d h. inl (Committing-OldSafe o new p st inst c new d h))
              (λ d h. inr (record p { state = State.committed }, refl, refl, h.shown))
              (λ d _ h. Committing-OldSafe o new p st inst c new d h))
            (λ _. Triple-pure none (λ d h. h)))
          (λ e. Triple-pure (some e) (λ d h. h)))
        (finish_answer m sc sb)

  pub attempt-Reported :
      (m : Manager) (verdict : Disk → Option String)
      → m.config_install_only ≡ false
      → After o new
          (Ready o new
            (swaps_config p.kind)
            (swaps_binary p.kind)
            c
            p.no_prior_live_config
            p.no_prior_live_binary)
          (attempt m (swaps_config p.kind) (swaps_binary p.kind) p verdict)
          (Reported o new)
  unfolding attempt
  attempt-Reported m verdict no_install =
      Triple-bind _ _ (λ _. Started o new p c) (mark_inflight-Started o new p st inst c)
        (λ _.
          Triple-bind _ _ (λ _. Started o new p c) (run_probe-Started o new p st inst c verdict)
            (λ _.
              Triple-bind _ _ (λ _. Committing o new p)
                (commit_renames-Committing o p st inst c m no_install)
                (λ _. finish-Reported m (swaps_config p.kind) (swaps_binary p.kind))))
