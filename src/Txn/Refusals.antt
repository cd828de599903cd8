-- ===== src/Txn/Refusals.antt =====
-- Where `Manager.Run` refuses, and what an interrupted installation does to a file of somebody else.
use radio_gaga.Common.{ℕ, ◌≡◌, refl, true, Option, none, some, String, ap}
use radio_gaga.Txn.Disk.{Disk, File, Kind, Candidate, Pending, absent, holds, live, cfg_part}
use radio_gaga.Txn.Calls.{World, Error, M, ◌>>◌, present}
use radio_gaga.Txn.Manager.{Manager, Report, ProbeFunc, run, check_install, refuse_prior, when}
use radio_gaga.Txn.Hoare.{
  any_fault, Triple, Ensures, Triple-raise, Triple-if, Triple-bind, Triple-catch, Triple-stat,
  Triple-never,
}
use radio_gaga.Txn.RunResult.{
  Says, read_pending_Says, validate_kind_keeps, check_install_keeps, only_config_keeps,
  Allowed-any_fault,
}

-- Nothing is returned, and nothing is changed.
abbrev Refuses : {A : Type 0} → Disk → M A → Type 0
Refuses d0 m = Triple any_fault (λ d. d ≡ d0) (λ d. d ≡ d0) m (λ _ _. ⊥) (λ d. d ≡ d0)

module _ (d0 : Disk) (p : Pending) (marked : d0.marker ≡ holds p) where
  abbrev Same : Disk → Type 0
  Same d = d ≡ d0

  prior_refused :
      (prior : Option Pending) (rest : M Report)
      → Triple any_fault Same (Says Same prior) (refuse_prior prior >> rest) (λ _ _. ⊥) Same
  prior_refused none rest = Triple-never _ (λ d h.
      let e : d.marker ≡ d0.marker = ap (λ (x : Disk). x.marker) h.0 in
      let f : d.marker ≡ absent = h.1 in cc)
  prior_refused (some q) rest =
      Triple-bind (refuse_prior (some q)) (λ _. rest) (λ _ _. ⊥) (Triple-raise _ (λ d h. h.0))
        (λ _. Triple-never _ (λ d h. h))

  run-Refuses :
      (m : Manager) (txn_id : String) (kind : Kind) (c : Candidate) (probe : ProbeFunc)
      (deadline now : ℕ)
      → Refuses d0 (run m txn_id kind c probe deadline now)
  unfolding run
  run-Refuses m txn_id kind c none deadline now = Triple-raise _ (λ d h. h)
  run-Refuses m txn_id kind c (some probe) deadline now =
      Triple-bind _ _ (λ _. Same) (validate_kind_keeps Same (λ d h. h) kind c m)
        (λ _.
          Triple-bind _ _ (λ _. Same) (check_install_keeps Same (λ d h. h) m kind)
            (λ _.
              Triple-bind _ _ (Says Same) (read_pending_Says Same (λ d h. h))
                (λ prior. prior_refused prior _)))

-- A marker on disk stops every run: it never returns a report, and wherever it ends, with an error or
-- at a crash, the disk is exactly as before.
pub run_pending_refused :
    (m : Manager) (txn_id : String) (kind : Kind) (c : Candidate) (probe : ProbeFunc)
    (deadline now : ℕ) (w : World) (p : Pending)
    → w.disk.marker ≡ holds p
    → Ensures any_fault
        (λ d. d ≡ w.disk)
        (λ _ _. ⊥)
        (λ d. d ≡ w.disk)
        (run m txn_id kind c probe deadline now w)
run_pending_refused m txn_id kind c probe deadline now w p marked =
    (run-Refuses w.disk p marked m txn_id kind c probe deadline now).at w
      (Allowed-any_fault w.faults) refl

module _ (d0 : Disk) (f : File) (there : d0.cfg.live ≡ some f) where
  existing_refused :
      (found : Option File)
      → Triple any_fault
          (λ d. d ≡ d0)
          (λ d. (d ≡ d0) × (found ≡ d.cfg.live))
          (when (present found) Error.existing_config)
          (λ _ _. ⊥)
          (λ d. d ≡ d0)
  existing_refused none = Triple-never _ (λ d h.
      let e : d.cfg.live ≡ d0.cfg.live = ap (λ (x : Disk). x.cfg.live) h.0 in
      let g : none ≡ d.cfg.live = h.1 in cc)
  existing_refused (some g) = Triple-raise _ (λ d h. h.0)

  check_install-Refuses :
      (m : Manager) (kind : Kind) → m.config_install_only ≡ true → Refuses d0 (check_install m kind)
  unfolding check_install
  check_install-Refuses m kind inst =
      Triple-if m.config_install_only
        (λ _.
          Triple-bind _ _ (λ _ d. d ≡ d0) (only_config_keeps (λ d. d ≡ d0) (λ d h. h) kind)
            (λ _.
              Triple-bind _ _ (λ found d. (d ≡ d0) × (found ≡ d.cfg.live))
                (Triple-catch _ _ (λ d. d ≡ d0)
                  (Triple-stat (live cfg_part) _ (λ d h. h) (λ d h. (h, refl)) (λ d _ h. h))
                  (λ _. Triple-raise _ (λ d h. h)))
                existing_refused))
        (λ e. absurd (cc))

  install-Refuses :
      (m : Manager) (txn_id : String) (kind : Kind) (c : Candidate) (probe : ProbeFunc)
      (deadline now : ℕ)
      → m.config_install_only ≡ true
      → Refuses d0 (run m txn_id kind c probe deadline now)
  unfolding run
  install-Refuses m txn_id kind c none deadline now inst = Triple-raise _ (λ d h. h)
  install-Refuses m txn_id kind c (some probe) deadline now inst =
      Triple-bind _ _ (λ _ d. d ≡ d0) (validate_kind_keeps (λ d. d ≡ d0) (λ d h. h) kind c m)
        (λ _.
          Triple-bind _ _ (λ _ _. ⊥) (check_install-Refuses m kind inst)
            (λ _. Triple-never _ (λ d h. h)))

-- An installation never replaces a configuration: where one exists, a run in install mode returns no
-- report, and wherever it ends, with an error or at a crash, the disk is exactly as before.
pub run_install_refused :
    (m : Manager) (txn_id : String) (kind : Kind) (c : Candidate) (probe : ProbeFunc)
    (deadline now : ℕ) (w : World) (f : File)
    → m.config_install_only ≡ true
    → w.disk.cfg.live ≡ some f
    → Ensures any_fault
        (λ d. d ≡ w.disk)
        (λ _ _. ⊥)
        (λ d. d ≡ w.disk)
        (run m txn_id kind c probe deadline now w)
run_install_refused m txn_id kind c probe deadline now w f inst there =
    (install-Refuses w.disk f there m txn_id kind c probe deadline now inst).at w
      (Allowed-any_fault w.faults) refl
