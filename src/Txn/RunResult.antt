-- ===== src/Txn/RunResult.antt =====
-- `Manager.Run` as a whole: what it leaves on disk, for all failures and crashes.
use radio_gaga.Common.{
  ℕ, ◌≡◌, refl, inl, Bool, false, not, ◌||◌, List, [], ◌∷◌, Option, none, some, String, is_empty,
  str_eq,
}
use radio_gaga.Txn.Disk.{Disk, Kind, Candidate, Pending, Marker, absent, holds, garbled}
use radio_gaga.Txn.Calls.{
  Error, M, ◌>>=◌, ◌>>◌, read_pending_file, parse_marker, Fault, goes_on, fails, crashes, present,
}
use radio_gaga.Txn.Manager.{
  Manager, ProbeFunc, run, validate_kind, check_install, only_config, refuse_prior, when,
}
use radio_gaga.Txn.Safety.{Version, Safe, Pre}
use radio_gaga.Txn.Hoare.{
  any_fault, Triple, Allowed, Triple-pure, Triple-raise, Triple-if, Triple-syscall, Triple-bind,
  Triple-catch, Triple-weaken, Triple-stat,
}
use radio_gaga.Txn.Prepared.{prepare-Ready}
use radio_gaga.Txn.Committing.{After}
use radio_gaga.Txn.RunSafety.{target, Reported, attempt-Reported}

-- The checks change nothing.
module _ {C : Disk → Type 0} (P : Disk → Type 0) (c : (d : Disk) → P d → C d) where
  pub when_keeps : (b : Bool) (e : Error) → Triple any_fault C P (when b e) (λ _. P) P
  when_keeps b e = Triple-if b (λ _. Triple-raise e (λ d h. h)) (λ _. Triple-pure tt (λ d h. h))

  two_checks :
      (b b' : Bool) (e e' : Error) → Triple any_fault C P (when b e >> when b' e') (λ _. P) P
  two_checks b b' e e' = Triple-bind _ _ (λ _. P) (when_keeps b e) (λ _. when_keeps b' e')

  pub validate_kind_keeps :
      (kind : Kind) (x : Candidate) (m : Manager)
      → Triple any_fault C P (validate_kind kind x m) (λ _. P) P
  unfolding validate_kind
  validate_kind_keeps Kind.config x m =
      Triple-bind _ _ (λ _. P) (when_keeps (is_empty x.config) Error.needs_config)
        (λ _.
          two_checks (not (is_empty x.binary)) (str_eq m.live_config_path "") Error.forbids_binary
            Error.needs_config_path)
  validate_kind_keeps Kind.binary x m =
      Triple-bind _ _ (λ _. P) (when_keeps (is_empty x.binary) Error.needs_binary)
        (λ _.
          two_checks (not (is_empty x.config)) (str_eq m.live_binary_path "") Error.forbids_config
            Error.needs_binary_path)
  validate_kind_keeps Kind.both x m =
      two_checks (is_empty x.config || is_empty x.binary)
        (str_eq m.live_config_path "" || str_eq m.live_binary_path "") Error.needs_both
        Error.needs_both_paths
  validate_kind_keeps (Kind.other k) x m = Triple-raise _ (λ d h. h)

  pub only_config_keeps : (kind : Kind) → Triple any_fault C P (only_config kind) (λ _. P) P
  only_config_keeps Kind.config = Triple-pure tt (λ d h. h)
  only_config_keeps _ = Triple-raise _ (λ d h. h)

  pub check_install_keeps :
      (m : Manager) (kind : Kind) → Triple any_fault C P (check_install m kind) (λ _. P) P
  unfolding check_install
  check_install_keeps m kind =
      Triple-if m.config_install_only
        (λ _.
          Triple-bind _ _ (λ _. P) (only_config_keeps kind)
            (λ _.
              Triple-bind _ _ (λ _. P)
                (Triple-catch _ _ P (Triple-stat _ _ c (λ d h. h) (λ d _ h. h))
                  (λ _. Triple-raise _ (λ d h. h)))
                (λ found. when_keeps (present found) Error.existing_config)))
        (λ _. Triple-pure tt (λ d h. h))

-- What the marker says, where nothing changed.
abbrev pub Says : (Disk → Type 0) → Option Pending → Disk → Type 0
Says P none d = P d × (d.marker ≡ absent)
Says P (some p) d = P d × (d.marker ≡ holds p)

module _ {C : Disk → Type 0} (P : Disk → Type 0) (c : (d : Disk) → P d → C d) where
  parsed :
      (found : Marker)
      → Triple any_fault C (λ d. P d × (d.marker ≡ found)) (parse_marker found) (Says P) P
  parsed absent = Triple-pure none (λ d h. h)
  parsed garbled = Triple-raise _ (λ d h. h.0)
  parsed (holds p) = Triple-pure (some p) (λ d h. h)

  pub read_pending_Says : Triple any_fault C P read_pending_file (Says P) P
  unfolding read_pending_file
  read_pending_Says =
      Triple-bind _ _ (λ found d. P d × (d.marker ≡ found))
        (Triple-syscall _ _ c (λ n d h. (h, refl)) (λ d _ h. h)) parsed

  refused :
      (prior : Option Pending)
      → Triple any_fault C (Says P prior) (refuse_prior prior) (λ _ d. P d × (d.marker ≡ absent)) P
  refused none = Triple-pure tt (λ d h. h)
  refused (some p) = Triple-raise _ (λ d h. h.0)

pub Allowed-any_fault : (fs : List Fault) → Allowed any_fault fs
Allowed-any_fault [] = tt
Allowed-any_fault (goes_on ∷ r) = Allowed-any_fault r
Allowed-any_fault (fails ∷ r) = (refl, Allowed-any_fault r)
Allowed-any_fault (crashes ∷ r) = refl

pub run-Triple :
    (o : Version) (m : Manager) (txn_id : String) (kind : Kind) (c : Candidate) (probe : ProbeFunc)
    (deadline now : ℕ)
    → m.config_install_only ≡ false
    → After o
        (target o kind c)
        (Pre o)
        (run m txn_id kind c probe deadline now)
        (Reported o (target o kind c))
unfolding run
run-Triple o m txn_id kind c none deadline now inst = Triple-raise _ (λ d h. inl h)
run-Triple o m txn_id kind c (some probe) deadline now inst =
    early (validate_kind_keeps (Pre o) crash kind c m) (λ _.
      early (check_install_keeps (Pre o) crash m kind) (λ _.
        early (read_pending_Says (Pre o) crash) (λ prior. early (refused (Pre o) crash prior) (λ _.
          early
            (Triple-weaken (Pre o) (Pre o) _ _ (prepare-Ready o (target o kind c) m kind c inst)
              (λ d h. h.0) (λ a d h. h) (λ d h. h))
            (λ fresh. attempt-Reported o _ refl inst c m _ inst)))))
  where
    crash : (d : Disk) → Pre o d → Safe o (target o kind c) d
    crash d h = inl (inl h)

    early :
        {A B : Type 0} {P : Disk → Type 0} {f : A → M B} {m : M A} {Q : A → Disk → Type 0}
        {R : B → Disk → Type 0}
        → Triple any_fault (Safe o (target o kind c)) P m Q (Pre o)
        → ((a : A) → After o (target o kind c) (Q a) (f a) R)
        → After o (target o kind c) P (m >>= f) R
    early {P} {f} {m} {Q} t k =
        Triple-bind m f Q (Triple-weaken P (Pre o) Q m t (λ d h. h) (λ a d h. h) (λ d h. inl h)) k
