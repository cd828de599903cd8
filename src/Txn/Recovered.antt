-- ===== src/Txn/Recovered.antt =====
-- What `Manager.RecoverOnBoot` restores, and a transaction followed by any number of reboots.
use radio_gaga.Common.{
  ◌≡◌, ◌≢◌, refl, inl, inr, Bool, true, false, Option, none, some, sym, ap, ◌∙◌, subst,
}
use radio_gaga.Txn.Disk.{Disk, Pending, State, Marker, absent, garbled, holds}
use radio_gaga.Txn.Calls.{read_pending_file, parse_marker}
use radio_gaga.Txn.Manager.{Manager}
use radio_gaga.Txn.Recovery.{clean_orphans, roll_back, reconcile, recover_on_boot}
use radio_gaga.Txn.Safety.{Version, Undoes, OldSafe, NewSafe, Pre}
use radio_gaga.Txn.Hoare.{
  calmly, Triple, Triple-never, Triple-pure, Triple-raise, Triple-bind, Triple-weaken,
  Triple-syscall,
}
use radio_gaga.Txn.RecoveryResult.{clean_orphans-Pre, roll_back-Pre, clean_committed-Pre, Committed}

-- A marker in a disk condition.
abbrev Says : Option Pending → Disk → Type 0
Says none d = d.marker ≡ absent
Says (some p) d = d.marker ≡ holds p

held : Pending → Marker → Pending
held q absent = q
held q garbled = q
held q (holds p) = p

same_marker : (p q : Pending) (k : Marker) → k ≡ holds p → k ≡ holds q → p ≡ q
unfolding held
same_marker p q k e f = ap (held p) (sym e ∙ f)

module _ {q : Bool} {C : Disk → Type 0} (P : Disk → Type 0) (c : (d : Disk) → P d → C d)
    (readable : (d : Disk) → P d → d.marker ≢ garbled) where
  parsed_calm :
      (found : Marker)
      → Triple
          (calmly q)
          C
          (λ d. P d × (d.marker ≡ found))
          (parse_marker found)
          (λ prior d. P d × Says prior d)
          (λ _. ⊥)
  parsed_calm absent = Triple-pure none (λ d h. h)
  parsed_calm garbled = Triple-raise _ (λ d h. readable d h.0 h.1)
  parsed_calm (holds p) = Triple-pure (some p) (λ d h. h)

  read_calm : Triple (calmly q) C P read_pending_file (λ prior d. P d × Says prior d) (λ _. ⊥)
  unfolding read_pending_file
  read_calm =
      Triple-bind _ _ (λ found d. P d × (d.marker ≡ found))
        (Triple-syscall _ _ c (λ n d h. (h, refl)) (λ d e h. cc)) parsed_calm

readable_old : (o : Version) (d : Disk) → OldSafe o d → d.marker ≢ garbled
readable_old o d (inl h) e = cc (h.0)
readable_old o d (inr h) e = cc (h.1.marked)

readable_new : (n : Version) (d : Disk) → NewSafe n d → d.marker ≢ garbled
readable_new n d (inl h) e = cc (h.0)
readable_new n d (inr h) e = cc (h.1)

old_marked :
    (o : Version) (p : Pending) (d : Disk) → OldSafe o d → d.marker ≡ holds p → Undoes o d p
old_marked o p d (inl h) e = absurd (cc (h.0))
old_marked o p d (inr (q, u)) e = subst (λ r. Undoes o d r) (same_marker q p d.marker u.marked e) u

new_marked :
    (n : Version) (p : Pending) (d : Disk) → NewSafe n d → d.marker ≡ holds p → Committed n p d
new_marked n p d (inl h) e = absurd (cc (h.0))
new_marked n p d (inr (q, u0, u1, u2)) e =
    subst (λ r. Committed n r d) (same_marker q p d.marker u0 e) (u0, u1, u2)

module _ (q : Bool) (o : Version) (p : Pending) where
  abbrev OldMarked : Disk → Type 0
  OldMarked d = OldSafe o d × (d.marker ≡ holds p)

  undo_marked :
      (b : Bool)
      → p.config_install_only ≡ b
      → Triple (calmly q) (OldSafe o) OldMarked (roll_back p) (λ _. Pre o) (λ _. ⊥)
  undo_marked true e =
      Triple-never _
        (λ d h. let f : p.config_install_only ≡ false = (old_marked o p d h.0 h.1).replaces in cc)
  undo_marked false e =
      Triple-weaken (λ d. Undoes o d p) (λ _. ⊥) _ _ (roll_back-Pre q o p e)
        (λ d h. old_marked o p d h.0 h.1) (λ _ d h. h) (λ d h. h)

  reconcile_old :
      (s : State)
      → p.state ≡ s
      → Triple (calmly q) (OldSafe o) OldMarked (reconcile s p) (λ _. Pre o) (λ _. ⊥)
  unfolding reconcile
  reconcile_old State.committed e =
      Triple-never _
        (λ d h. let f : p.state ≡ State.inflight = (old_marked o p d h.0 h.1).in_flight in cc)
  reconcile_old State.inflight e = undo_marked p.config_install_only refl
  reconcile_old (State.unknown x) e =
      Triple-never _
        (λ d h. let f : p.state ≡ State.inflight = (old_marked o p d h.0 h.1).in_flight in cc)

  abbrev NewMarked : Disk → Type 0
  NewMarked d = NewSafe o d × (d.marker ≡ holds p)

  reconcile_new :
      (s : State)
      → p.state ≡ s
      → Triple (calmly q) (NewSafe o) NewMarked (reconcile s p) (λ _. Pre o) (λ _. ⊥)
  unfolding reconcile
  reconcile_new State.committed e =
      Triple-weaken (Committed o p) (λ _. ⊥) _ _ (clean_committed-Pre q o p)
        (λ d h. new_marked o p d h.0 h.1) (λ _ d h. h) (λ d h. h)
  reconcile_new State.inflight e =
      Triple-never _ (λ d h. let f : p.state ≡ State.committed = (new_marked o p d h.0 h.1).1 in cc)
  reconcile_new (State.unknown x) e =
      Triple-never _ (λ d h. let f : p.state ≡ State.committed = (new_marked o p d h.0 h.1).1 in cc)

unmarked_old : (o : Version) (d : Disk) → OldSafe o d × (d.marker ≡ absent) → Pre o d
unmarked_old o d (inl h, e) = h
unmarked_old o d (inr h, e) = absurd (cc (h.1.marked))

unmarked_new : (n : Version) (d : Disk) → NewSafe n d × (d.marker ≡ absent) → Pre n d
unmarked_new n d (inl h, e) = h
unmarked_new n d (inr h, e) = absurd (cc (h.1))

module _ (q : Bool) (v : Version) (m : Manager) where
  after_old :
      (prior : Option Pending)
      → Triple
          (calmly q)
          (OldSafe v)
          (λ d. OldSafe v d × Says prior d)
          (elim prior [ none ↦ clean_orphans m | some p ↦ reconcile p.state p ])
          (λ _. Pre v)
          (λ _. ⊥)
  after_old none =
      Triple-weaken (Pre v) (λ _. ⊥) _ _ (clean_orphans-Pre v m (λ d h. inl h)) (unmarked_old v)
        (λ _ d h. h) (λ d h. h)
  after_old (some p) = reconcile_old q v p p.state refl

  after_new :
      (prior : Option Pending)
      → Triple
          (calmly q)
          (NewSafe v)
          (λ d. NewSafe v d × Says prior d)
          (elim prior [ none ↦ clean_orphans m | some p ↦ reconcile p.state p ])
          (λ _. Pre v)
          (λ _. ⊥)
  after_new none =
      Triple-weaken (Pre v) (λ _. ⊥) _ _ (clean_orphans-Pre v m (λ d h. inl h)) (unmarked_new v)
        (λ _ d h. h) (λ d h. h)
  after_new (some p) = reconcile_new q v p p.state refl

  pub recover-old :
      Triple (calmly q) (OldSafe v) (OldSafe v) (recover_on_boot m) (λ _. Pre v) (λ _. ⊥)
  unfolding recover_on_boot
  recover-old =
      Triple-bind _ _ (λ prior d. OldSafe v d × Says prior d)
        (read_calm (OldSafe v) (λ d h. h) (readable_old v)) after_old

  pub recover-new :
      Triple (calmly q) (NewSafe v) (NewSafe v) (recover_on_boot m) (λ _. Pre v) (λ _. ⊥)
  unfolding recover_on_boot
  recover-new =
      Triple-bind _ _ (λ prior d. NewSafe v d × Says prior d)
        (read_calm (NewSafe v) (λ d h. h) (readable_new v)) after_new
