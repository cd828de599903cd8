-- ===== src/Txn/RecoverySafety.antt =====
-- `Manager.RecoverOnBoot`, with crashes at every call: rolling back one part.
use radio_gaga.Common.{
  ℕ, ◌≡◌, refl, inl, inr, Bool, true, false, List, Option, none, some, arith, sym, ap, ◌∙◌, subst,
}
use radio_gaga.Txn.Disk.{
  Disk, File, Slots, Kind, Pending, Part, cfg_part, bin_part, live, staging, lkg, slots, put_slots,
  write, contents,
}
use radio_gaga.Txn.Calls.{Error, M, present, rename}
use radio_gaga.Txn.Manager.{swaps_config, swaps_binary, only_if}
use radio_gaga.Txn.Recovery.{rollback_one}
use radio_gaga.Txn.Safety.{Version, Restorable, Undoes, OldSafe, of_part}
use radio_gaga.Txn.Hoare.{
  calmly, Triple, Triple-pure, Triple-bind, Triple-catch, Triple-stat, Triple-discard,
}
use radio_gaga.Txn.CallRules.{Triple-rename}

module _ (fresh : Bool) (old : Option (List ℕ)) (s : Slots) (r : Restorable true fresh old s) where
  no_prior-old : fresh ≡ true → old ≡ none
  no_prior-old e = ground arith

  kept_without_lkg : fresh ≡ false → s.lkg ≡ none → contents s.live ≡ old
  kept_without_lkg e n = ground arith

  kept_by_lkg : (g : File) → fresh ≡ false → s.lkg ≡ some g → some g.bytes ≡ old
  kept_by_lkg g e n = ground arith

-- The fields of a part, by its name.
abbrev pub swaps : Kind → Part → Bool
swaps k cfg_part = swaps_config k
swaps k bin_part = swaps_binary k

abbrev pub fresh_of : Pending → Part → Bool
fresh_of p cfg_part = p.no_prior_live_config
fresh_of p bin_part = p.no_prior_live_binary

abbrev pub Back : Version → Pending → Part → Slots → Type 0
Back o p part s = Restorable (swaps p.kind part) (fresh_of p part) (of_part o part) s

Undoes-Back :
    (o : Version) (p : Pending) (part : Part) (d : Disk)
    → Undoes o d p
    → Back o p part (slots d part)
Undoes-Back o p cfg_part d h = h.cfg_back
Undoes-Back o p bin_part d h = h.bin_back

Undoes-put_slots :
    (o : Version) (p : Pending) (part : Part) (d : Disk) (s : Slots)
    → Undoes o d p
    → Back o p part s
    → Undoes o (put_slots d part s) p
Undoes-put_slots o p cfg_part d s h b = record {
  marked = h.marked;
  in_flight = h.in_flight;
  replaces = h.replaces;
  cfg_back = b;
  bin_back = h.bin_back;
}
Undoes-put_slots o p bin_part d s h b = record {
  marked = h.marked;
  in_flight = h.in_flight;
  replaces = h.replaces;
  cfg_back = h.cfg_back;
  bin_back = b;
}

slots-put_slots : (part : Part) (d : Disk) (s : Slots) → slots (put_slots d part s) part ≡ s
slots-put_slots cfg_part d s = refl
slots-put_slots bin_part d s = refl

-- The disk after the snapshot has been moved back.
moved_back :
    (part : Part) (d : Disk) (g : File)
    → write (write d (lkg part) none) (live part) (some g)
      ≡ put_slots d part (record (slots d part) { lkg = none; live = some g })
moved_back cfg_part d g = refl
moved_back bin_part d g = refl

-- Every call returns, whatever the crashes; at a crash the disk can still be rolled back.
abbrev pub Calm :
    (q : Bool) (o : Version) {A : Type 0} → (Disk → Type 0) → M A → (A → Disk → Type 0) → Type 0
Calm q o P m Q = Triple (calmly q) (OldSafe o) P m Q (λ _. ⊥)

module _ (q : Bool) (o : Version) (p : Pending) (part : Part) (sw : swaps p.kind part ≡ true)
    (K : Disk → Type 0) (stable : (d : Disk) (s : Slots) → K d → K (put_slots d part s)) where
  abbrev Going : Disk → Type 0
  Going d = Undoes o d p × K d

  abbrev pub Restored : Disk → Type 0
  Restored d = Going d × (contents (slots d part).live ≡ of_part o part)

  going_crash : (d : Disk) → Going d → OldSafe o d
  going_crash d h = inr (p, h.0)

  Going-put : (d : Disk) (s : Slots) → Going d → Back o p part s → Going (put_slots d part s)
  Going-put d s h b = (Undoes-put_slots o p part d s h.0 b, stable d s h.1)

  Restored-put :
      (d : Disk) (s : Slots)
      → Going d
      → Back o p part s
      → contents s.live ≡ of_part o part
      → Restored (put_slots d part s)
  Restored-put d s h b e =
      (Going-put d s h b, ap (λ (t : Slots). contents t.live) (slots-put_slots part d s) ∙ e)

  back_here :
      (d : Disk) → Going d → Restorable true (fresh_of p part) (of_part o part) (slots d part)
  back_here d h =
      subst (λ b. Restorable b (fresh_of p part) (of_part o part) (slots d part)) sw
        (Undoes-Back o p part d h.0)

  drop_staging :
      (d : Disk) → Going d → Going (put_slots d part (record (slots d part) { staging = none }))
  drop_staging d h = Going-put d _ h (Undoes-Back o p part d h.0)

  undo_first : fresh_of p part ≡ true → Calm q o Going (rollback_one part true) (λ _. Restored)
  unfolding rollback_one
  undo_first fr =
      Triple-bind _ _ (λ _. Going)
        (Triple-discard (staging part) going_crash drop_staging (λ d e h. cc))
        (λ _.
          Triple-discard (live part) going_crash
            (λ d h.
              let e : of_part o part ≡ none =
                no_prior-old (fresh_of p part) (of_part o part) (slots d part) (back_here d h) fr in
              Restored-put d _ h (inr (inl (sw, inl (fr, e)))) (sym e))
            (λ d e h. cc))

  restore_found :
      fresh_of p part ≡ false
      → (found : Option File)
      → Calm q o
          (λ d. Going d × ((slots d part).lkg ≡ found))
          (only_if (present found) (rename (lkg part) (live part) Error.rename_failed))
          (λ _. Restored)
  restore_found fr none = Triple-pure tt (λ d h. (
    h.0,
    kept_without_lkg (fresh_of p part) (of_part o part) (slots d part) (back_here d h.0) fr h.1,
  ))
  restore_found fr (some g) =
      Triple-rename (lkg part) (live part) _ (λ d h. going_crash d h.0) (λ d h e. cc)
        (λ d f h e.
          let e' : some f.bytes ≡ of_part o part =
            kept_by_lkg (fresh_of p part) (of_part o part) (slots d part) (back_here d h.0) f fr
              e in
          rw moved_back (Restored-put d _ h.0 (inr (inr (sw, fr, refl, e'))) e'))
        (λ d e h. cc)

  Restored-staging :
      (d : Disk)
      → Restored d
      → Restored (put_slots d part (record (slots d part) { staging = none }))
  Restored-staging d h = Restored-put d _ h.0 (Undoes-Back o p part d h.0.0) h.1

  undo_later : fresh_of p part ≡ false → Calm q o Going (rollback_one part false) (λ _. Restored)
  unfolding rollback_one
  undo_later fr =
      Triple-bind _ _ (λ found d. Going d × ((slots d part).lkg ≡ found))
        (Triple-catch _ _ (λ _. ⊥)
          (Triple-stat (lkg part) _ going_crash (λ d h. (h, refl)) (λ d e h. cc))
          (λ _. Triple-pure none (λ d h. absurd h)))
        (λ found.
          Triple-bind _ _ (λ _. Restored) (restore_found fr found)
            (λ _.
              Triple-discard (staging part) (λ d h. going_crash d h.0) Restored-staging
                (λ d e h. cc)))

  pub rollback_one-Restored :
      (fresh : Bool)
      → fresh_of p part ≡ fresh
      → Calm q o Going (rollback_one part fresh) (λ _. Restored)
  rollback_one-Restored true fr = undo_first fr
  rollback_one-Restored false fr = undo_later fr
