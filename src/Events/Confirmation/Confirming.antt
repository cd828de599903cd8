-- ===== src/Events/Confirmation/Confirming.antt =====
-- What a confirmation of internal/events/movement.go has seen when it confirms a movement.
use radio_gaga.Common.{
  ◌++◌, ◌∙◌, ℕ, zero, suc, ◌≤◌, ◌≡◌, inl, inr, refl, sym, ap, subst, Bool, true, false, ◌&&◌,
  str_eq_iff, List, [], ◌∷◌, Option, none, some, if◌then◌else◌, leb, length, take, All, Bool-cases,
  arith,
}
use mathlib.Core.List.{append_assoc, append-nil}
use radio_gaga.Events.Movement.{Geo, GpsSample, Trigger}
use radio_gaga.Events.Confirmation.{
  collect_fix, Reading, fix_read, collect, Gathered, lost, cancelled, complete, gather, ema_smooth,
  consistent_segments, last_of, Verdict, confirmed, rejected, Rejection, judge, verdict_of,
  run_confirmation, sample_count, min_consistent,
}

module _ (geo : Geo) where
  -- A reading with an established fix, at a plausible place, in the state of the trigger.
  abbrev pub Steady : Trigger geo → Reading geo → Type 0
  Steady t r =
      (p : geo.float × geo.float) × (fix_read geo r.gps ≡ some p)
      × (geo.above (geo.distance t.trigger_anchor.point p) 5000 ≡ false)
      × (r.vehicle ≡ t.vehicle_state)

  abbrev gathered : Gathered geo → List (GpsSample geo)
  gathered (lost ss) = ss
  gathered cancelled = []
  gathered (complete ss) = ss

  -- The samples are the fixes of the readings, each with the time of its reading.
  abbrev pub Sampled : List (Reading geo) → List (GpsSample geo) → Type 0
  Sampled [] [] = Unit
  Sampled [] (s ∷ ss) = ⊥
  Sampled (r ∷ rs) [] = ⊥
  Sampled (r ∷ rs) (s ∷ ss) =
      (fix_read geo r.gps ≡ some s.point) × (s.at ≡ r.read_at) × Sampled rs ss

  collect_fix_lem :
      (t : Trigger geo) (r : Reading geo) (o : Option (geo.float × geo.float))
      (samples : List (GpsSample geo))
      → (collect_fix geo t r o samples).1 ≡ true
      → (p : geo.float × geo.float) × (o ≡ some p)
        × (geo.above (geo.distance t.trigger_anchor.point p) 5000 ≡ false)
        × (r.vehicle ≡ t.vehicle_state)
        × ((collect_fix geo t r o samples).0 ≡ samples ++ record { point = p; at = r.read_at } ∷ [])
  unfolding collect_fix
  collect_fix_lem t r none samples h = cc
  collect_fix_lem t r (some p) samples h =
      elim (Bool-cases (geo.above (geo.distance t.trigger_anchor.point p) 5000)) [
        | inl e ↦ let h' = rw e at h in cc
        | inr e ↦ let same = simp e at h in (p, refl, e, (str_eq_iff _ _).0 same, simp e refl)
      ]

  gather-complete :
      (n : ℕ) (t : Trigger geo) (rs : List (Reading geo)) (samples found : List (GpsSample geo))
      → gather geo n t rs samples ≡ complete found
      → All (Steady t) (take n rs)
        × (n ≤ length rs)
        × (new : List (GpsSample geo)) × (found ≡ samples ++ new)
        × Sampled (take n rs) new
  unfolding gather collect
  gather-complete zero t rs samples found h =
      (tt, omega arith, [], sym (ap gathered h) ∙ sym (append-nil samples), tt)
  gather-complete (suc n) t [] samples found h = cc
  gather-complete (suc n) t (r ∷ rs) samples found h =
      elim (Bool-cases (collect geo t r samples).1) [
        | inr e ↦ let h' = simp e at h in cc
        | inl e ↦
            let (p, fix, plausible, same, longer) =
              collect_fix_lem t r (fix_read geo r.gps) samples e in
            let (rest, enough, new, is, sampled) =
              gather-complete n t rs (collect geo t r samples).0 found (simp e at h) in
            (
              ((p, fix, plausible, same), rest),
              omega (arith, enough),
              record { point = p; at = r.read_at } ∷ new,
              is
                  ∙ ap (λ ss. ss ++ new) longer
                  ∙ append_assoc samples (record { point = p; at = r.read_at } ∷ []) new,
              (fix, refl, sampled),
            )
      ]

  -- The test of `judge`, at any count and any last sample.
  judged_lem :
      (n : ℕ) (far : Bool) (last found : GpsSample geo) (why : Rejection) (v : Verdict geo)
      → (if leb min_consistent n && far then confirmed found else rejected why) ≡ v
      → v ≡ confirmed last
      → (min_consistent ≤ n) × (far ≡ true) × (found ≡ last)
  judged_lem n far last found why v e h = ground (arith, e, h)

  judge-confirmed :
      (t : Trigger geo) (samples : List (GpsSample geo)) (last : GpsSample geo)
      → judge geo t samples ≡ confirmed last
      → (min_consistent ≤ consistent_segments geo (ema_smooth geo samples))
        × (last ≡ last_of geo t.trigger_anchor (ema_smooth geo samples))
        × (geo.reaches (geo.distance t.trigger_anchor.point last.point) 30 ≡ true)
  unfolding judge
  judge-confirmed t samples last h =
      let smoothed = ema_smooth geo samples in
      let (enough, far, same) =
        judged_lem (consistent_segments geo smoothed)
          (geo.reaches
            (geo.distance t.trigger_anchor.point (last_of geo t.trigger_anchor smoothed).point) 30)
          last (last_of geo t.trigger_anchor smoothed) _ (judge geo t samples) refl h in
      (
        enough,
        sym same,
        subst (λ s. geo.reaches (geo.distance t.trigger_anchor.point s.point) 30 ≡ true) same far,
      )

  verdict_of-confirmed :
      (t : Trigger geo) (g : Gathered geo) (last : GpsSample geo)
      → verdict_of geo t g ≡ confirmed last
      → (found : List (GpsSample geo)) × (g ≡ complete found) × (judge geo t found ≡ confirmed last)
  unfolding verdict_of
  verdict_of-confirmed t (lost ss) last h = cc
  verdict_of-confirmed t cancelled last h = cc
  verdict_of-confirmed t (complete ss) last h = (ss, refl, h)

  -- A movement is confirmed only after twelve readings, each with an established fix at a plausible
  -- place and in the vehicle state of the trigger; of the segments between the smoothed fixes of these
  -- readings at least six are three metres or longer, and the last of the smoothed fixes, which is
  -- the one that the verdict gives, is thirty metres or more from the anchor.
  pub run_confirmation-confirmed :
      (t : Trigger geo) (rs : List (Reading geo)) (last : GpsSample geo)
      → run_confirmation geo t rs ≡ confirmed last
      → (found : List (GpsSample geo)) × Sampled (take sample_count rs) found
        × (sample_count ≤ length rs)
        × All (Steady t) (take sample_count rs)
        × (min_consistent ≤ consistent_segments geo (ema_smooth geo found))
        × (last ≡ last_of geo t.trigger_anchor (ema_smooth geo found))
        × (geo.reaches (geo.distance t.trigger_anchor.point last.point) 30 ≡ true)
  unfolding run_confirmation
  run_confirmation-confirmed t rs last h =
      let (found, all, judged) = verdict_of-confirmed t (gather geo sample_count t rs []) last h in
      let (steady, enough, new, is, sampled) = gather-complete sample_count t rs [] found all in
      let (consistent, ending, far) = judge-confirmed t found last judged in
      (
        found,
        subst (Sampled (take sample_count rs)) (sym is) sampled,
        enough,
        steady,
        consistent,
        ending,
        far,
      )
