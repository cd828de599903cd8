-- ===== src/RideGroup/Session/Rate.antt =====
-- How often internal/ridegroup/protocol_v2_adapter.go challenges the journal.
use radio_gaga.Common.{
  if_both, ℕ, ◌≤◌, ◌<◌, ◌≡◌, ◌⊎◌, inl, inr, refl, sym, ap, subst, ◌∙◌, Bool, true, false, String,
  List, [], ◌∷◌, ◌++◌, Option, if◌then◌else◌, leb, length, Bool-cases, arith,
}
use radio_gaga.RideGroup.Session.{ProbePurpose, PreparedQuery, Session, World}
use radio_gaga.RideGroup.Session.Sending.{queue_redis}
use radio_gaga.RideGroup.Session.Probes.{
  drop_dead_probes, recent, drop_old_times, can_probe, issue_local_probe_v2, challenged,
}

-- A call of `issueLocalProbeV2Locked`.
pub record Call : Type 0 where
  pub world : World
  pub purpose : ProbePurpose
  pub query : Option PreparedQuery

abbrev pub called : Call → Session → Session × Bool
called c s = issue_local_probe_v2 c.world c.purpose c.query s

-- The times at which a list of calls issues a probe. Between two calls anything may happen to the adapter,
-- which is a function here, but to `probeTimesV2`, which nothing else writes.
unfoldable pub issued : List ((Session → Session) × Call) → Session → List ℕ
issued [] s = []
issued ((between, c) ∷ cs) s =
    let (after, sent) = called c (record (between s) { probe_times_v2 = s.probe_times_v2 }) in
    let rest = issued cs after in if sent then c.world.now ∷ rest else rest

-- The clock does not go back.
abbrev pub Clocked : ℕ → List ((Session → Session) × Call) → Type 0
Clocked lo [] = Unit
Clocked lo ((between, c) ∷ cs) = (lo ≤ c.world.now) × Clocked c.world.now cs

-- At each time of the second list, fewer than ten of the times before it are ten seconds old or younger.
abbrev pub Limited : List ℕ → List ℕ → Type 0
Limited past [] = Unit
Limited past (t ∷ ts) = (length (recent t past) < 10) × Limited (past ++ t ∷ []) ts

recent-recent : (m n : ℕ) (ts : List ℕ) → m ≤ n → recent n (recent m ts) ≡ recent n ts
unfolding recent
recent-recent m n [] h = refl
recent-recent m n (t ∷ ts) h = ground (arith, h, recent-recent m n ts h)

recent-append : (n : ℕ) (ts us : List ℕ) → recent n (ts ++ us) ≡ recent n ts ++ recent n us
unfolding recent
recent-append n [] us = refl
recent-append n (t ∷ ts) us = ground (arith, recent-append n ts us)

-- What a call does to the times of issue.
abbrev Kept : ℕ → List ℕ → Session × Bool → Type 0
Kept now ts (s, true) =
    (s.probe_times_v2 ≡ recent now ts ++ now ∷ []) × (length (recent now ts) < 10)
Kept now ts (s, false) = (s.probe_times_v2 ≡ ts) ⊎ (s.probe_times_v2 ≡ recent now ts)

below_ten : (n : ℕ) → leb 10 n ≡ false → n < 10
below_ten n h = ground (arith, h)

challenged-Kept :
    (w : World) (s : Session) (purpose : ProbePurpose) (query : Option PreparedQuery)
    (uuid : Option String) (ts : List ℕ)
    → s.probe_times_v2 ≡ recent w.now ts
    → length (recent w.now ts) < 10
    → Kept w.now ts (challenged w s purpose query uuid)
unfolding queue_redis
challenged-Kept w s purpose query uuid ts e few = ground (arith, e, few)

issue_local_probe_v2-Kept :
    (w : World) (purpose : ProbePurpose) (query : Option PreparedQuery) (s : Session)
    → Kept w.now s.probe_times_v2 (issue_local_probe_v2 w purpose query s)
unfolding issue_local_probe_v2 drop_dead_probes drop_old_times
issue_local_probe_v2-Kept w purpose query s =
    let K : Session × Bool → Type 0 = Kept w.now s.probe_times_v2 in
    let live : Session = drop_dead_probes w s in
    if_both K (can_probe w s)
      (if_both K (leb 1 (length live.journal_probes_v2)) (inl refl)
        (elim (Bool-cases (leb 10 (length (recent w.now s.probe_times_v2)))) [
          | inl e ↦ rw e (inr refl)
          | inr e ↦ rw e (
              challenged-Kept w (drop_old_times w live) purpose query w.probe_uuid s.probe_times_v2
                refl (below_ten _ e))
        ]))
      (inl refl)

-- The list `past` counts as the adapter's own does, from `lo` on.
abbrev Agree : ℕ → List ℕ → List ℕ → Type 0
Agree lo past ts = (n : ℕ) → lo ≤ n → recent n past ≡ recent n ts

Agree-later :
    (lo n : ℕ) (past ts us : List ℕ)
    → lo ≤ n
    → Agree lo past ts
    → (us ≡ ts) ⊎ (us ≡ recent n ts)
    → Agree n past us
Agree-later lo n past ts us le agree (inl e) =
    λ m h. agree m (omega (arith, le, h)) ∙ ap (recent m) (sym e)
Agree-later lo n past ts us le agree (inr e) =
    λ m h. agree m (omega (arith, le, h)) ∙ (sym (recent-recent n m ts h) ∙ ap (recent m) (sym e))

Agree-issued :
    (lo n : ℕ) (past ts : List ℕ)
    → lo ≤ n
    → Agree lo past ts
    → Agree n (past ++ n ∷ []) (recent n ts ++ n ∷ [])
Agree-issued lo n past ts le agree = λ m h.
    recent-append m past (n ∷ [])
    ∙ (ap (λ us. us ++ recent m (n ∷ []))
          (agree m (omega (arith, le, h)) ∙ sym (recent-recent n m ts h))
        ∙ sym (recent-append m (recent n ts) (n ∷ [])))

after_call :
    (lo now : ℕ) (past ts : List ℕ) (r : Session × Bool) (rest : List ℕ)
    → lo ≤ now
    → Agree lo past ts
    → Kept now ts r
    → ((past' : List ℕ) → Agree now past' r.0.probe_times_v2 → Limited past' rest)
    → Limited past (if r.1 then now ∷ rest else rest)
after_call lo now past ts (s, true) rest le agree (e, few) limited = (
  subst (λ us. length us < 10) (sym (agree now le)) few,
  limited (past ++ now ∷ [])
      (subst (Agree now (past ++ now ∷ [])) (sym e) (Agree-issued lo now past ts le agree)),
)
after_call lo now past ts (s, false) rest le agree k limited =
    limited past (Agree-later lo now past ts s.probe_times_v2 le agree k)

issued-after :
    (cs : List ((Session → Session) × Call)) (lo : ℕ) (past : List ℕ) (s : Session)
    → Clocked lo cs
    → Agree lo past s.probe_times_v2
    → Limited past (issued cs s)
unfolding issued
issued-after [] lo past s clock agree = tt
issued-after ((between, c) ∷ cs) lo past s (le, clock) agree =
    let before : Session = record (between s) { probe_times_v2 = s.probe_times_v2 } in
    let r : Session × Bool = called c before in
    after_call lo c.world.now past s.probe_times_v2 r (issued cs r.0) le agree
      (issue_local_probe_v2-Kept c.world c.purpose c.query before)
      (λ past'. λ later. issued-after cs c.world.now past' r.0 clock later)

-- On a clock that does not go back, from any state, and whatever else happens in between, a probe is
-- issued only when fewer than ten were issued in the ten seconds up to then; of those before the start
-- the adapter's own list of times is counted.
pub issued-Limited :
    (cs : List ((Session → Session) × Call)) (s : Session)
    → Clocked 0 cs
    → Limited s.probe_times_v2 (issued cs s)
issued-Limited cs s clock = issued-after cs 0 s.probe_times_v2 s clock (λ n h. refl)
