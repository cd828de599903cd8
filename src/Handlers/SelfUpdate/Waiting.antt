-- ===== src/Handlers/SelfUpdate/Waiting.antt =====
-- Who is answered by a flight of internal/handlers/self_update_state.go.
use radio_gaga.Common.{
  ℕ, zero, suc, ◌+◌, ◌-◌, ◌≡◌, inl, inr, refl, ap, false, List, [], ◌∷◌, Option, none, some, ◌==◌,
  length, Bool-cases, arith,
}
use radio_gaga.Handlers.SelfUpdate.{
  UpdateError, Key, same_key, Flight, Arrival, begins, waits, turned_away, arrive, give_up,
  same_answers, land,
}

-- A command arrives, a waiting one gives up, or the flight lands.
pub data Happening : Type 0 where
  arrives : Key → Happening
  gives_up : Happening
  lands : Option UpdateError → Happening

-- The flight, how many commands arrived, how many updates began and landed, and how many were answered.
pub record Coordination : Type 0 where
  pub active : Option Flight
  pub arrived : ℕ
  pub begun : ℕ
  pub landed : ℕ
  pub answered : ℕ

abbrev pub begun_by : Arrival → ℕ
begun_by begins = 1
begun_by waits = 0
begun_by (turned_away e) = 0

abbrev pub answered_by : Arrival → ℕ
answered_by begins = 0
answered_by waits = 0
answered_by (turned_away e) = 1

abbrev pub flights : Option Flight → ℕ
flights none = 0
flights (some f) = 1

abbrev pub unanswered : Option Flight → ℕ
unanswered none = 0
unanswered (some f) = suc f.waiting

unfoldable pub happen : Happening → Coordination → Coordination
happen (arrives k) c =
    let (active, arrival) = arrive k c.active in
    record {
      active = active;
      arrived = c.arrived + 1;
      begun = c.begun + begun_by arrival;
      landed = c.landed;
      answered = c.answered + answered_by arrival;
    }
happen gives_up c =
    let (active, answers) = give_up c.active in
    record c { active = active; answered = c.answered + length answers }
happen (lands e) c =
    let (active, answers) = land e c.active in
    record c {
      active = active;
      landed = c.landed + flights c.active;
      answered = c.answered + length answers;
    }

unfoldable pub happens : List Happening → Coordination → Coordination
happens [] c = c
happens (e ∷ es) c = happens es (happen e c)

abbrev pub nobody : Coordination
nobody = record { active = none; arrived = 0; begun = 0; landed = 0; answered = 0 }

abbrev Balanced : Coordination → Type 0
Balanced c =
    (c.begun ≡ c.landed + flights c.active) × (c.arrived ≡ c.answered + unanswered c.active)

length-same_answers : (n : ℕ) (e : Option UpdateError) → length (same_answers n e) ≡ n
length-same_answers zero e = refl
length-same_answers (suc n) e = ap suc (length-same_answers n e)

arrive_lem :
    (k : Key) (o : Option Flight)
    → (flights (arrive k o).0 ≡ flights o + begun_by (arrive k o).1)
      × (unanswered o + 1 ≡ answered_by (arrive k o).1 + unanswered (arrive k o).0)
unfolding arrive
arrive_lem k none = (omega arith, omega arith)
arrive_lem k (some f) = elim (Bool-cases (same_key f.key k)) [
  | inl e ↦ simp e (omega arith, omega arith)
  | inr e ↦ simp e (omega arith, omega arith)
]

one_less : (n : ℕ) → (n == 0) ≡ false → suc n ≡ 1 + suc (n - 1)
one_less n h = ground (arith, h)

give_up_lem :
    (o : Option Flight)
    → (flights (give_up o).0 ≡ flights o)
      × (unanswered o ≡ length (give_up o).1 + unanswered (give_up o).0)
unfolding give_up
give_up_lem none = (refl, omega arith)
give_up_lem (some f) = elim (Bool-cases (f.waiting == 0)) [
  | inl e ↦ simp e (refl, omega arith)
  | inr e ↦ simp e (refl, one_less f.waiting e)
]

land_lem :
    (e : Option UpdateError) (o : Option Flight)
    → (flights (land e o).0 ≡ 0) × (unanswered o ≡ length (land e o).1 + unanswered (land e o).0)
unfolding land
land_lem e none = (refl, omega arith)
land_lem e (some f) = (refl, omega (arith, length-same_answers f.waiting e))

happen-Balanced : (e : Happening) (c : Coordination) → Balanced c → Balanced (happen e c)
unfolding happen
happen-Balanced (arrives k) c b =
    let l = arrive_lem k c.active in (omega (arith, b, l), omega (arith, b, l))
happen-Balanced gives_up c b =
    let l = give_up_lem c.active in (omega (arith, b, l), omega (arith, b, l))
happen-Balanced (lands e) c b =
    let l = land_lem e c.active in (omega (arith, b, l), omega (arith, b, l))

happens-Balanced : (es : List Happening) (c : Coordination) → Balanced c → Balanced (happens es c)
unfolding happens
happens-Balanced [] c b = b
happens-Balanced (e ∷ es) c b = happens-Balanced es (happen e c) (happen-Balanced e c b)

-- Whatever commands arrive or give up, and whenever a flight lands: the updates that began are those that
-- landed and the one in progress, if there is one, and every command that arrived has been
-- answered, or is the one of the flight, or waits for it.
pub happens-nobody :
    (es : List Happening)
    → ((happens es nobody).begun ≡ (happens es nobody).landed + flights (happens es nobody).active)
      × ((happens es nobody).arrived
          ≡ (happens es nobody).answered + unanswered (happens es nobody).active)
happens-nobody es = happens-Balanced es nobody (omega arith, omega arith)
