-- ===== src/Txn/Hoare.antt =====
-- A logic for the calls of `Calls`: a postcondition for a return, one for an error, and a condition
-- that holds of the disk wherever the program may crash.
use radio_gaga.Common.{ℕ, ◌≡◌, refl, Bool, true, false, List, [], ◌∷◌, Option, none, if◌then◌else◌}
use radio_gaga.Txn.Disk.{Disk, File, FilePath, read, write}
use radio_gaga.Txn.Calls.{
  Fault, goes_on, fails, crashes, World, Error, Outcome, done, failed, crashed, M, Done, pure,
  raise, and_then, recover_with, ◌>>=◌, catch, answer, syscall, stat, discard,
}

-- Which faults are considered: all of them, or in a calm mode no failures, in a quiet one no crashes.
pub record Mode : Type 0 where
  pub calm : Bool
  pub quiet : Bool

abbrev pub any_fault : Mode
any_fault = record { calm = false; quiet = false }

abbrev pub calmly : Bool → Mode
calmly q = record { calm = true; quiet = q }

abbrev pub Allowed : Mode → List Fault → Type 0
Allowed mode [] = Unit
Allowed mode (goes_on ∷ r) = Allowed mode r
Allowed mode (fails ∷ r) = (mode.calm ≡ false) × Allowed mode r
Allowed mode (crashes ∷ r) = mode.quiet ≡ false

module _ {A : Type 0} where
  abbrev pub Ensures :
      Mode → (Disk → Type 0) → (A → Disk → Type 0) → (Disk → Type 0) → Outcome A → Type 0
  Ensures mode C Q E (done a w) = Allowed mode w.faults × Q a w.disk
  Ensures mode C Q E (failed e w) = Allowed mode w.faults × E w.disk
  Ensures mode C Q E (crashed d) = (mode.quiet ≡ false) × C d

  pub record Triple (mode : Mode) (C P : Disk → Type 0) (m : M A) (Q : A → Disk → Type 0)
      (E : Disk → Type 0) : Type 0 where
    pub at : (w : World) → Allowed mode w.faults → P w.disk → Ensures mode C Q E (m w)

module _ {A : Type 0} (mode : Mode) (C E : Disk → Type 0) where
  Ensures-answer :
      (fs : List Fault) (act : ℕ → Disk → A × Disk) (e : Error) (n : ℕ) (d : Disk)
      (Q : A → Disk → Type 0)
      → Allowed mode fs
      → C d
      → Q (act n d).0 (act n d).1
      → (mode.calm ≡ false → E d)
      → Ensures mode C Q E (answer fs act e n d)
  Ensures-answer [] act e n d Q a c q f = (a, q)
  Ensures-answer (goes_on ∷ r) act e n d Q a c q f = (a, q)
  Ensures-answer (fails ∷ r) act e n d Q a c q f = (a.1, f a.0)
  Ensures-answer (crashes ∷ r) act e n d Q a c q f = (a, c)

module _ {mode : Mode} {C : Disk → Type 0} {E : Disk → Type 0} {A : Type 0} where
  pub Triple-pure :
      (a : A) {P : Disk → Type 0} {Q : A → Disk → Type 0}
      → ((d : Disk) → P d → Q a d)
      → Triple mode C P (pure a) Q E
  Triple-pure a q = record { at = λ w h p. (h, q w.disk p) }

  pub Triple-raise :
      (e : Error) {P : Disk → Type 0} {Q : A → Disk → Type 0}
      → ((d : Disk) → P d → E d)
      → Triple mode C P (raise e) Q E
  Triple-raise e q = record { at = λ w h p. (h, q w.disk p) }

  pub Triple-if :
      (b : Bool) {P : Disk → Type 0} {Q : A → Disk → Type 0} {m n : M A}
      → (b ≡ true → Triple mode C P m Q E)
      → (b ≡ false → Triple mode C P n Q E)
      → Triple mode C P (if b then m else n) Q E
  Triple-if true t e = t refl
  Triple-if false t e = e refl

  pub Triple-syscall :
      {P : Disk → Type 0} {Q : A → Disk → Type 0} (act : ℕ → Disk → A × Disk) (e : Error)
      → ((d : Disk) → P d → C d)
      → ((n : ℕ) (d : Disk) → P d → Q (act n d).0 (act n d).1)
      → ((d : Disk) → mode.calm ≡ false → P d → E d)
      → Triple mode C P (syscall act e) Q E
  unfolding syscall
  Triple-syscall {Q} act e c q f = record {
    at = λ w h p.
        Ensures-answer mode C E w.faults act e w.fresh w.disk Q h (c w.disk p) (q w.fresh w.disk p)
          (λ b. f w.disk b p);
  }

module _ (mode : Mode) (C E : Disk → Type 0) {A : Type 0} where
  Ensures-and_then :
      {B : Type 0} (Q : A → Disk → Type 0) (R : B → Disk → Type 0) (o : Outcome A) (f : A → M B)
      → Ensures mode C Q E o
      → ((a : A) → Triple mode C (Q a) (f a) R E)
      → Ensures mode C R E (and_then o f)
  Ensures-and_then Q R (done a w) f h t = (t a).at w h.0 h.1
  Ensures-and_then Q R (failed e w) f h t = h
  Ensures-and_then Q R (crashed d) f h t = h

  Ensures-recover :
      (F : Disk → Type 0) (Q : A → Disk → Type 0) (o : Outcome A) (f : Error → M A)
      → Ensures mode C Q F o
      → ((e : Error) → Triple mode C F (f e) Q E)
      → Ensures mode C Q E (recover_with o f)
  Ensures-recover F Q (done a w) f h t = h
  Ensures-recover F Q (failed e w) f h t = (t e).at w h.0 h.1
  Ensures-recover F Q (crashed d) f h t = h

  Ensures-weaken :
      (F : Disk → Type 0) (Q R : A → Disk → Type 0) (o : Outcome A)
      → Ensures mode C Q F o
      → ((a : A) (d : Disk) → Q a d → R a d)
      → ((d : Disk) → F d → E d)
      → Ensures mode C R E o
  Ensures-weaken F Q R (done a w) h q e = (h.0, q a w.disk h.1)
  Ensures-weaken F Q R (failed _ w) h q e = (h.0, e w.disk h.1)
  Ensures-weaken F Q R (crashed d) h q e = h

module _ {mode : Mode} {C P E : Disk → Type 0} {A B : Type 0} where
  pub Triple-bind :
      (m : M A) (f : A → M B) (Q : A → Disk → Type 0) {R : B → Disk → Type 0}
      → Triple mode C P m Q E
      → ((a : A) → Triple mode C (Q a) (f a) R E)
      → Triple mode C P (m >>= f) R E
  Triple-bind m f Q {R} tm tf = record {
    at = λ w h p. Ensures-and_then mode C E Q R (m w) f (tm.at w h p) tf;
  }

module _ {mode : Mode} {C P E : Disk → Type 0} {A : Type 0} where
  pub Triple-catch :
      (m : M A) (f : Error → M A) (F : Disk → Type 0) {Q : A → Disk → Type 0}
      → Triple mode C P m Q F
      → ((e : Error) → Triple mode C F (f e) Q E)
      → Triple mode C P (catch m f) Q E
  Triple-catch m f F {Q} tm tf = record {
    at = λ w h p. Ensures-recover mode C E F Q (m w) f (tm.at w h p) tf;
  }

  pub Triple-weaken :
      (P' F : Disk → Type 0) (Q : A → Disk → Type 0) {R : A → Disk → Type 0} (m : M A)
      → Triple mode C P' m Q F
      → ((d : Disk) → P d → P' d)
      → ((a : A) (d : Disk) → Q a d → R a d)
      → ((d : Disk) → F d → E d)
      → Triple mode C P m R E
  Triple-weaken P' F Q {R} m t p q e = record {
    at = λ w h x. Ensures-weaken mode C E F Q R (m w) (t.at w h (p w.disk x)) q e;
  }

-- The calls that are used as they are.
module _ {mode : Mode} {C P E : Disk → Type 0} where
  pub Triple-stat :
      (p : FilePath) (Q : Option File → Disk → Type 0)
      → ((d : Disk) → P d → C d)
      → ((d : Disk) → P d → Q (read d p) d)
      → ((d : Disk) → mode.calm ≡ false → P d → E d)
      → Triple mode C P (stat p) Q E
  unfolding stat
  Triple-stat p Q c q e = Triple-syscall _ _ c (λ n d h. q d h) e

  -- A failure of the removal is dropped, so `Q` holds of the untouched disk too.
  pub Triple-discard :
      (p : FilePath) {Q : Done → Disk → Type 0}
      → ((d : Disk) → P d → C d)
      → ((d : Disk) → P d → Q tt (write d p none))
      → ((d : Disk) → mode.calm ≡ false → P d → Q tt d)
      → Triple mode C P (discard p) Q E
  unfolding discard
  Triple-discard p {Q} c q f =
      Triple-catch _ _ (Q tt)
        (Triple-bind _ _ (λ _ d. Q tt d) (Triple-syscall _ _ c (λ n d h. q d h) f)
          (λ _. Triple-pure tt (λ d h. h)))
        (λ _. Triple-pure tt (λ d h. h))

pub Triple-never :
    {mode : Mode} {C P E : Disk → Type 0} {A : Type 0} (m : M A) {Q : A → Disk → Type 0}
    → ((d : Disk) → P d → ⊥)
    → Triple mode C P m Q E
Triple-never m never = record { at = λ w h p. absurd (never w.disk p) }
