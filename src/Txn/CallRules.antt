-- ===== src/Txn/CallRules.antt =====
-- The rules of `Hoare` for the file operations of `Calls`.
use radio_gaga.Common.{
  ℕ, ◌≡◌, refl, ap, inl, inr, Bool, true, false, List, Option, none, some, Option-cases,
  if◌then◌else◌, ◌∙◌,
}
use radio_gaga.Txn.Disk.{
  Disk, File, FilePath, live, staging, lkg, cfg_part, bin_part, Pending, holds, absent, read, write,
  contents,
}
use radio_gaga.Txn.Calls.{
  Error, copy_failed, Done, pure, raise, or_raise, syscall, filled, rename_effect, present, rename,
  copy_opened, copy_file, write_file_sync, chmod, write_pending_file, remove_pending_file, discard,
  ◌>>=◌, ◌>>◌, chmod_failed, chmod_effect,
}
use radio_gaga.Txn.Hoare.{
  Mode, Triple, Triple-pure, Triple-raise, Triple-syscall, Triple-bind, Triple-catch, Triple-stat,
  Triple-discard, Triple-weaken,
}

read-write : (d : Disk) (p : FilePath) (f : Option File) → read (write d p f) p ≡ f
read-write d (live cfg_part) f = refl
read-write d (live bin_part) f = refl
read-write d (staging cfg_part) f = refl
read-write d (staging bin_part) f = refl
read-write d (lkg cfg_part) f = refl
read-write d (lkg bin_part) f = refl

contents-filled :
    (d : Disk) (p : FilePath) (b : List ℕ)
    → present (read d p) ≡ true
    → contents (read (write d p (filled b (read d p))) p) ≡ some b
contents-filled d p b h = elim (Option-cases (read d p)) [
  | inl n ↦ cc (ap present n)
  | inr (f, s) ↦ rw s (ap contents (read-write d p _))
]

-- A predicate that does not look at one name.
abbrev pub Stable : (Disk → Type 0) → FilePath → Type 0
Stable P p = (d : Disk) (f : Option File) → P d → P (write d p f)

module _ {mode : Mode} {C E : Disk → Type 0} (P : Disk → Type 0) (c : (d : Disk) → P d → C d)
    (e : (d : Disk) → P d → E d) where
  -- A call that changes nothing on these names.
  pub Triple-other : (x : Error) → Triple mode C P (syscall (λ n d. (tt, d)) x) (λ _. P) E
  Triple-other x = Triple-syscall _ x c (λ n d h. h) (λ d _ h. e d h)

  pub Triple-write_file_sync :
      (p : FilePath) (bytes : List ℕ) (perm : ℕ)
      → Stable P p
      → Triple mode C P
          (write_file_sync p bytes perm)
          (λ _ d. P d × (contents (read d p) ≡ some bytes))
          E
  unfolding write_file_sync
  Triple-write_file_sync p bytes perm stable =
      Triple-bind _ _ (λ _. P) (Triple-other _)
        (λ _.
          Triple-bind _ _ (λ _ d. P d × (contents (read d p) ≡ some bytes))
            (Triple-syscall _ _ c (λ n d h. (stable d _ h, ap contents (read-write d p _)))
              (λ d _ h. e d h))
            (λ _. Triple-syscall _ _ (λ d h. c d h.0) (λ n d h. h) (λ d _ h. e d h.0)))

  pub Triple-discard_raise :
      {A : Type 0} (p : FilePath) (x : Error) {Q : A → Disk → Type 0}
      → Stable P p
      → Triple mode C P (discard p >> raise x) Q E
  Triple-discard_raise p x stable =
      Triple-bind _ _ (λ _. P) (Triple-discard p c (λ d h. stable d none h) (λ d _ h. h))
        (λ _. Triple-raise x e)

  Triple-copy_opened :
      (source : File) (dst : FilePath)
      → Stable P dst
      → Triple mode C P
          (copy_opened source dst)
          (λ _ d. P d × (contents (read d dst) ≡ some source.bytes))
          E
  unfolding copy_opened
  Triple-copy_opened source dst stable =
      Triple-bind _ _ (λ _. P) (Triple-other _)
        (λ _.
          Triple-bind _ _ (λ _ d. P d × (present (read d dst) ≡ true))
            (Triple-syscall _ _ c (λ n d h. (stable d _ h, ap present (read-write d dst _)))
              (λ d _ h. e d h))
            (λ _.
              Triple-bind _ _ (λ _ d. P d × (contents (read d dst) ≡ some source.bytes))
                (Triple-catch _ _ P
                  (Triple-syscall _ _ (λ d h. c d h.0)
                    (λ n d h. (stable d _ h.0, contents-filled d dst source.bytes h.1))
                    (λ d _ h. h.0))
                  (λ x. Triple-discard_raise dst x stable))
                (λ _.
                  Triple-bind _ _ (λ _ d. P d × (contents (read d dst) ≡ some source.bytes))
                    (Triple-catch _ _ P
                      (Triple-syscall _ _ (λ d h. c d h.0) (λ n d h. h) (λ d _ h. h.0))
                      (λ x. Triple-discard_raise dst x stable))
                    (λ _. Triple-syscall _ _ (λ d h. c d h.0) (λ n d h. h) (λ d _ h. e d h.0)))))

module _ {mode : Mode} {C E : Disk → Type 0} (P : Disk → Type 0) (c : (d : Disk) → P d → C d)
    (e : (d : Disk) → P d → E d) where
  copy_found :
      (dst : FilePath) (b : List ℕ)
      → Stable P dst
      → (found : Option File)
      → Triple mode C
          (λ d. P d × (contents found ≡ some b))
          (or_raise copy_failed found >>= λ f. copy_opened f dst)
          (λ _ d. P d × (contents (read d dst) ≡ some b))
          E
  copy_found dst b stable none = Triple-raise _ (λ d h. e d h.0)
  copy_found dst b stable (some f) =
      Triple-weaken Q E (λ _ d. Q d × (contents (read d dst) ≡ some f.bytes)) _
        (Triple-copy_opened Q (λ d h. c d h.0) (λ d h. e d h.0) f dst
          (λ d g h. (stable d g h.0, h.1)))
        (λ d h. h) (λ _ d h. (h.0.0, h.1 ∙ h.0.1)) (λ d h. h)
    where
      Q : Disk → Type 0
      Q d = P d × (contents (some f) ≡ some b)

  -- The copy reads `b` from `src` and leaves it under the new name.
  pub Triple-copy_file :
      (src dst : FilePath) (b : List ℕ)
      → Stable P dst
      → ((d : Disk) → P d → contents (read d src) ≡ some b)
      → Triple mode C P (copy_file src dst) (λ _ d. P d × (contents (read d dst) ≡ some b)) E
  unfolding copy_file
  Triple-copy_file src dst b stable source =
      Triple-bind _ _ (λ found d. P d × (contents found ≡ some b))
        (Triple-catch _ _ P (Triple-stat src _ c (λ d h. (h, source d h)) (λ d _ h. h))
          (λ _. Triple-raise _ e))
        (copy_found dst b stable)

  -- A mode is set; the predicate does not look at modes.
  chmod_answer : (b : Bool) → Triple mode C P (if b then pure tt else raise chmod_failed) (λ _. P) E
  chmod_answer true = Triple-pure tt (λ d h. h)
  chmod_answer false = Triple-raise _ e

  pub Triple-chmod :
      (p : FilePath) (perm : ℕ)
      → ((d : Disk) (f : Option File) → read d p ≡ f → P d → P (chmod_effect p perm f d).1)
      → Triple mode C P (chmod p perm) (λ _. P) E
  unfolding chmod
  Triple-chmod p perm kept =
      Triple-bind _ _ (λ _. P)
        (Triple-syscall _ _ c (λ n d h. kept d (read d p) refl h) (λ d _ h. e d h)) chmod_answer

abbrev Renamed : (Done → Disk → Type 0) → (Disk → Type 0) → Bool → Disk → Type 0
Renamed Q E true d = Q tt d
Renamed Q E false d = E d

rename_call :
    (Q : Done → Disk → Type 0) (E : Disk → Type 0) (from to : FilePath) (d : Disk) (f : Option File)
    → read d from ≡ f
    → (f ≡ none → E d)
    → ((g : File) → f ≡ some g → Q tt (write (write d from none) to (some g)))
    → Renamed Q E (rename_effect from to f d).0 (rename_effect from to f d).1
rename_call Q E from to d none eq missing moved = missing refl
rename_call Q E from to d (some g) eq missing moved = moved g refl

module _ (mode : Mode) (C E : Disk → Type 0) (Q : Done → Disk → Type 0) where
  rename_answer :
      (x : Error) (b : Bool) → Triple mode C (Renamed Q E b) (if b then pure tt else raise x) Q E
  rename_answer x true = Triple-pure tt (λ d h. h)
  rename_answer x false = Triple-raise _ (λ d h. h)

module _ {mode : Mode} {C E P : Disk → Type 0} {Q : Done → Disk → Type 0} where
  -- A move, where the source must be there; what the new name held is gone.
  pub Triple-rename :
      (from to : FilePath) (x : Error)
      → ((d : Disk) → P d → C d)
      → ((d : Disk) → P d → read d from ≡ none → E d)
      → ((d : Disk) (g : File)
          → P d
          → read d from ≡ some g
          → Q tt (write (write d from none) to (some g)))
      → ((d : Disk) → mode.calm ≡ false → P d → E d)
      → Triple mode C P (rename from to x) Q E
  unfolding rename
  Triple-rename from to x c missing moved e =
      Triple-bind _ _ (Renamed Q E)
        (Triple-syscall _ x c
          (λ n d h.
            rename_call Q E from to d (read d from) refl (missing d h) (λ g s. moved d g h s))
          e)
        (rename_answer mode C E Q x)

  pub Triple-write_pending :
      (p : Pending)
      → ((d : Disk) → P d → C d)
      → ((d : Disk) → P d → Q tt (record d { marker = holds p }))
      → ((d : Disk) → mode.calm ≡ false → P d → E d)
      → Triple mode C P (write_pending_file p) Q E
  unfolding write_pending_file
  Triple-write_pending p c q e =
      Triple-bind _ _ (λ _. P) (Triple-syscall _ _ c (λ n d h. h) e)
        (λ _. Triple-syscall _ _ c (λ n d h. q d h) e)

  pub Triple-remove_pending :
      ((d : Disk) → P d → C d)
      → ((d : Disk) → P d → Q tt (record d { marker = absent }))
      → ((d : Disk) → mode.calm ≡ false → P d → E d)
      → Triple mode C P remove_pending_file Q E
  unfolding remove_pending_file
  Triple-remove_pending c q e = Triple-syscall _ _ c (λ n d h. q d h) e
