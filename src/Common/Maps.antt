-- ===== src/Common/Maps.antt =====
-- A Go map with text keys, as an association list: a missing key reads as `none`.
use Prim.Native.String.{String}
use mathlib.Core.Path.{◌≡◌, refl}
use mathlib.Core.Option.{Option, none, some}
use mathlib.Core.List.{List, [], ◌∷◌}
use native.Mathlib.Omega.{arith}
use text.Mathlib.Text.{◌==◌ as str_eq}
use text.Mathlib.TextEquality.{eq_iff as str_eq_iff}
use radio_gaga.Common.Tests.{or_else, if◌then◌else◌, Bool-cases}
use radio_gaga.Common.Lists.{All, length}
use mathlib.Core.Logic.{inl, inr}
use Prim.Native.Nat.{◌<◌}

module _ {ℓ} {V : Type ℓ} where
  unfoldable pub lookup : String → List (String × V) → Option V
  lookup k [] = none
  lookup k ((j, v) ∷ m) = if str_eq j k then some v else lookup k m

  unfoldable pub insert : String → V → List (String × V) → List (String × V)
  insert k v [] = (k, v) ∷ []
  insert k v ((j, w) ∷ m) = if str_eq j k then (k, v) ∷ m else (j, w) ∷ insert k v m

  unfoldable pub delete : String → List (String × V) → List (String × V)
  delete k [] = []
  delete k ((j, w) ∷ m) = let rest = delete k m in if str_eq j k then rest else (j, w) ∷ rest

  pub lookup-insert :
      (k j : String) (v : V) (m : List (String × V))
      → lookup j (insert k v m) ≡ (if str_eq k j then some v else lookup j m)
  unfolding lookup insert
  lookup-insert k j v [] = refl
  lookup-insert k j v ((i, w) ∷ m) =
      ground (arith, str_eq_iff k j, str_eq_iff i k, str_eq_iff i j, lookup-insert k j v m)

  pub lookup-delete :
      (k j : String) (m : List (String × V))
      → lookup j (delete k m) ≡ (if str_eq k j then none else lookup j m)
  unfolding lookup delete
  lookup-delete k j [] = ground arith
  lookup-delete k j ((i, w) ∷ m) =
      ground (arith, str_eq_iff k j, str_eq_iff i k, str_eq_iff i j, lookup-delete k j m)

  pub insert-All {κ} :
      (P : String × V → Type κ) (k : String) (v : V) (m : List (String × V))
      → P (k, v)
      → All P m
      → All P (insert k v m)
  unfolding insert
  insert-All P k v [] p ps = (p, tt)
  insert-All P k v ((j, w) ∷ m) p ps = elim (Bool-cases (str_eq j k)) [
    | inl e ↦ rw e (p, ps.1)
    | inr e ↦ rw e (ps.0, insert-All P k v m p ps.1)
  ]

  pub length-insert : (k : String) (v : V) (m : List (String × V)) → 0 < length (insert k v m)
  unfolding insert
  length-insert k v [] = omega arith
  length-insert k v ((j, w) ∷ m) = ground arith

-- A Go map with text values, where a missing key reads as the empty text.
abbrev pub get : String → List (String × String) → String
get k m = or_else "" (lookup k m)

pub get-insert :
    (k j v : String) (m : List (String × String))
    → get j (insert k v m) ≡ (if str_eq k j then v else get j m)
get-insert k j v m = elim (Bool-cases (str_eq k j)) [
  | inl e ↦ rw (lookup-insert, e) refl
  | inr e ↦ rw (lookup-insert, e) refl
]
