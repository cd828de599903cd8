-- ===== src/RideGroup/Session/Bounds.antt =====
-- The sizes of the maps of internal/ridegroup/protocol_v2_adapter.go, and that the loops over them end.
use radio_gaga.Common.{
  same_text, ℕ, zero, suc, ◌%◌, ◌≤◌, ◌<◌, ◌≡◌, inl, inr, Bool, true, false, ◌||◌, String, str_eq,
  List, [], ◌∷◌, ltb, leb, insert, delete, length, Bool-cases, arith,
}
use radio_gaga.Common.{if_both}
use radio_gaga.RideGroup.Session.{LocalProbe, Session, World}
use radio_gaga.RideGroup.Session.Probes.{remove_at, evict, consume_probe_v2}
use radio_gaga.RideGroup.Session.Activities.{oldest, delete_oldest, shrink, prune_challenges}

delete-shorter : (k : String) (m : List (String × ℕ)) → length (delete k m) ≤ length m
unfolding delete
delete-shorter k [] = omega arith
delete-shorter k ((j, v) ∷ m) = ground (arith, delete-shorter k m)

abbrev named : String → List (String × ℕ) → Bool
named k [] = false
named k ((j, v) ∷ m) = str_eq j k || named k m

delete-named :
    (k : String) (m : List (String × ℕ)) → named k m ≡ true → length (delete k m) < length m
unfolding delete
delete-named k [] h = cc
delete-named k ((j, v) ∷ m) h = elim (Bool-cases (str_eq j k)) [
  | inl e ↦ rw e (omega (arith, delete-shorter k m))
  | inr e ↦ rw e (omega (arith, delete-named k m (ground (arith, h, e))))
]

oldest-named :
    (x : String × ℕ) (m l : List (String × ℕ))
    → named x.0 l ≡ true
    → ((k : String) → named k m ≡ true → named k l ≡ true)
    → named (oldest x m).0 l ≡ true
oldest-named x [] l h hs = h
oldest-named x ((k, v) ∷ m) l h hs =
    if_both (λ (y : String × ℕ). named (oldest y m).0 l ≡ true) (ltb v x.1)
      (oldest-named (k, v) m l (hs k (ground (arith, same_text k)))
        (λ j. λ n. hs j (ground (arith, n))))
      (oldest-named x m l h (λ j. λ n. hs j (ground (arith, n))))

delete_oldest-shorter :
    (x : String × ℕ) (m : List (String × ℕ)) → length (delete_oldest (x ∷ m)) ≤ length m
delete_oldest-shorter x m =
    let present =
      oldest-named x m (x ∷ m) (ground (arith, same_text x.0)) (λ k. λ n. ground (arith, n)) in
    omega (arith, delete-named (oldest x m).0 (x ∷ m) present)

shrink-short : (fuel : ℕ) (m : List (String × ℕ)) → length m ≤ fuel → length (shrink fuel m) < 10
unfolding shrink
shrink-short zero m h = omega (arith, h)
shrink-short (suc fuel) [] h = omega arith
shrink-short (suc fuel) (x ∷ m) h = elim (Bool-cases (leb 10 (length (x ∷ m)))) [
  | inl e ↦
      rw e (shrink-short fuel (delete_oldest (x ∷ m)) (omega (arith, h, delete_oldest-shorter x m)))
  | inr e ↦ rw e (ground (arith, e))
]

remove_at-shorter {ℓ} :
    {A : Type ℓ} (n : ℕ) (xs : List A) → n < length xs → length (remove_at n xs) < length xs
unfolding remove_at
remove_at-shorter n [] h = ground (arith, h)
remove_at-shorter zero (x ∷ xs) h = omega arith
remove_at-shorter (suc n) (x ∷ xs) h = omega (arith, remove_at-shorter n xs (omega (arith, h)))

below_divisor : (a n : ℕ) → 0 < n → a % n < n
below_divisor a n h = omega (arith, h)

evict-short {ℓ} :
    {A : Type ℓ} (pick : ℕ → ℕ) (fuel : ℕ) (xs : List A)
    → length xs ≤ fuel
    → length (evict pick fuel xs) ≤ 10
unfolding evict
evict-short pick zero xs h = omega (arith, h)
evict-short pick (suc fuel) xs h = elim (Bool-cases (ltb 10 (length xs))) [
  | inl e ↦
      let many : 10 < length xs = ground (arith, e) in
      rw e (
        evict-short pick fuel (remove_at (pick (length xs) % length xs) xs) (
          omega (
            arith,
            h,
            remove_at-shorter (pick (length xs) % length xs) xs
                (below_divisor (pick (length xs)) (length xs) (omega (arith, many))),
          )))
  | inr e ↦ rw e (ground (arith, e))
]

-- The two loops over the maps of challenges end by themselves: fewer than ten challenges of activities
-- stay, and no more than ten of those that were answered, whichever entries the iteration meets.
pub challenges-bounded :
    (now : ℕ) (m : List (String × ℕ)) (w : World) (p : LocalProbe) (payload : String) (s : Session)
    → (length (prune_challenges now m) < 10)
      × (length (consume_probe_v2 w p payload s).used_local_challenges ≤ 10)
unfolding prune_challenges consume_probe_v2
challenges-bounded now m w p payload s = (
  shrink-short _ _ (omega arith),
  evict-short w.pick _ (insert p.challenge payload s.used_local_challenges) (omega arith),
)
