-- ===== src/RideGroup/Channels/Window.antt =====
-- What the bounded channels of internal/ridegroup/egress.go hold.
use radio_gaga.Common.{
  ℕ, zero, suc, ◌+◌, ◌-◌, ◌≤◌, ◌≡◌, inl, inr, refl, sym, ap, subst, ◌∙◌, true, false, String, List,
  [], ◌∷◌, ◌++◌, map, ltb, length, drop, length-append, length-drop, Bool-cases, ℤ, arith,
}
use mathlib.Core.List.{append_assoc, append-nil}
use radio_gaga.RideGroup.Channels.{
  RedisPublication, queue_size, publication_of, make_room, enqueue, queue_redis_publication,
}

-- What one call asks for: the time, the channel, the payload and the age.
pub record Request : Type 0 where
  pub now : ℕ
  pub channel : String
  pub payload : String
  pub max_age : ℤ

abbrev pub requested : Request → RedisPublication
requested r = publication_of r.now r.channel r.payload r.max_age

unfoldable pub queue_all : List Request → List RedisPublication → List RedisPublication
queue_all [] q = q
queue_all (r ∷ rs) q = queue_all rs (queue_redis_publication r.now r.channel r.payload r.max_age q)

-- The newest eight of a list.
unfoldable pub window : List RedisPublication → List RedisPublication
window q = drop (length q - queue_size) q

nothing_over : (n : ℕ) → n ≤ queue_size → n - queue_size ≡ 0
nothing_over n h = omega (arith, h)

window-small : (q : List RedisPublication) → length q ≤ queue_size → window q ≡ q
unfolding window
window-small q h = ap (λ n. drop n q) (nothing_over (length q) h)

length-window : (q : List RedisPublication) → length (window q) ≤ queue_size
unfolding window
length-window q = omega (arith, length-drop (length q - queue_size) q)

room : (q : List RedisPublication) → ltb (length q) queue_size ≡ true → length q + 1 ≤ queue_size
room q e = ground (arith, e)

full : (n : ℕ) → ltb (suc n) queue_size ≡ false → suc n ≤ queue_size → n ≡ 7
full n e h = ground (arith, e, h)

one_over :
    (q : List RedisPublication) (p : RedisPublication)
    → length q ≡ 7
    → suc (length (q ++ p ∷ [])) - queue_size ≡ 1
one_over q p h = omega (arith, h, length-append q (p ∷ []))

window-full :
    (x p : RedisPublication) (q : List RedisPublication)
    → length q ≡ 7
    → window (x ∷ q ++ p ∷ []) ≡ q ++ p ∷ []
unfolding window
window-full x p q h = ap (λ n. drop n (x ∷ q ++ p ∷ [])) (one_over q p h)

enqueue-window :
    (p : RedisPublication) (q : List RedisPublication)
    → length q ≤ queue_size
    → enqueue p q ≡ window (q ++ p ∷ [])
unfolding enqueue make_room
enqueue-window p [] h = sym (window-small (p ∷ []) (omega arith))
enqueue-window p (x ∷ q) h = elim (Bool-cases (ltb (suc (length q)) queue_size)) [
  | inl e ↦ rw e (
      sym (
        window-small (x ∷ q ++ p ∷ [])
          (omega (arith, room (x ∷ q) e, length-append (x ∷ q) (p ∷ [])))))
  | inr e ↦ let seven = full (length q) e h in rw e (rw seven (sym (window-full x p q seven)))
]

drop-append :
    (n : ℕ) (xs ys : List RedisPublication) → n ≤ length xs → drop n (xs ++ ys) ≡ drop n xs ++ ys
drop-append zero xs ys h = refl
drop-append (suc n) [] ys h = ground (arith, h)
drop-append (suc n) (x ∷ xs) ys h = drop-append n xs ys (omega (arith, h))

drop-nil : (n : ℕ) → drop {A = RedisPublication} n [] ≡ []
drop-nil zero = refl
drop-nil (suc n) = refl

suc_add : (n m : ℕ) → suc (n + m) ≡ suc n + m
suc_add n m = omega arith

drop-drop : (m n : ℕ) (xs : List RedisPublication) → drop m (drop n xs) ≡ drop (n + m) xs
drop-drop m zero xs = ap (λ k. drop k xs) (omega arith)
drop-drop m (suc n) [] = drop-nil m ∙ sym (drop-nil (suc n + m))
drop-drop m (suc n) (x ∷ xs) = drop-drop m n xs ∙ ap (λ k. drop k (x ∷ xs)) (suc_add n m)

window-window : (xs ys : List RedisPublication) → window (window xs ++ ys) ≡ window (xs ++ ys)
unfolding window
window-window xs ys =
    let over : ℕ = length xs - queue_size in
    let cut = drop-append over xs ys (omega arith) in
    ap (λ zs. drop (length zs - queue_size) zs) (sym cut)
    ∙ (drop-drop (length (drop over (xs ++ ys)) - queue_size) over (xs ++ ys)
        ∙ ap (λ k. drop k (xs ++ ys))
            (omega (arith, length-drop over (xs ++ ys), length-append xs ys)))

-- Whatever is asked for while the worker takes nothing, a channel with at most eight publications comes to
-- hold the newest eight of what it held and what was asked for, in their order.
pub queue_all-window :
    (rs : List Request) (q : List RedisPublication)
    → length q ≤ queue_size
    → queue_all rs q ≡ window (q ++ map requested rs)
unfolding queue_all queue_redis_publication
queue_all-window [] q h =
    sym (window-small (q ++ []) (omega (arith, h, length-append q [])) ∙ append-nil q)
queue_all-window (r ∷ rs) q h =
    let p : RedisPublication = requested r in
    let next = enqueue-window p q h in
    let bound = subst (λ xs. length xs ≤ queue_size) (sym next) (length-window (q ++ p ∷ [])) in
    queue_all-window rs (enqueue p q) bound
    ∙ (ap (λ xs. window (xs ++ map requested rs)) next
        ∙ (window-window (q ++ p ∷ []) (map requested rs)
            ∙ ap window (append_assoc q (p ∷ []) (map requested rs))))
