-- ===== src/RideGroup/Egress/Order.antt =====
-- The order in which the worker of internal/ridegroup/egress.go takes what waits.
use radio_gaga.Common.{
  ℕ, ◌+◌, ◌^◌, ◌≤◌, ◌<◌, ◌≡◌, inl, inr, refl, ap, ◌∙◌, String, str_eq, List, [], ◌∷◌, map, Option,
  none, some, lookup, delete, length, Bool-cases, is_some, arith,
}
use radio_gaga.RideGroup.Publication.{MqttPublication}
use radio_gaga.RideGroup.Egress.{
  Pending, Egress, new_egress, next_order, store, replaces, kind_of, queue_mqtt_publication,
  drop_pending_position, drop_pending_v2_source, unsubscription, stop_mqtt_worker, least,
  next_mqtt_publication, take_next, Seen, Attempt, unsubscribed, published, skipped, attempt, round,
  send_taken, drain, Action, queues, drops_position, drops_v2_source, stops, takes, sends, act,
  acts,
}
use radio_gaga.RideGroup.Egress.Queued.{
  Queued, delete-Apart, delete-Queued, append-Queued, next_mqtt_publication-head,
}

-- Publications whose orders rise.
abbrev pub Ascending : ℕ → List MqttPublication → Type 0
Ascending lo [] = Unit
Ascending lo (p ∷ ps) = (lo < p.order) × Ascending p.order ps

abbrev pub waiting : Pending → List MqttPublication
waiting [] = []
waiting ((k, p) ∷ m) = p ∷ waiting m

waiting-Ascending : (lo hi : ℕ) (m : Pending) → Queued lo hi m → Ascending lo (waiting m)
waiting-Ascending lo hi [] q = tt
waiting-Ascending lo hi ((k, p) ∷ m) (above, apart, q) = (above, waiting-Ascending p.order hi m q)

-- The publication that a round is about.
abbrev pub subject : Attempt → MqttPublication
subject (unsubscribed p) = p
subject (published p) = p
subject (skipped p) = p

pub attempt-subject : (s : Seen) (p : MqttPublication) → subject (attempt s p) ≡ p
unfolding attempt
attempt-subject s p = ground arith

abbrev holding : Egress → Pending → Egress
holding e m = record e { pending = m; in_hand = none }

take_next-head :
    (e : Egress) (k : String) (p : MqttPublication) (lo hi : ℕ) (m : Pending)
    → Queued lo hi ((k, p) ∷ m)
    → take_next (holding e ((k, p) ∷ m)) ≡ record e { pending = m; in_hand = some p }
unfolding take_next
take_next-head e k p lo hi m q =
    ap (λ r. record e { pending = r.1; in_hand = r.0 }) (next_mqtt_publication-head k p lo hi m q)

drain-round :
    (s : Seen) (ss : List Seen) (e : Egress) (k : String) (p : MqttPublication) (lo hi : ℕ)
    (m : Pending)
    → Queued lo hi ((k, p) ∷ m)
    → drain (s ∷ ss) (holding e ((k, p) ∷ m))
      ≡ round s (holding e m) (some p) (drain ss (holding e m))
unfolding drain
drain-round s ss e k p lo hi m q =
    ap (λ t. round s t t.in_hand (drain ss (record t { in_hand = none })))
      (take_next-head e k p lo hi m q)

drain-holding :
    (ss : List Seen) (e : Egress) (lo hi : ℕ) (m : Pending)
    → Queued lo hi m
    → length m ≤ length ss
    → ((drain ss (holding e m)).0.pending ≡ [])
      × (map subject (drain ss (holding e m)).1 ≡ waiting m)
unfolding drain take_next next_mqtt_publication
drain-holding [] e lo hi [] q h = (refl, refl)
drain-holding (s ∷ ss) e lo hi [] q h = (refl, refl)
drain-holding [] e lo hi (x ∷ m) q h = ground (arith, h)
drain-holding (s ∷ ss) e lo hi ((k, p) ∷ m) q h =
    let (empty, visited) = drain-holding ss e p.order hi m q.2 (omega (arith, h)) in
    let first = drain-round s ss e k p lo hi m q in
    (
      ap (λ r. r.0.pending) first ∙ empty,
      ap (λ r. map subject r.1) first
          ∙ (ap (λ x. x ∷ map subject (drain ss (holding e m)).1) (attempt-subject s p)
              ∙ ap (λ ps. p ∷ ps) visited),
    )

next_mqtt_publication-Queued :
    (hi : ℕ) (m : Pending) → Queued 0 hi m → Queued 0 hi (next_mqtt_publication m).1
unfolding next_mqtt_publication
next_mqtt_publication-Queued hi [] q = q
next_mqtt_publication-Queued hi (x ∷ m) q = delete-Queued (least x m).0 0 hi (x ∷ m) q

-- The invariant of the queue, over `n` actions.
abbrev Ordered : ℕ → Egress → Type 0
Ordered n e = Queued 0 e.order e.pending × (e.order ≤ n)

next_order-small : (n : ℕ) → n + 1 < 2 ^ 64 → next_order n ≡ n + 1
unfolding next_order
next_order-small n h = omega (arith, h)

queue_mqtt_publication-Ordered :
    (p : MqttPublication) (n : ℕ) (e : Egress)
    → Ordered n e
    → n + 1 < 2 ^ 64
    → Ordered (n + 1) (queue_mqtt_publication p e)
unfolding queue_mqtt_publication store
queue_mqtt_publication-Ordered p n e (q, le) h = elim (Bool-cases e.closing) [
  | inl c ↦ rw c (q, omega (arith, le))
  | inr c ↦ rw c (elim (Bool-cases (replaces p (kind_of p) (lookup (kind_of p) e.pending))) [
    | inl r ↦ rw r (
        rw (next_order-small e.order (omega (arith, le, h))) (
          append-Queued (kind_of p) (record p { kind = kind_of p; order = e.order + 1 }) 0 e.order
              (delete (kind_of p) e.pending) (delete-Queued (kind_of p) 0 e.order e.pending q)
              (delete-Apart (kind_of p) e.pending) (omega arith),
          omega (arith, le),
        ))
    | inr r ↦ rw r (q, omega (arith, le))
  ])
]

stop_mqtt_worker-Ordered :
    (client : Option ℕ) (topic : String) (n : ℕ) (e : Egress)
    → Ordered n e
    → n + 1 < 2 ^ 64
    → Ordered (n + 1) (stop_mqtt_worker client topic e)
unfolding stop_mqtt_worker unsubscription
stop_mqtt_worker-Ordered none topic n e (q, le) h = (omega arith, omega (arith, le))
stop_mqtt_worker-Ordered (some c) topic n e (q, le) h = elim (Bool-cases (str_eq topic "")) [
  | inl t ↦ rw t (omega arith, omega (arith, le))
  | inr t ↦ rw t (
      rw (next_order-small e.order (omega (arith, le, h)))
        ((omega arith, tt, omega arith), omega (arith, le)))
]

take_next-Ordered : (n : ℕ) (e : Egress) → Ordered n e → Ordered (n + 1) (take_next e)
unfolding take_next
take_next-Ordered n e (q, le) =
    (next_mqtt_publication-Queued e.order e.pending q, omega (arith, le))

act-Ordered :
    (a : Action) (n : ℕ) (e : Egress) → Ordered n e → n + 1 < 2 ^ 64 → Ordered (n + 1) (act a e).0
unfolding act drop_pending_position drop_pending_v2_source send_taken
act-Ordered (queues p) n e q h = queue_mqtt_publication-Ordered p n e q h
act-Ordered drops_position n e (q, le) h = (
  delete-Queued "v2_position" 0 e.order _ (delete-Queued "position" 0 e.order e.pending q),
  omega (arith, le),
)
act-Ordered drops_v2_source n e (q, le) h =
    (delete-Queued "v2_source_status" 0 e.order e.pending q, omega (arith, le))
act-Ordered (stops client topic) n e q h = stop_mqtt_worker-Ordered client topic n e q h
act-Ordered takes n e (q, le) h = elim (Bool-cases (is_some e.in_hand)) [
  | inl i ↦ rw i (q, omega (arith, le))
  | inr i ↦ rw i (take_next-Ordered n e (q, le))
]
act-Ordered (sends s) n e (q, le) h = (q, omega (arith, le))

acts-Ordered :
    (as' : List Action) (n : ℕ) (e : Egress)
    → Ordered n e
    → n + length as' < 2 ^ 64
    → Queued 0 (acts as' e).0.order (acts as' e).0.pending
unfolding acts
acts-Ordered [] n e q h = q.0
acts-Ordered (a ∷ as') n e q h =
    acts-Ordered as' (n + 1) (act a e).0 (act-Ordered a n e q (omega (arith, h))) (omega (arith, h))

-- After any fewer than 2^64 actions, a worker with no publication in its hand that gets as many rounds as
-- publications wait, and any more, empties the queue: it is about each of them once, in the
-- order of their numbers, which rise.
pub drain-acts :
    (as' : List Action) (ss : List Seen)
    → length as' < 2 ^ 64
    → length (acts as' new_egress).0.pending ≤ length ss
    → ((drain ss (record (acts as' new_egress).0 { in_hand = none })).0.pending ≡ [])
      × (map subject (drain ss (record (acts as' new_egress).0 { in_hand = none })).1
          ≡ waiting (acts as' new_egress).0.pending)
      × Ascending 0 (waiting (acts as' new_egress).0.pending)
drain-acts as' ss few enough =
    let e : Egress = (acts as' new_egress).0 in
    let q = acts-Ordered as' 0 new_egress (omega arith, omega arith) (omega (arith, few)) in
    let (empty, all) = drain-holding ss e 0 e.order e.pending q enough in
    (empty, all, waiting-Ascending 0 e.order e.pending q)
