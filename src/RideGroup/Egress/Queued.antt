-- ===== src/RideGroup/Egress/Queued.antt =====
-- The map of the waiting publications of internal/ridegroup/egress.go, as a list in their order.
use radio_gaga.Common.{
  ℕ, ◌≤◌, ◌<◌, ◌≡◌, inl, inr, refl, ap, ◌∙◌, false, String, str_eq, str_eq_iff, [], ◌∷◌, ◌++◌, some,
  ltb, delete, same_text, All, All-append, Bool-cases, arith,
}
use radio_gaga.RideGroup.Publication.{MqttPublication}
use radio_gaga.RideGroup.Egress.{Pending, least, next_mqtt_publication}

abbrev pub Apart : String → String × MqttPublication → Type 0
Apart k x = str_eq x.0 k ≡ false

-- Entries of different kinds, whose orders rise above `lo` and up to `hi`.
abbrev pub Queued : ℕ → ℕ → Pending → Type 0
Queued lo hi [] = lo ≤ hi
Queued lo hi ((k, p) ∷ m) = (lo < p.order) × All (Apart k) m × Queued p.order hi m

pub Queued-weaken : (lo lo' hi : ℕ) (m : Pending) → lo' ≤ lo → Queued lo hi m → Queued lo' hi m
Queued-weaken lo lo' hi [] h q = omega (arith, h, q)
Queued-weaken lo lo' hi ((k, p) ∷ m) h (above, apart, q) = (omega (arith, h, above), apart, q)

pub delete-All :
    (P : String × MqttPublication → Type 0) (k : String) (m : Pending)
    → All P m
    → All P (delete k m)
unfolding delete
delete-All P k [] h = tt
delete-All P k ((j, q) ∷ m) h = elim (Bool-cases (str_eq j k)) [
  | inl e ↦ rw e (delete-All P k m h.1)
  | inr e ↦ rw e (h.0, delete-All P k m h.1)
]

pub delete-Apart : (k : String) (m : Pending) → All (Apart k) (delete k m)
unfolding delete
delete-Apart k [] = tt
delete-Apart k ((j, q) ∷ m) = elim (Bool-cases (str_eq j k)) [
  | inl e ↦ rw e (delete-Apart k m)
  | inr e ↦ rw e (e, delete-Apart k m)
]

pub delete-absent : (k : String) (m : Pending) → All (Apart k) m → delete k m ≡ m
unfolding delete
delete-absent k [] h = refl
delete-absent k ((j, q) ∷ m) h = rw (h.0, delete-absent k m h.1) refl

pub delete-Queued :
    (k : String) (lo hi : ℕ) (m : Pending) → Queued lo hi m → Queued lo hi (delete k m)
unfolding delete
delete-Queued k lo hi [] q = q
delete-Queued k lo hi ((j, p) ∷ m) (above, apart, q) = elim (Bool-cases (str_eq j k)) [
  | inl e ↦ rw e (
      Queued-weaken p.order lo hi (delete k m) (omega (arith, above))
        (delete-Queued k p.order hi m q))
  | inr e ↦ rw e (above, delete-All (Apart j) k m apart, delete-Queued k p.order hi m q)
]

pub apart_sym : (j k : String) → str_eq j k ≡ false → str_eq k j ≡ false
apart_sym j k h = ground (arith, str_eq_iff j k, str_eq_iff k j, h)

pub append-Queued :
    (k : String) (p : MqttPublication) (lo hi : ℕ) (m : Pending)
    → Queued lo hi m
    → All (Apart k) m
    → hi < p.order
    → Queued lo p.order (m ++ (k, p) ∷ [])
append-Queued k p lo hi [] q apart h = (omega (arith, q, h), tt, omega arith)
append-Queued k p lo hi ((j, r) ∷ m) (above, apart', q) apart h = (
  above,
  All-append (Apart j) m _ apart' (apart_sym j k apart.0, tt),
  append-Queued k p r.order hi m q apart.1 h,
)

pub later : (a b : ℕ) → b < a → ltb a b ≡ false
later a b h = ground (arith, h)

pub least-head :
    (k : String) (p : MqttPublication) (lo hi : ℕ) (m : Pending)
    → p.order ≤ lo
    → Queued lo hi m
    → least (k, p) m ≡ (k, p)
least-head k p lo hi [] h q = refl
least-head k p lo hi ((j, r) ∷ m) h (above, apart, q) =
    rw (later r.order p.order (omega (arith, h, above)))
      (least-head k p r.order hi m (omega (arith, h, above)) q)

pub delete-head :
    (k : String) (p : MqttPublication) (m : Pending) → All (Apart k) m → delete k ((k, p) ∷ m) ≡ m
unfolding delete
delete-head k p m apart = rw (same_text k) (delete-absent k m apart)

pub next_mqtt_publication-head :
    (k : String) (p : MqttPublication) (lo hi : ℕ) (m : Pending)
    → Queued lo hi ((k, p) ∷ m)
    → next_mqtt_publication ((k, p) ∷ m) ≡ (some p, m)
unfolding next_mqtt_publication
next_mqtt_publication-head k p lo hi m (above, apart, q) =
    ap (λ x. (some x.1, delete x.0 ((k, p) ∷ m))) (least-head k p p.order hi m (omega arith) q)
    ∙ ap (λ r. (some p, r)) (delete-head k p m apart)
