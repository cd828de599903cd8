-- ===== src/RideGroup/Egress/Stopping.antt =====
-- What internal/ridegroup/egress.go sends after `stopMQTTWorker`.
use radio_gaga.Common.{
  ℕ, ◌≡◌, ◌⊎◌, inl, inr, refl, sym, ap, subst, ◌∙◌, true, false, String, str_eq, List, [], ◌∷◌,
  ◌++◌, Option, none, some, if◌then◌else◌, ltb, delete, Bool-cases, Option-cases, is_some,
}
use radio_gaga.RideGroup.Publication.{MqttPublication}
use radio_gaga.RideGroup.Authorization.{online}
use radio_gaga.RideGroup.Egress.{
  Pending, Egress, queue_mqtt_publication, drop_pending_position, drop_pending_v2_source,
  unsubscription, stop_mqtt_worker, least, next_mqtt_publication, take_next, Seen, Attempt,
  unsubscribed, published, skipped, attempt, attempted, send_taken, Action, queues, drops_position,
  drops_v2_source, stops, takes, sends, act, acts,
}
use radio_gaga.RideGroup.Egress.Order.{subject, attempt-subject}

abbrev pub publications : List Attempt → List MqttPublication
publications [] = []
publications (published p ∷ ts) = p ∷ publications ts
publications (unsubscribed p ∷ ts) = publications ts
publications (skipped p ∷ ts) = publications ts

publications-append :
    (xs ys : List Attempt) → publications (xs ++ ys) ≡ publications xs ++ publications ys
publications-append [] ys = refl
publications-append (published p ∷ xs) ys = ap (λ ps. p ∷ ps) (publications-append xs ys)
publications-append (unsubscribed p ∷ xs) ys = publications-append xs ys
publications-append (skipped p ∷ xs) ys = publications-append xs ys

abbrev Unsubscribes : MqttPublication → Type 0
Unsubscribes p = str_eq p.unsubscribe "" ≡ false

abbrev Leaving : Option MqttPublication → Type 0
Leaving none = Unit
Leaving (some p) = Unsubscribes p

abbrev AllLeave : Pending → Type 0
AllLeave [] = Unit
AllLeave ((k, p) ∷ m) = Unsubscribes p × AllLeave m

-- What holds from the stop on.
abbrev Stopped : Egress → Type 0
Stopped e = (e.closing ≡ true) × AllLeave e.pending

delete-AllLeave : (k : String) (m : Pending) → AllLeave m → AllLeave (delete k m)
unfolding delete
delete-AllLeave k [] h = tt
delete-AllLeave k ((j, q) ∷ m) h = elim (Bool-cases (str_eq j k)) [
  | inl e ↦ rw e (delete-AllLeave k m h.1)
  | inr e ↦ rw e (h.0, delete-AllLeave k m h.1)
]

least-leaves :
    (x : String × MqttPublication) (m : Pending)
    → Unsubscribes x.1
    → AllLeave m
    → Unsubscribes (least x m).1
least-leaves x [] h hs = h
least-leaves x ((k, p) ∷ m) h (h', hs) = elim (Bool-cases (ltb p.order x.1.order)) [
  | inl e ↦
      subst (λ b. Unsubscribes (least (if b then (k, p) else x) m).1) (sym e)
        (least-leaves (k, p) m h' hs)
  | inr e ↦
      subst (λ b. Unsubscribes (least (if b then (k, p) else x) m).1) (sym e)
        (least-leaves x m h hs)
]

next_mqtt_publication-leaves :
    (m : Pending)
    → AllLeave m
    → Leaving (next_mqtt_publication m).0 × AllLeave (next_mqtt_publication m).1
unfolding next_mqtt_publication
next_mqtt_publication-leaves [] h = (tt, tt)
next_mqtt_publication-leaves ((k, p) ∷ m) h =
    (least-leaves (k, p) m h.0 h.1, delete-AllLeave (least (k, p) m).0 ((k, p) ∷ m) h)

stop_mqtt_worker-Stopped :
    (client : Option ℕ) (topic : String) (e : Egress) → Stopped (stop_mqtt_worker client topic e)
unfolding stop_mqtt_worker unsubscription
stop_mqtt_worker-Stopped none topic e = (refl, tt)
stop_mqtt_worker-Stopped (some c) topic e = elim (Bool-cases (str_eq topic "")) [
  | inl t ↦ rw t (refl, tt)
  | inr t ↦ rw t (refl, (t, tt))
]

stop_mqtt_worker-in_hand :
    (client : Option ℕ) (topic : String) (e : Egress)
    → (stop_mqtt_worker client topic e).in_hand ≡ e.in_hand
unfolding stop_mqtt_worker
stop_mqtt_worker-in_hand none topic e = refl
stop_mqtt_worker-in_hand (some c) topic e = elim (Bool-cases (str_eq topic "")) [
  | inl t ↦ rw t refl
  | inr t ↦ rw t refl
]

queue_mqtt_publication-closing :
    (p : MqttPublication) (e : Egress) → e.closing ≡ true → queue_mqtt_publication p e ≡ e
unfolding queue_mqtt_publication
queue_mqtt_publication-closing p e h = rw h refl

-- Every action but a take and a send leaves alone what is in the worker's hand, and sends nothing.
act-Stopped : (a : Action) (e : Egress) → Stopped e → Stopped (act a e).0
unfolding act drop_pending_position drop_pending_v2_source send_taken take_next
act-Stopped (queues p) e h = rw (queue_mqtt_publication-closing p e h.0) h
act-Stopped drops_position e (c, h) =
    (c, delete-AllLeave "v2_position" _ (delete-AllLeave "position" e.pending h))
act-Stopped drops_v2_source e (c, h) = (c, delete-AllLeave "v2_source_status" e.pending h)
act-Stopped (stops client topic) e h = stop_mqtt_worker-Stopped client topic e
act-Stopped takes e h = elim (Bool-cases (is_some e.in_hand)) [
  | inl i ↦ rw i h
  | inr i ↦ rw i (h.0, (next_mqtt_publication-leaves e.pending h.1).1)
]
act-Stopped (sends s) e h = h

attempted-leaves :
    (s : Seen) (o : Option MqttPublication) → Leaving o → publications (attempted s o) ≡ []
unfolding attempt
attempted-leaves s none h = refl
attempted-leaves s (some p) h = elim (Bool-cases (online s.connected p.client)) [
  | inl e ↦ simp (h, e)
  | inr e ↦ simp (h, e)
]

one_publication :
    (t : Attempt) → (publications (t ∷ []) ≡ []) ⊎ (publications (t ∷ []) ≡ subject t ∷ [])
one_publication (published p) = inr refl
one_publication (unsubscribed p) = inl refl
one_publication (skipped p) = inl refl

act-Leaving :
    (a : Action) (e : Egress)
    → Stopped e
    → Leaving e.in_hand
    → Leaving (act a e).0.in_hand × (publications (act a e).1 ≡ [])
unfolding act drop_pending_position drop_pending_v2_source send_taken take_next
act-Leaving (queues p) e h l = (rw (queue_mqtt_publication-closing p e h.0) l, refl)
act-Leaving drops_position e h l = (l, refl)
act-Leaving drops_v2_source e h l = (l, refl)
act-Leaving (stops client topic) e h l = (rw (stop_mqtt_worker-in_hand client topic e) l, refl)
act-Leaving takes e h l = elim (Bool-cases (is_some e.in_hand)) [
  | inl i ↦ (rw i l, refl)
  | inr i ↦ (rw i (next_mqtt_publication-leaves e.pending h.1).0, refl)
]
act-Leaving (sends s) e h l = (tt, attempted-leaves s e.in_hand l)

-- With an unsubscription in the hand, or nothing, nothing is published any more.
acts-Leaving :
    (as' : List Action) (e : Egress)
    → Stopped e
    → Leaving e.in_hand
    → publications (acts as' e).1 ≡ []
unfolding acts
acts-Leaving [] e h l = refl
acts-Leaving (a ∷ as') e h l =
    let (leaves, silent) = act-Leaving a e h l in
    publications-append (act a e).1 (acts as' (act a e).0).1
    ∙ (ap (λ ps. ps ++ publications (acts as' (act a e).0).1) silent
        ∙ acts-Leaving as' (act a e).0 (act-Stopped a e h) leaves)

-- What was in the hand at the stop may still go out, and nothing else does.
abbrev Only : Option MqttPublication → List MqttPublication → Type 0
Only o ps = (ps ≡ []) ⊎ ((p : MqttPublication) × (o ≡ some p) × (ps ≡ p ∷ []))

-- Only what is in the hand goes out when it is sent now.
sent-Only :
    (s : Seen) (o : Option MqttPublication) (rest : List Attempt)
    → publications rest ≡ []
    → Only o (publications (attempted s o ++ rest))
sent-Only s none rest h = inl h
sent-Only s (some p) rest h =
    let all =
      publications-append (attempt s p ∷ []) rest
      ∙ ap (λ ps. publications (attempt s p ∷ []) ++ ps) h in
    elim (one_publication (attempt s p)) [
      | inl nothing ↦ inl (all ∙ ap (λ ps. ps ++ []) nothing)
      | inr one ↦
          inr (p, refl, all ∙ (ap (λ ps. ps ++ []) one ∙ ap (λ q. q ∷ []) (attempt-subject s p)))
    ]

acts-Only :
    (as' : List Action) (e : Egress) → Stopped e → Only e.in_hand (publications (acts as' e).1)
unfolding acts act drop_pending_position drop_pending_v2_source send_taken
acts-Only [] e h = inl refl
acts-Only (queues p ∷ as') e h = rw (queue_mqtt_publication-closing p e h.0) (acts-Only as' e h)
acts-Only (drops_position ∷ as') e h =
    acts-Only as' (drop_pending_position e) (act-Stopped drops_position e h)
acts-Only (drops_v2_source ∷ as') e h =
    acts-Only as' (drop_pending_v2_source e) (act-Stopped drops_v2_source e h)
acts-Only (stops client topic ∷ as') e h =
    subst (λ o. Only o (publications (acts as' (stop_mqtt_worker client topic e)).1))
      (stop_mqtt_worker-in_hand client topic e)
      (acts-Only as' (stop_mqtt_worker client topic e) (stop_mqtt_worker-Stopped client topic e))
acts-Only (takes ∷ as') e h = elim (Option-cases e.in_hand) [
  | inl none_left ↦ inl (acts-Leaving (takes ∷ as') e h (rw none_left tt))
  | inr (p, held) ↦ rw (ap is_some held) (acts-Only as' e h)
]
acts-Only (sends s ∷ as') e h =
    sent-Only s e.in_hand _ (acts-Leaving as' (record e { in_hand = none }) h tt)

-- After `stopMQTTWorker`, whatever is queued, dropped or done, the worker publishes nothing but what it
-- had taken before, and that once at most.
pub stop_mqtt_worker-acts :
    (client : Option ℕ) (topic : String) (e : Egress) (as' : List Action)
    → (publications (acts as' (stop_mqtt_worker client topic e)).1 ≡ [])
      ⊎ ((p : MqttPublication) × (e.in_hand ≡ some p)
          × (publications (acts as' (stop_mqtt_worker client topic e)).1 ≡ p ∷ []))
stop_mqtt_worker-acts client topic e as' =
    subst (λ o. Only o (publications (acts as' (stop_mqtt_worker client topic e)).1))
      (stop_mqtt_worker-in_hand client topic e)
      (acts-Only as' (stop_mqtt_worker client topic e) (stop_mqtt_worker-Stopped client topic e))
