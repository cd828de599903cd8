-- ===== src/Notifications/Rules/Matching.antt =====
-- When the conditions of a rule of internal/notifications/rules.go hold, said without its loops.
use radio_gaga.Common.{
  ◌≡◌, ◌≢◌, ◌↔◌, inl, inr, refl, Bool, true, false, not, String, str_eq, str_eq_iff, str_append,
  List, [], ◌∷◌, Option, none, some, if◌then◌else◌, lookup, insert, All, All-iff, str_eq_differs,
  is_some, Bool-cases,
}
use radio_gaga.Notifications.Rules.{
  GoText, RuleCondition, ParsedRule, Look, Verdict, skips, stops, holds, or_empty, go_on,
  evaluate_all, check_condition, check_message_condition, judge_field, judge_hash, judge_message,
  evaluate_all_conditions, evaluate_all_conditions_for_message,
}

abbrev passes : Verdict → Bool
passes skips = true
passes stops = false
passes (holds key value) = true

go_on_iff :
    (judge : RuleCondition → Verdict) (cs : List RuleCondition) (v : Verdict)
    (values : List (String × String))
    → ((values : List (String × String))
        → (is_some (evaluate_all judge cs values) ≡ true) ↔ All (λ d. passes (judge d) ≡ true) cs)
    → (is_some (go_on v (evaluate_all judge cs) values) ≡ true)
      ↔ ((passes v ≡ true) × All (λ d. passes (judge d) ≡ true) cs)
go_on_iff judge cs skips values rest = (λ h. (refl, (rest values).0 h), λ p. (rest values).1 p.1)
go_on_iff judge cs stops values rest = (λ h. cc, λ p. cc)
go_on_iff judge cs (holds key value) values rest =
    (λ h. (refl, (rest (insert key value values)).0 h), λ p. (rest (insert key value values)).1 p.1)

evaluate_all_iff :
    (judge : RuleCondition → Verdict) (cs : List RuleCondition) (values : List (String × String))
    → (is_some (evaluate_all judge cs values) ≡ true) ↔ All (λ c. passes (judge c) ≡ true) cs
unfolding evaluate_all
evaluate_all_iff judge [] values = (λ _. tt, λ _. refl)
evaluate_all_iff judge (c ∷ cs) values =
    go_on_iff judge cs (judge c) values (evaluate_all_iff judge cs)

module _ (go : GoText) where
  -- A condition on a field, whose current value is given.
  abbrev pub FieldHolds : RuleCondition → Option String → Type 0
  FieldHolds c current =
      (v : String) × (current ≡ some v) × (check_condition go v c.operator c.value ≡ true)

  -- The value that a hash change shows: of its own fields, where a missing one is empty, or in Redis.
  abbrev pub current_value : Look → String → List (String × String) → RuleCondition → Option String
  current_value look changed fields c =
      if str_eq c.source changed
      then some (or_empty (lookup c.field fields))
      else look.hget c.source c.field

  abbrev pub HoldsAtHash : Look → String → List (String × String) → RuleCondition → Type 0
  HoldsAtHash look changed fields c =
      (c.field ≢ "" → FieldHolds c (current_value look changed fields c))
      × (c.field ≡ "" → c.message ≡ "")

  abbrev pub HoldsAtMessage : Look → String → String → RuleCondition → Type 0
  HoldsAtMessage look changed message c =
      (c.message ≢ ""
        → (c.source ≡ changed) × (check_message_condition go message c.message c.value ≡ true))
      × (c.message ≡ "" → c.field ≢ "" → FieldHolds c (look.hget c.source c.field))

  judge_field_iff :
      (c : RuleCondition) (current : Option String)
      → (passes (judge_field go c current) ≡ true) ↔ FieldHolds c current
  unfolding judge_field
  judge_field_iff c none = (λ h. cc, λ h. cc)
  judge_field_iff c (some v) = elim (Bool-cases (check_condition go v c.operator c.value)) [
    | inl e ↦ rw e (λ _. (v, refl, e), λ _. refl)
    | inr e ↦ rw e (λ h. cc, λ h. let (w, same, ok) = h in cc)
  ]

  -- A condition without a field holds at a hash change when it has no message either.
  without_field :
      (look : Look) (changed : String) (fields : List (String × String)) (c : RuleCondition)
      → c.field ≡ ""
      → (passes (if not (str_eq c.message "") then stops else skips) ≡ true)
        ↔ HoldsAtHash look changed fields c
  without_field look changed fields c e = elim (Bool-cases (str_eq c.message "")) [
    | inl m ↦ rw m (λ _. (λ ne. absurd (ne e), λ _. (str_eq_iff _ _).0 m), λ _. refl)
    | inr m ↦ rw m (λ h. cc, λ p. absurd (str_eq_differs c.message "" m (p.1 e)))
  ]

  judge_hash_iff :
      (look : Look) (changed : String) (fields : List (String × String)) (c : RuleCondition)
      → (passes (judge_hash go look changed fields c) ≡ true) ↔ HoldsAtHash look changed fields c
  unfolding judge_hash
  judge_hash_iff look changed fields c = elim (Bool-cases (str_eq c.field "")) [
    | inl e ↦ rw e (without_field look changed fields c ((str_eq_iff _ _).0 e))
    | inr e ↦
        let checked = judge_field_iff c (current_value look changed fields c) in
        let differs = str_eq_differs c.field "" e in
        rw e (λ h. (λ _. checked.0 h, λ z. absurd (differs z)), λ p. checked.1 (p.0 differs))
  ]

  without_message :
      (look : Look) (changed message : String) (c : RuleCondition)
      → c.message ≡ ""
      → (passes (
            if not (str_eq c.field "")
            then judge_field go c (look.hget c.source c.field)
            else skips)
          ≡ true)
        ↔ HoldsAtMessage look changed message c
  without_message look changed message c e =
      let checked = judge_field_iff c (look.hget c.source c.field) in
      elim (Bool-cases (str_eq c.field "")) [
        | inl f ↦
            rw f (λ _. (λ ne. absurd (ne e), λ _ ne. absurd (ne ((str_eq_iff _ _).0 f))), λ _. refl)
        | inr f ↦ rw f (
          λ h. (λ ne. absurd (ne e), λ _ _. checked.0 h),
          λ p. checked.1 (p.1 e (str_eq_differs c.field "" f)),
        )
      ]

  with_message :
      (look : Look) (changed message : String) (c : RuleCondition)
      → c.message ≢ ""
      → (passes (
            if not (str_eq c.source changed)
            then stops
            else (if check_message_condition go message c.message c.value
                then holds (str_append c.source ".message") message
                else stops))
          ≡ true)
        ↔ HoldsAtMessage look changed message c
  with_message look changed message c ne = elim (Bool-cases (str_eq c.source changed)) [
    | inr s ↦ rw s (λ h. cc, λ p. absurd (str_eq_differs c.source changed s (p.0 ne).0))
    | inl s ↦ elim (Bool-cases (check_message_condition go message c.message c.value)) [
      | inl k ↦ rw (s, k) (λ _. (λ _. ((str_eq_iff _ _).0 s, refl), λ z. absurd (ne z)), λ _. refl)
      | inr k ↦ rw (s, k) (λ h. cc, λ p. let ok = (p.0 ne).1 in cc)
    ]
  ]

  judge_message_iff :
      (look : Look) (changed message : String) (c : RuleCondition)
      → (passes (judge_message go look changed message c) ≡ true)
        ↔ HoldsAtMessage look changed message c
  unfolding judge_message
  judge_message_iff look changed message c = elim (Bool-cases (str_eq c.message "")) [
    | inl e ↦ rw e (without_message look changed message c ((str_eq_iff _ _).0 e))
    | inr e ↦ rw e (with_message look changed message c (str_eq_differs c.message "" e))
  ]

  -- A hash change matches the conditions of a rule just where each of them holds: one on a field by the
  -- field's value, the hash's own or the one in Redis, and none is on a message alone.
  pub evaluate_all_conditions_iff :
      (look : Look) (r : ParsedRule) (changed : String) (fields : List (String × String))
      → (is_some (evaluate_all_conditions go look r changed fields) ≡ true)
        ↔ All (HoldsAtHash look changed fields) r.rule.conditions
  unfolding evaluate_all_conditions
  evaluate_all_conditions_iff look r changed fields =
      let matched = evaluate_all_iff (judge_hash go look changed fields) r.rule.conditions [] in
      let each = All-iff _ _ r.rule.conditions (judge_hash_iff look changed fields) in
      (λ h. each.0 (matched.0 h), λ p. matched.1 (each.1 p))

  -- A message matches the conditions of a rule just where each of them holds: one on a message by the
  -- message, which comes from its source, and any other that names a field by the field's value in Redis.
  pub evaluate_all_conditions_for_message_iff :
      (look : Look) (r : ParsedRule) (changed message : String)
      → (is_some (evaluate_all_conditions_for_message go look r changed message) ≡ true)
        ↔ All (HoldsAtMessage look changed message) r.rule.conditions
  unfolding evaluate_all_conditions_for_message
  evaluate_all_conditions_for_message_iff look r changed message =
      let matched = evaluate_all_iff (judge_message go look changed message) r.rule.conditions [] in
      let each = All-iff _ _ r.rule.conditions (judge_message_iff look changed message) in
      (λ h. each.0 (matched.0 h), λ p. matched.1 (each.1 p))
