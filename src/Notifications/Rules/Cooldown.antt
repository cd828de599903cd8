-- ===== src/Notifications/Rules/Cooldown.antt =====
-- A rule of internal/notifications/rules.go does not fire again within its cooldown.
use radio_gaga.Common.{
  ℤ, pos, negsuc, ℕ, zero, suc, ◌+◌, ◌<◌, ◌≡◌, ◌≢◌, inl, inr, refl, ap, ◌∙◌, subst, Bool, true,
  false, String, str_eq_iff, List, [], ◌∷◌, Option, none, some, lookup, lookup-insert, All,
  All-append, Bool-cases, arith,
}
use radio_gaga.Notifications.Rules.{
  GoText, ParsedRule, RuleMatch, Look, Cooldowns, cooldown_over, cooldown_ok, record_fired,
  build_match, fire, evaluate_rule, evaluate_hash, evaluate_message, rule_has_hash_condition,
  rule_has_message_condition, evaluate_all_conditions, evaluate_all_conditions_for_message,
}

-- A rule of that name, if it is one, is looked at before its cooldown is over.
abbrev pub Early : String → ℕ → ParsedRule × Look → Type 0
Early name last (r, look) =
    r.rule.name ≡ name → (d : ℕ) × (r.cooldown_dur ≡ pos (suc d)) × (look.checked_at < last + suc d)

abbrev pub Quiet : String → ℕ → List RuleMatch × Cooldowns → Type 0
Quiet name last (found, cooldowns) =
    All (λ m. m.rule_name ≢ name) found × (lookup name cooldowns ≡ some last)

lookup-record_fired :
    (d : ℤ) (name other : String) (now : ℕ) (cooldowns : Cooldowns)
    → name ≢ other
    → lookup other (record_fired d name now cooldowns) ≡ lookup other cooldowns
unfolding record_fired
lookup-record_fired (negsuc d) name other now cooldowns h = refl
lookup-record_fired (pos zero) name other now cooldowns h = refl
lookup-record_fired (pos (suc d)) name other now cooldowns h =
    ground (arith, h, lookup-insert name other now cooldowns, str_eq_iff name other)

too_early :
    (d last now : ℕ) → now < last + suc d → cooldown_over (pos (suc d)) (some last) now ≢ true
unfolding cooldown_over
too_early d last now soon ok = ground (arith, soon, ok)

cooldown_ok-Early :
    (name : String) (last : ℕ) (r : ParsedRule) (look : Look) (cooldowns : Cooldowns)
    → Early name last (r, look)
    → lookup name cooldowns ≡ some last
    → cooldown_ok r cooldowns look.checked_at ≡ true
    → r.rule.name ≢ name
unfolding cooldown_ok cooldown_over
cooldown_ok-Early name last r look cooldowns early l ok e =
    let (d, dur, soon) = early e in
    too_early d last look.checked_at soon (
      subst (λ o. cooldown_over (pos (suc d)) o look.checked_at ≡ true)
        (ap (λ n. lookup n cooldowns) e ∙ l)
        (subst (λ z. cooldown_over z (lookup r.rule.name cooldowns) look.checked_at ≡ true) dur ok))

module _ (go : GoText) where
  fire-Quiet :
      (name : String) (last : ℕ) (r : ParsedRule) (now : ℕ)
      (values : Option (List (String × String))) (cooldowns : Cooldowns)
      → r.rule.name ≢ name
      → lookup name cooldowns ≡ some last
      → Quiet name last (fire go r now values cooldowns)
  unfolding fire build_match
  fire-Quiet name last r now none cooldowns h l = (tt, l)
  fire-Quiet name last r now (some values) cooldowns h l =
      ((h, tt), lookup-record_fired r.cooldown_dur r.rule.name name now cooldowns h ∙ l)

  evaluate_rule-Quiet :
      (name : String) (last : ℕ) (triggered : Bool) (r : ParsedRule) (look : Look)
      (values : Option (List (String × String))) (cooldowns : Cooldowns)
      → Early name last (r, look)
      → lookup name cooldowns ≡ some last
      → Quiet name last (evaluate_rule go triggered r look values cooldowns)
  unfolding evaluate_rule
  evaluate_rule-Quiet name last false r look values cooldowns early l = (tt, l)
  evaluate_rule-Quiet name last true r look values cooldowns early l =
      elim (Bool-cases (cooldown_ok r cooldowns look.checked_at)) [
        | inl ok ↦ rw ok (
            fire-Quiet name last r look.fired_at values cooldowns
              (cooldown_ok-Early name last r look cooldowns early l ok) l)
        | inr late ↦ rw late (tt, l)
      ]

  -- After a rule was recorded as fired at a time, an evaluation of a hash change matches no rule of its
  -- name and keeps the record, when the rules of that name have a cooldown and are looked at before it
  -- has passed since that time.
  pub evaluate_hash-cooldown :
      (changed : String) (fields : List (String × String)) (rs : List (ParsedRule × Look))
      (cooldowns : Cooldowns) (name : String) (last : ℕ)
      → All (Early name last) rs
      → lookup name cooldowns ≡ some last
      → Quiet name last (evaluate_hash go changed fields rs cooldowns)
  unfolding evaluate_hash
  evaluate_hash-cooldown changed fields [] cooldowns name last early l = (tt, l)
  evaluate_hash-cooldown changed fields ((r, look) ∷ rs) cooldowns name last early l =
      let here =
        evaluate_rule-Quiet name last (rule_has_hash_condition r changed) r look
          (evaluate_all_conditions go look r changed fields) cooldowns early.0 l in
      let rest = evaluate_hash-cooldown changed fields rs _ name last early.1 here.1 in
      (All-append _ _ _ here.0 rest.0, rest.1)

  -- After a rule was recorded as fired at a time, an evaluation of a message matches no rule of its name
  -- and keeps the record, when the rules of that name have a cooldown and are looked at before it has
  -- passed since that time.
  pub evaluate_message-cooldown :
      (changed message : String) (rs : List (ParsedRule × Look)) (cooldowns : Cooldowns)
      (name : String) (last : ℕ)
      → All (Early name last) rs
      → lookup name cooldowns ≡ some last
      → Quiet name last (evaluate_message go changed message rs cooldowns)
  unfolding evaluate_message
  evaluate_message-cooldown changed message [] cooldowns name last early l = (tt, l)
  evaluate_message-cooldown changed message ((r, look) ∷ rs) cooldowns name last early l =
      let here =
        evaluate_rule-Quiet name last (rule_has_message_condition r changed) r look
          (evaluate_all_conditions_for_message go look r changed message) cooldowns early.0 l in
      let rest = evaluate_message-cooldown changed message rs _ name last early.1 here.1 in
      (All-append _ _ _ here.0 rest.0, rest.1)
