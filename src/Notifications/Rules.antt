-- ===== src/Notifications/Rules.antt =====
-- internal/notifications/rules.go: the conditions of a rule and its cooldown. Floating-point numbers with
-- `strconv.ParseFloat` and the comparisons, `strings.Contains`, `strings.ReplaceAll` and
-- `time.ParseDuration` are parameters. A Go map is a list of entries, in the order in which the loops
-- over it run.
mod Conditions
mod Matching
mod Cooldown
mod Sources
mod Examples
unfoldable pub use Conditions.*
use radio_gaga.Common.{
  ℤ, pos, negsuc, ℕ, zero, suc, ◌-◌, ◌≡◌, Bool, true, false, not, ◌&&◌, ◌||◌, String, str_eq,
  str_append, List, [], ◌∷◌, ◌++◌, Option, none, some, if◌then◌else◌, leb, lookup, insert, any,
  member,
}

pub record NotificationRule : Type 0 where
  pub name : String
  pub conditions : List RuleCondition
  pub channels : List String
  pub cooldown : String
  pub message : String

pub record ParsedRule : Type 0 where
  pub rule : NotificationRule
  -- A `time.Duration`, in nanoseconds.
  pub cooldown_dur : ℤ

pub record RuleMatch : Type 0 where
  pub rule_name : String
  pub cond_values : List (String × String)
  pub channels : List String
  pub message : String

abbrev pub Cooldowns : Type 0
Cooldowns = List (String × ℕ)

unfoldable pub parse_rule : (String → Option ℤ) → NotificationRule → ParsedRule
parse_rule parse_duration r =
    if str_eq r.cooldown ""
    then record { rule = r; cooldown_dur = pos 0 }
    else elim (parse_duration r.cooldown) [
      | none ↦ record { rule = r; cooldown_dur = pos 0 }
      | some d ↦ record { rule = r; cooldown_dur = d }
    ]

unfoldable pub new_rule_evaluator :
    (String → Option ℤ) → List NotificationRule → List ParsedRule × Cooldowns
new_rule_evaluator parse_duration [] = ([], [])
new_rule_evaluator parse_duration (r ∷ rs) =
    (parse_rule parse_duration r ∷ (new_rule_evaluator parse_duration rs).0, [])

-- `Sources`: `out` holds what has been seen, in order.
unfoldable pub sources_of : List RuleCondition → List String → List String
sources_of [] out = out
sources_of (c ∷ cs) out = sources_of cs (if member c.source out then out else out ++ c.source ∷ [])

unfoldable pub sources_from : List ParsedRule → List String → List String
sources_from [] out = out
sources_from (r ∷ rs) out = sources_from rs (sources_of r.rule.conditions out)

unfoldable pub sources : List ParsedRule → List String
sources rs = sources_from rs []

unfoldable pub rule_has_hash_condition : ParsedRule → String → Bool
rule_has_hash_condition r changed =
    any (λ c. str_eq c.source changed && not (str_eq c.field "")) r.rule.conditions

unfoldable pub rule_has_message_condition : ParsedRule → String → Bool
rule_has_message_condition r changed =
    any (λ c. str_eq c.source changed && not (str_eq c.message "")) r.rule.conditions

-- A rule that has not fired has the zero time, which is longer ago than any duration.
unfoldable pub cooldown_over : ℤ → Option ℕ → ℕ → Bool
cooldown_over (negsuc _) last now = true
cooldown_over (pos d) none now = true
cooldown_over (pos d) (some last) now = leb d (now - last)

unfoldable pub cooldown_ok : ParsedRule → Cooldowns → ℕ → Bool
cooldown_ok r cooldowns now = cooldown_over r.cooldown_dur (lookup r.rule.name cooldowns) now

unfoldable pub record_fired : ℤ → String → ℕ → Cooldowns → Cooldowns
record_fired (negsuc _) name now cooldowns = cooldowns
record_fired (pos zero) name now cooldowns = cooldowns
record_fired (pos (suc d)) name now cooldowns = insert name now cooldowns

module _ (go : GoText) where
  unfoldable pub evaluate_all_conditions :
      Look → ParsedRule → String → List (String × String) → Option (List (String × String))
  evaluate_all_conditions look r changed fields =
      evaluate_all (judge_hash go look changed fields) r.rule.conditions []

  unfoldable pub evaluate_all_conditions_for_message :
      Look → ParsedRule → String → String → Option (List (String × String))
  evaluate_all_conditions_for_message look r changed message =
      evaluate_all (judge_message go look changed message) r.rule.conditions []

  unfoldable pub render_message : String → List (String × String) → String
  render_message tmpl [] = tmpl
  render_message tmpl ((k, v) ∷ values) =
      render_message (go.replace_all tmpl (str_append "{{" (str_append k "}}")) v) values

  unfoldable pub build_match : ParsedRule → List (String × String) → RuleMatch
  build_match r values = record {
    rule_name = r.rule.name;
    cond_values = values;
    channels = r.rule.channels;
    message = if str_eq r.rule.message "" then "" else render_message r.rule.message values;
  }

  -- The end of the body of the loop over the rules, behind the evaluation of the conditions.
  unfoldable pub fire :
      ParsedRule → ℕ → Option (List (String × String)) → Cooldowns → List RuleMatch × Cooldowns
  fire r now none cooldowns = ([], cooldowns)
  fire r now (some values) cooldowns =
      (build_match r values ∷ [], record_fired r.cooldown_dur r.rule.name now cooldowns)

  -- The body of that loop.
  unfoldable pub evaluate_rule :
      Bool
      → ParsedRule
      → Look
      → Option (List (String × String))
      → Cooldowns
      → List RuleMatch × Cooldowns
  evaluate_rule triggered r look values cooldowns =
      if triggered && cooldown_ok r cooldowns look.checked_at
      then fire r look.fired_at values cooldowns
      else ([], cooldowns)

  unfoldable pub evaluate_hash :
      String
      → List (String × String)
      → List (ParsedRule × Look)
      → Cooldowns
      → List RuleMatch × Cooldowns
  evaluate_hash changed fields [] cooldowns = ([], cooldowns)
  evaluate_hash changed fields ((r, look) ∷ rs) cooldowns =
      let (found, after) =
        evaluate_rule (rule_has_hash_condition r changed) r look
          (evaluate_all_conditions look r changed fields) cooldowns in
      let (rest, last) = evaluate_hash changed fields rs after in (found ++ rest, last)

  unfoldable pub evaluate_message :
      String → String → List (ParsedRule × Look) → Cooldowns → List RuleMatch × Cooldowns
  evaluate_message changed message [] cooldowns = ([], cooldowns)
  evaluate_message changed message ((r, look) ∷ rs) cooldowns =
      let (found, after) =
        evaluate_rule (rule_has_message_condition r changed) r look
          (evaluate_all_conditions_for_message look r changed message) cooldowns in
      let (rest, last) = evaluate_message changed message rs after in (found ++ rest, last)
