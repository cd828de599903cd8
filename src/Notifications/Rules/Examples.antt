-- ===== src/Notifications/Rules/Examples.antt =====
-- A rule for a low battery, and the theorems at it. No text is a number, and one text
-- contains another when it starts with it.
use radio_gaga.Common.{
  pos, ◌≡◌, ◌↔◌, refl, true, false, String, str_eq, starts_with, List, [], ◌∷◌, none, some, All,
  is_some, arith, lookup,
}
use radio_gaga.Notifications.Rules.{
  GoText, RuleCondition, ParsedRule, Look, Cooldowns, evaluate_hash, evaluate_all_conditions,
}
use radio_gaga.Notifications.Rules.Matching.{HoldsAtHash, evaluate_all_conditions_iff}
use radio_gaga.Notifications.Rules.Cooldown.{Quiet, evaluate_hash-cooldown}

abbrev go_text : GoText
go_text = record {
  float = String;
  parse_float = λ s. none;
  lt = λ a b. false;
  le = str_eq;
  eq = str_eq;
  contains = starts_with;
  replace_all = λ tmpl key v. tmpl;
}

abbrev discharged : RuleCondition
discharged = record {
  source = "battery:0";
  field = "state";
  operator = "==";
  message = "";
  value = "empty";
}

abbrev rule : ParsedRule
rule = record {
  rule = record {
    name = "low";
    conditions = discharged ∷ discharged ∷ [];
    channels = "sms" ∷ [];
    cooldown = "5m";
    message = "";
  };
  cooldown_dur = pos 300;
}

abbrev look : Look
look = record { checked_at = 1200; fired_at = 1201; hget = λ source field. none }

abbrev fields : List (String × String)
fields = ("state", "empty") ∷ []

evaluate_all_conditions_iff_example :
    (is_some (evaluate_all_conditions go_text look rule "battery:0" fields) ≡ true)
    ↔ All (HoldsAtHash go_text look "battery:0" fields) rule.rule.conditions
evaluate_all_conditions_iff_example =
    evaluate_all_conditions_iff go_text look rule "battery:0" fields

abbrev cooldowns : Cooldowns
cooldowns = ("low", 1000) ∷ []

low_cooldown : lookup "low" cooldowns ≡ some 1000
unfolding lookup
low_cooldown = refl

evaluate_hash-cooldown_example :
    Quiet "low" 1000 (evaluate_hash go_text "battery:0" fields ((rule, look) ∷ []) cooldowns)
evaluate_hash-cooldown_example =
    evaluate_hash-cooldown go_text "battery:0" fields ((rule, look) ∷ []) cooldowns "low" 1000
      (λ _. (299, refl, omega arith), tt) low_cooldown
