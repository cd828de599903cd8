-- ===== src/Notifications/Rules/Conditions.antt =====
-- The conditions of a rule of internal/notifications/rules.go, and the loop over them.
use radio_gaga.Common.{
  ℕ, Bool, false, not, String, str_eq, str_append, List, [], ◌∷◌, Option, none, some, if◌then◌else◌,
  lookup, insert,
}

-- What the rules use of Go's libraries.
pub record GoText : Type 1 where
  pub float : Type 0
  pub parse_float : String → Option float
  pub lt : float → float → Bool
  pub le : float → float → Bool
  pub eq : float → float → Bool
  pub contains : String → String → Bool
  pub replace_all : String → String → String → String

abbrev pub both : {A : Type 0} → Option A → Option A → Option (A × A)
both (some a) (some b) = some (a, b)
both _ _ = none

pub record RuleCondition : Type 0 where
  pub source : String
  pub field : String
  pub operator : String
  pub message : String
  pub value : String

-- What the evaluation of one rule reads: the clock at the check of the cooldown and when it is
-- recorded, and the replies of Redis, `none` for an error or a missing field.
pub record Look : Type 0 where
  pub checked_at : ℕ
  pub fired_at : ℕ
  pub hget : String → String → Option String

-- What one condition of a rule does to the loop: it is passed over, it ends the loop without a match,
-- or it holds and adds an entry to the values.
pub data Verdict : Type 0 where
  skips : Verdict
  stops : Verdict
  holds : String → String → Verdict

abbrev pub or_empty : Option String → String
or_empty none = ""
or_empty (some v) = v

abbrev pub go_on :
    Verdict
    → (List (String × String) → Option (List (String × String)))
    → List (String × String)
    → Option (List (String × String))
go_on skips rest values = rest values
go_on stops rest values = none
go_on (holds key value) rest values = rest (insert key value values)

-- The loop over the conditions of a rule.
unfoldable pub evaluate_all :
    (RuleCondition → Verdict)
    → List RuleCondition
    → List (String × String)
    → Option (List (String × String))
evaluate_all judge [] values = some values
evaluate_all judge (c ∷ cs) values = go_on (judge c) (evaluate_all judge cs) values

module _ (go : GoText) where
  -- The switch on the operator for two numbers; `none` where no case applies.
  unfoldable pub compare_numbers : String → go.float → go.float → Option Bool
  compare_numbers operator a b =
      if str_eq operator "<"
      then some (go.lt a b)
      else (if str_eq operator ">"
          then some (go.lt b a)
          else (if str_eq operator "<="
              then some (go.le a b)
              else (if str_eq operator ">="
                  then some (go.le b a)
                  else (if str_eq operator "=="
                      then some (go.eq a b)
                      else (if str_eq operator "!=" then some (not (go.eq a b)) else none)))))

  unfoldable pub compare_texts : String → String → String → Bool
  compare_texts operator a b =
      if str_eq operator "=="
      then str_eq a b
      else (if str_eq operator "!=" then not (str_eq a b) else false)

  unfoldable pub check_condition : String → String → String → Bool
  check_condition value operator threshold =
      elim (both {A = go.float} (go.parse_float value) (go.parse_float threshold)) [
        | none ↦ compare_texts operator value threshold
        | some (a, b) ↦ elim (compare_numbers operator a b) [
          | none ↦ compare_texts operator value threshold
          | some answer ↦ answer
        ]
      ]

  unfoldable pub check_message_condition : String → String → String → Bool
  check_message_condition message operator value =
      if str_eq operator "=="
      then str_eq message value
      else (if str_eq operator "contains" then go.contains message value else false)

  unfoldable pub judge_field : RuleCondition → Option String → Verdict
  judge_field c none = stops
  judge_field c (some v) =
      if check_condition v c.operator c.value
      then holds (str_append c.source (str_append "." c.field)) v
      else stops

  unfoldable pub judge_hash : Look → String → List (String × String) → RuleCondition → Verdict
  judge_hash look changed fields c =
      if not (str_eq c.field "")
      then judge_field c (
          if str_eq c.source changed
          then some (or_empty (lookup c.field fields))
          else look.hget c.source c.field)
      else (if not (str_eq c.message "") then stops else skips)

  unfoldable pub judge_message : Look → String → String → RuleCondition → Verdict
  judge_message look changed message c =
      if not (str_eq c.message "")
      then (if not (str_eq c.source changed)
          then stops
          else (if check_message_condition message c.message c.value
              then holds (str_append c.source ".message") message
              else stops))
      else (if not (str_eq c.field "") then judge_field c (look.hget c.source c.field) else skips)
