-- ===== src/Notifications/Rules/Sources.antt =====
-- The sources that internal/notifications/rules.go subscribes to.
use radio_gaga.Common.{
  ◌≡◌, inl, inr, refl, ◌∙◌, subst, Bool, true, false, not, ◌&&◌, ◌||◌, String, str_eq, str_eq_iff,
  List, [], ◌∷◌, ◌++◌, any, member, Bool-cases, arith,
}
use radio_gaga.Notifications.Rules.{RuleCondition, ParsedRule, sources_of, sources_from, sources}

abbrev pub distinct : List String → Bool
distinct [] = true
distinct (s ∷ ss) = not (member s ss) && distinct ss

member-append :
    (s t : String) (ss : List String) → member s (ss ++ t ∷ []) ≡ (member s ss || str_eq t s)
member-append s t [] = ground arith
member-append s t (r ∷ ss) = ground (arith, member-append s t ss)

distinct-append :
    (t : String) (ss : List String)
    → member t ss ≡ false
    → distinct ss ≡ true
    → distinct (ss ++ t ∷ []) ≡ true
distinct-append t [] m d = refl
distinct-append t (s ∷ ss) m d =
    ground (arith, m, d, member-append s t ss, distinct-append t ss, str_eq_iff t s, str_eq_iff s t)

||_assoc : (a b c : Bool) → ((a || b) || c) ≡ (a || (b || c))
||_assoc a b c = ground arith

known :
    (s : String) (c : RuleCondition) (cs : List RuleCondition) (out : List String)
    → member c.source out ≡ true
    → (member s out || any (λ d. str_eq d.source s) cs)
      ≡ (member s out || any (λ d. str_eq d.source s) (c ∷ cs))
known s c cs out e = elim (Bool-cases (str_eq c.source s)) [
  | inl h ↦ rw (h, subst (λ t. member t out ≡ true) ((str_eq_iff _ _).0 h) e) refl
  | inr h ↦ rw h refl
]

member-sources_of :
    (s : String) (cs : List RuleCondition) (out : List String)
    → member s (sources_of cs out) ≡ (member s out || any (λ c. str_eq c.source s) cs)
unfolding sources_of
member-sources_of s [] out = ground arith
member-sources_of s (c ∷ cs) out = elim (Bool-cases (member c.source out)) [
  | inl e ↦ rw e (member-sources_of s cs out ∙ known s c cs out e)
  | inr e ↦ rw e (
      member-sources_of s cs (out ++ c.source ∷ [])
      ∙ rw member-append (||_assoc (member s out) (str_eq c.source s) _))
]

member-sources_from :
    (s : String) (rs : List ParsedRule) (out : List String)
    → member s (sources_from rs out)
      ≡ (member s out || any (λ r. any (λ c. str_eq c.source s) r.rule.conditions) rs)
unfolding sources_from
member-sources_from s [] out = ground arith
member-sources_from s (r ∷ rs) out =
    member-sources_from s rs (sources_of r.rule.conditions out)
    ∙ rw (member-sources_of s r.rule.conditions out) (||_assoc (member s out) _ _)

distinct-sources_of :
    (cs : List RuleCondition) (out : List String)
    → distinct out ≡ true
    → distinct (sources_of cs out) ≡ true
unfolding sources_of
distinct-sources_of [] out d = d
distinct-sources_of (c ∷ cs) out d = elim (Bool-cases (member c.source out)) [
  | inl e ↦ rw e (distinct-sources_of cs out d)
  | inr e ↦ rw e (distinct-sources_of cs _ (distinct-append c.source out e d))
]

distinct-sources_from :
    (rs : List ParsedRule) (out : List String)
    → distinct out ≡ true
    → distinct (sources_from rs out) ≡ true
unfolding sources_from
distinct-sources_from [] out d = d
distinct-sources_from (r ∷ rs) out d =
    distinct-sources_from rs _ (distinct-sources_of r.rule.conditions out d)

-- The sources are those that some condition of some rule names, each of them once.
pub sources_lem :
    (rs : List ParsedRule)
    → (distinct (sources rs) ≡ true)
      × ((s : String)
          → member s (sources rs) ≡ any (λ r. any (λ c. str_eq c.source s) r.rule.conditions) rs)
unfolding sources
sources_lem rs = (distinct-sources_from rs [] refl, λ s. member-sources_from s rs [])
