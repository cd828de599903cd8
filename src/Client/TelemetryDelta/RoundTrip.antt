-- ===== src/Client/TelemetryDelta/RoundTrip.antt =====
-- That a delta of internal/client/telemetry_delta.go brings a receiver to the current map.
use radio_gaga.Common.{
  ◌≡◌, inl, inr, refl, ap, ◌∙◌, false, not, ◌&&◌, ◌||◌, String, str_eq, str_eq_iff, List, [], ◌∷◌,
  ◌++◌, Option, none, some, if◌then◌else◌, and_false, Bool-cases, is_some,
}
use radio_gaga.Client.TelemetryDelta.{
  Json, value, object, Fields, end, field, find_field, KeyPath, below_key, gone, not_empty_object,
  diff_value, diff_fields, compute_delta,
}
use radio_gaga.Client.TelemetryDelta.Received.{
  map_of, Kind, find, merged, nulled, received, any_append, or_false, nulled-nil, nulled-gone,
  at_key, put-cleared, says_at, Distinct, DistinctFields,
}

merged-not_empty :
    (k : String) (p : KeyPath) (prev sub : Fields)
    → merged (k ∷ p) (some (object prev)) (not_empty_object sub)
      ≡ merged p (find_field k prev) (find_field k sub)
unfolding find_field
merged-not_empty k p prev end = refl
merged-not_empty k p prev (field j v sub) = refl

merged-new : (p : KeyPath) (cv : Json) → merged p none (some cv) ≡ find p (some cv)
merged-new p (value a) = refl
merged-new p (object f) = refl

-- What is received behind a key of two maps.
abbrev behind :
    String → KeyPath → Option Json → Option Json → Option Json × List KeyPath → Option Kind
behind k p pv cv (d, cleared) =
    if nulled p cleared || (is_some pv && not (is_some cv)) then none else merged p pv d

received-behind :
    (k : String) (p : KeyPath) (prev curr : Fields)
    → DistinctFields curr
    → received (k ∷ p) (some (object prev)) (diff_value (some (object prev)) (object curr))
      ≡ behind k p (find_field k prev) (find_field k curr) (at_key prev k (find_field k curr))
unfolding diff_value
received-behind k p prev curr h =
    let (same_field, same_path) = says_at prev curr k p h in
    let paths =
      any_append (k ∷ p) (diff_fields prev curr).1 (gone prev curr)
      ∙ (ap (λ b. b || nulled (k ∷ p) (gone prev curr)) same_path
          ∙ ap (λ b. nulled p (at_key prev k (find_field k curr)).1 || b)
              (nulled-gone k p prev curr)) in
    let values =
      merged-not_empty k p prev (diff_fields prev curr).0
      ∙ ap (merged p (find_field k prev)) same_field in
    ap
      (λ b.
        if b
        then none
        else merged (k ∷ p) (some (object prev)) (not_empty_object (diff_fields prev curr).0))
      paths
    ∙ ap
        (λ v.
          if nulled p (at_key prev k (find_field k curr)).1
            || (is_some (find_field k prev) && not (is_some (find_field k curr)))
          then none
          else v)
        values

nulled-nil_gone : (prev curr : Fields) → nulled [] (gone prev curr) ≡ false
unfolding gone
nulled-nil_gone end curr = refl
nulled-nil_gone (field k v prev) curr = elim (Bool-cases (is_some (find_field k curr))) [
  | inl e ↦ rw e (nulled-nil_gone prev curr)
  | inr e ↦ rw e (nulled-nil_gone prev curr)
]

nulled-nil_diff : (prev curr : Fields) → nulled [] (diff_fields prev curr).1 ≡ false
unfolding diff_fields
nulled-nil_diff prev end = refl
nulled-nil_diff prev (field k cv curr) =
    let d : Option Json × List KeyPath = diff_value (find_field k prev) cv in
    ap (nulled []) (put-cleared k d (diff_fields prev curr))
    ∙ (any_append [] (below_key k d.1) (diff_fields prev curr).1
        ∙ (ap (λ b. b || nulled [] (diff_fields prev curr).1) (nulled-nil k d.1)
            ∙ nulled-nil_diff prev curr))

merged-nil :
    (prev sub : Fields) → merged [] (some (object prev)) (not_empty_object sub) ≡ some map_of
merged-nil prev end = refl
merged-nil prev (field k v f) = refl

received-nil :
    (prev curr : Fields)
    → received [] (some (object prev)) (diff_value (some (object prev)) (object curr)) ≡ some map_of
unfolding diff_value
received-nil prev curr =
    ap
      (λ b.
        if b
        then none
        else merged [] (some (object prev)) (not_empty_object (diff_fields prev curr).0))
      (any_append [] (diff_fields prev curr).1 (gone prev curr)
        ∙ (ap (λ b. b || nulled [] (gone prev curr)) (nulled-nil_diff prev curr)
            ∙ nulled-nil_gone prev curr))
    ∙ merged-nil prev (diff_fields prev curr).0

received-gone : (k : String) (p : KeyPath) (pv : Option Json) → behind k p pv none (none, []) ≡ none
received-gone k p none = refl
received-gone k p (some v) = refl

received-kept :
    (k : String) (p : KeyPath) (pv : Option Json) (cv : Json) (d : Option Json × List KeyPath)
    → behind k p pv (some cv) d ≡ received p pv d
received-kept k p pv cv (d, cleared) =
    ap (λ b. if b then none else merged p pv d)
      (ap (λ b. nulled p cleared || b) (and_false (is_some pv)) ∙ or_false (nulled p cleared))

mutual
  unfolding diff_value find_field

  received-diff_value :
      (pv : Option Json) (cv : Json) (p : KeyPath)
      → Distinct cv
      → received p pv (diff_value pv cv) ≡ find p (some cv)
  received-diff_value none cv p h = merged-new p cv
  received-diff_value (some (value a)) (value b) p h = elim (Bool-cases (str_eq a b)) [
    | inl e ↦ rw e (ap (λ s. find p (some (value s))) ((str_eq_iff a b).0 e))
    | inr e ↦ rw e refl
  ]
  received-diff_value (some (value a)) (object c) p h = refl
  received-diff_value (some (object f)) (value b) p h = refl
  received-diff_value (some (object f)) (object c) [] h = received-nil f c
  received-diff_value (some (object f)) (object c) (k ∷ p) h =
      received-behind k p f c h ∙ received-diff_fields f c k p h

  received-diff_fields :
      (prev curr : Fields) (k : String) (p : KeyPath)
      → DistinctFields curr
      → behind k p (find_field k prev) (find_field k curr) (at_key prev k (find_field k curr))
        ≡ find p (find_field k curr)
  received-diff_fields prev end k p h = received-gone k p (find_field k prev)
  received-diff_fields prev (field j cv curr) k p h = elim (Bool-cases (str_eq j k)) [
    | inl e ↦ rw e (
        received-kept k p (find_field k prev) cv (diff_value (find_field k prev) cv)
        ∙ received-diff_value (find_field k prev) cv p h.1)
    | inr e ↦ rw e (received-diff_fields prev curr k p h.2)
  ]

merged-object :
    (p : KeyPath) (prev sub : Fields)
    → merged p (some (object prev)) (some (object sub))
      ≡ merged p (some (object prev)) (not_empty_object sub)
unfolding find_field
merged-object [] prev end = refl
merged-object (k ∷ p) prev end = refl
merged-object p prev (field k v f) = refl

diff_value_maps :
    (p : KeyPath) (prev curr : Fields)
    → (if nulled p ((diff_fields prev curr).1 ++ gone prev curr)
        then none
        else merged p (some (object prev)) (not_empty_object (diff_fields prev curr).0))
      ≡ received p (some (object prev)) (diff_value (some (object prev)) (object curr))
unfolding diff_value
diff_value_maps p prev curr = refl

-- A receiver that has the previous map, merges the delta into it and then takes away what is at the cleared
-- paths has the current map: at every path it finds what stands there in the current map,
-- if no map of that has a key twice.
pub compute_delta-received :
    (prev curr : Fields) (p : KeyPath)
    → DistinctFields curr
    → received p
        (some (object prev))
        (some (object (compute_delta prev curr).0), (compute_delta prev curr).1)
      ≡ find p (some (object curr))
unfolding compute_delta
compute_delta-received prev curr p h =
    ap (λ v. if nulled p ((diff_fields prev curr).1 ++ gone prev curr) then none else v)
      (merged-object p prev (diff_fields prev curr).0)
    ∙ (diff_value_maps p prev curr ∙ received-diff_value (some (object prev)) (object curr) p h)
