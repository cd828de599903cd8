-- ===== src/Client/TelemetryDelta/Received.antt =====
-- What a receiver makes of a delta of internal/client/telemetry_delta.go, and what the delta says at a key.
use radio_gaga.Common.{
  ◌≡◌, inl, inr, refl, ap, subst, ◌∙◌, Bool, true, false, not, ◌&&◌, ◌||◌, String, str_eq,
  str_eq_iff, List, [], ◌∷◌, ◌++◌, Option, none, some, if◌then◌else◌, same_text, and_false, any,
  Bool-cases, is_some,
}
use radio_gaga.Client.TelemetryDelta.{
  Json, value, object, Fields, end, field, find_field, KeyPath, below_key, gone, put, diff_value,
  diff_fields,
}

-- What stands at a path: a value, or a map.
pub data Kind : Type 0 where
  value_of : String → Kind
  map_of : Kind

abbrev pub find : KeyPath → Option Json → Option Kind
find p none = none
find [] (some (value a)) = some (value_of a)
find [] (some (object f)) = some map_of
find (k ∷ p) (some (value a)) = none
find (k ∷ p) (some (object f)) = find p (find_field k f)

-- A delta merged into what the receiver has, at a path: two maps are merged key by key, and any other value
-- of the delta replaces what was there.
abbrev pub merged : KeyPath → Option Json → Option Json → Option Kind
merged p base none = find p base
merged p base (some (value a)) = find p (some (value a))
merged p none (some (object d)) = find p (some (object d))
merged p (some (value a)) (some (object d)) = find p (some (object d))
merged [] (some (object b)) (some (object d)) = some map_of
merged (k ∷ p) (some (object b)) (some (object d)) = merged p (find_field k b) (find_field k d)

abbrev pub starts : KeyPath → KeyPath → Bool
starts [] p = true
starts (j ∷ q) [] = false
starts (j ∷ q) (k ∷ p) = str_eq j k && starts q p

-- A cleared path takes away what stands at it and behind it.
abbrev pub nulled : KeyPath → List KeyPath → Bool
nulled p cleared = any (λ q. starts q p) cleared

abbrev pub received : KeyPath → Option Json → Option Json × List KeyPath → Option Kind
received p base (delta, cleared) = if nulled p cleared then none else merged p base delta

-- No map has a key twice.
abbrev mutual
  pub Distinct : Json → Type 0
  Distinct (value a) = Unit
  Distinct (object f) = DistinctFields f

  pub DistinctFields : Fields → Type 0
  DistinctFields end = Unit
  DistinctFields (field k v f) = (find_field k f ≡ none) × Distinct v × DistinctFields f

pub any_append :
    (p : KeyPath) (xs ys : List KeyPath) → nulled p (xs ++ ys) ≡ (nulled p xs || nulled p ys)
any_append p [] ys = refl
any_append p (x ∷ xs) ys = elim (Bool-cases (starts x p)) [
  | inl e ↦ rw e refl
  | inr e ↦ rw e (any_append p xs ys)
]

pub or_false : (b : Bool) → (b || false) ≡ b
or_false true = refl
or_false false = refl

pub nulled-same :
    (k : String) (p : KeyPath) (ps : List KeyPath) → nulled (k ∷ p) (below_key k ps) ≡ nulled p ps
nulled-same k p [] = refl
nulled-same k p (q ∷ ps) = rw (same_text k, nulled-same k p ps) refl

pub nulled-other :
    (j k : String) (p : KeyPath) (ps : List KeyPath)
    → str_eq j k ≡ false
    → nulled (k ∷ p) (below_key j ps) ≡ false
nulled-other j k p [] h = refl
nulled-other j k p (q ∷ ps) h = rw (h, nulled-other j k p ps h) refl

pub nulled-nil : (k : String) (ps : List KeyPath) → nulled [] (below_key k ps) ≡ false
nulled-nil k [] = refl
nulled-nil k (p ∷ ps) = nulled-nil k ps

pub nulled-gone :
    (k : String) (p : KeyPath) (prev curr : Fields)
    → nulled (k ∷ p) (gone prev curr)
      ≡ (is_some (find_field k prev) && not (is_some (find_field k curr)))
unfolding gone find_field
nulled-gone k p end curr = refl
nulled-gone k p (field j v prev) curr = elim (Bool-cases (str_eq j k)) [
  | inl e ↦
      let same = ap (λ i. is_some (find_field i curr)) ((str_eq_iff j k).0 e) in
      elim (Bool-cases (is_some (find_field k curr))) [
        | inl there ↦ simp (e, same, there, nulled-gone k p prev curr, and_false)
        | inr lost ↦ simp (e, same, lost)
      ]
  | inr e ↦ elim (Bool-cases (is_some (find_field j curr))) [
    | inl there ↦ simp (e, there, nulled-gone k p prev curr)
    | inr lost ↦ simp (e, lost, nulled-gone k p prev curr)
  ]
]

-- What the loop over `curr` gives at a key.
abbrev pub at_key : Fields → String → Option Json → Option Json × List KeyPath
at_key prev k none = (none, [])
at_key prev k (some cv) = diff_value (find_field k prev) cv

pub find_field-put_same :
    (k : String) (d : Option Json × List KeyPath) (rest : Fields × List KeyPath)
    → find_field k rest.0 ≡ none
    → find_field k (put k d rest).0 ≡ d.0
unfolding find_field
find_field-put_same k (none, cleared) rest h = h
find_field-put_same k (some v, cleared) rest h = rw (same_text k) refl

pub find_field-put_other :
    (j k : String) (d : Option Json × List KeyPath) (rest : Fields × List KeyPath)
    → str_eq j k ≡ false
    → find_field k (put j d rest).0 ≡ find_field k rest.0
unfolding find_field
find_field-put_other j k (none, cleared) rest h = refl
find_field-put_other j k (some v, cleared) rest h = rw h refl

pub put-cleared :
    (k : String) (d : Option Json × List KeyPath) (rest : Fields × List KeyPath)
    → (put k d rest).1 ≡ below_key k d.1 ++ rest.1
put-cleared k (none, cleared) rest = refl
put-cleared k (some v, cleared) rest = refl

pub nulled-put_same :
    (k : String) (p : KeyPath) (d : Option Json × List KeyPath) (rest : Fields × List KeyPath)
    → nulled (k ∷ p) rest.1 ≡ false
    → nulled (k ∷ p) (put k d rest).1 ≡ nulled p d.1
nulled-put_same k p d rest h =
    ap (nulled (k ∷ p)) (put-cleared k d rest)
    ∙ (any_append (k ∷ p) (below_key k d.1) rest.1
        ∙ (ap (λ b. nulled (k ∷ p) (below_key k d.1) || b) h ∙ (or_false _ ∙ nulled-same k p d.1)))

pub nulled-put_other :
    (j k : String) (p : KeyPath) (d : Option Json × List KeyPath) (rest : Fields × List KeyPath)
    → str_eq j k ≡ false
    → nulled (k ∷ p) (put j d rest).1 ≡ nulled (k ∷ p) rest.1
nulled-put_other j k p d rest h =
    ap (nulled (k ∷ p)) (put-cleared j d rest)
    ∙ (any_append (k ∷ p) (below_key j d.1) rest.1
        ∙ ap (λ b. b || nulled (k ∷ p) rest.1) (nulled-other j k p d.1 h))

-- The loop over `curr` says the same at a key as its round for that key.
abbrev pub SaysAt : Fields → Fields → String → KeyPath → Type 0
SaysAt prev curr k p =
    (find_field k (diff_fields prev curr).0 ≡ (at_key prev k (find_field k curr)).0)
    × (nulled (k ∷ p) (diff_fields prev curr).1 ≡ nulled p (at_key prev k (find_field k curr)).1)

pub says_at :
    (prev curr : Fields) (k : String) (p : KeyPath) → DistinctFields curr → SaysAt prev curr k p
unfolding find_field diff_fields
says_at prev end k p h = (refl, refl)
says_at prev (field j cv curr) k p (alone, inner, h) = elim (Bool-cases (str_eq j k)) [
  | inl e ↦
      subst (λ i. SaysAt prev (field j cv curr) i p) ((str_eq_iff j k).0 e)
        (let (no_field, no_path) = says_at prev curr j p h in
          let d : Option Json × List KeyPath = diff_value (find_field j prev) cv in
          let lacks = no_field ∙ ap (λ o. (at_key prev j o).0) alone in
          let keeps = no_path ∙ ap (λ o. nulled p (at_key prev j o).1) alone in
          rw (same_text j) (
            find_field-put_same j d (diff_fields prev curr) lacks,
            nulled-put_same j p d (diff_fields prev curr) keeps,
          ))
  | inr e ↦
      let (same_field, same_path) = says_at prev curr k p h in
      let d : Option Json × List KeyPath = diff_value (find_field j prev) cv in
      rw e (
        find_field-put_other j k d (diff_fields prev curr) e ∙ same_field,
        nulled-put_other j k p d (diff_fields prev curr) e ∙ same_path,
      )
]
