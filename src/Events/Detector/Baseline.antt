-- ===== src/Events/Detector/Baseline.antt =====
-- What the baseline of internal/events/detector.go does for the first change of each field.
use radio_gaga.Common.{
  ◌≡◌, inl, inr, refl, ◌∙◌, false, String, str_eq, str_append, List, [], ◌∷◌, ◌++◌, Option, get,
  lookup, insert, get-insert, All, Option-cases,
}
use radio_gaga.Notifications.Rules.{NotificationRule}
use radio_gaga.Events.Detector.{
  Memory, check_locks, only, changed, lock_change, read_baseline, initialize_baseline,
  baseline_fields, rule_fields,
}

-- The entry of a field in the memory, as the baseline names it.
abbrev pub state_key : String × String → String
state_key (hash, field) = str_append hash (str_append ":" field)

get-read_baseline :
    (hget : String → String → Option String) (pairs : List (String × String)) (last : Memory)
    (key : String)
    → All (λ p. str_eq (state_key p) key ≡ false) pairs
    → get key (read_baseline hget pairs last) ≡ get key last
unfolding read_baseline
get-read_baseline hget [] last key h = refl
get-read_baseline hget ((hash, field) ∷ pairs) last key h = elim (Option-cases (hget hash field)) [
  | inl e ↦ simp e (get-read_baseline hget pairs last key h.1)
  | inr (v, e) ↦ simp e (
      get-read_baseline hget pairs (insert (state_key (hash, field)) v last) key h.1
      ∙ (get-insert (state_key (hash, field)) key v last ∙ rw h.0 refl))
]

module _ (hget : String → String → Option String) (rules : List NotificationRule) where
  abbrev pub Apart : String → Type 0
  Apart key = All (λ p. str_eq (state_key p) key ≡ false) (rule_fields rules)

  get-handlebar :
      Apart "vehicle:handlebar" → get "vehicle:handlebar" (initialize_baseline hget rules []) ≡ ""
  unfolding initialize_baseline lookup
  get-handlebar h =
      get-read_baseline hget (baseline_fields ++ rule_fields rules) [] "vehicle:handlebar" (
        refl,
        (
          refl,
          (
            refl,
            (
              refl,
              (
                refl,
                (
                  refl,
                  (refl, (refl, (refl, (refl, (refl, (refl, (refl, (refl, (refl, (refl, h)))))))))),
                ),
              ),
            ),
          ),
        ),
      )

  get-seatbox :
      Apart "vehicle:seatbox" → get "vehicle:seatbox" (initialize_baseline hget rules []) ≡ ""
  unfolding initialize_baseline lookup
  get-seatbox h =
      get-read_baseline hget (baseline_fields ++ rule_fields rules) [] "vehicle:seatbox" (
        refl,
        (
          refl,
          (
            refl,
            (
              refl,
              (
                refl,
                (
                  refl,
                  (refl, (refl, (refl, (refl, (refl, (refl, (refl, (refl, (refl, (refl, h)))))))))),
                ),
              ),
            ),
          ),
        ),
      )

  -- The locks are compared with what the first check behind the start finds, not with the baseline: with
  -- no rule on the entries that the check of the locks compares with, the baseline leaves them empty
  -- whatever Redis replies; the first check sends nothing, whatever the locks are by then, and a
  -- second one sends a change of a lock just where the first check found a value and it finds another.
  pub check_locks-initialize_baseline :
      (fields later : List (String × String))
      → Apart "vehicle:handlebar"
      → Apart "vehicle:seatbox"
      → ((check_locks fields (initialize_baseline hget rules [])).sent ≡ [])
        × ((check_locks later (check_locks fields (initialize_baseline hget rules [])).last).sent
            ≡ only
                (changed (get "handlebar:lock-sensor" fields) (get "handlebar:lock-sensor" later))
                (lock_change "handlebar" (get "handlebar:lock-sensor" later))
              ++ only
                  (changed (get "seatbox:lock" fields) (get "seatbox:lock" later))
                  (lock_change "seatbox" (get "seatbox:lock" later)))
  unfolding check_locks
  check_locks-initialize_baseline fields later h s =
      (simp (get-insert, get-handlebar h, get-seatbox s), simp get-insert refl)
