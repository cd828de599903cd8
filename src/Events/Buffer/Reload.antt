-- ===== src/Events/Buffer/Reload.antt =====
-- What a restart finds in the file of internal/events/buffer.go, and the limits on its retries.
use radio_gaga.Common.{
  leb, ℕ, zero, suc, ◌*◌, ◌^◌, ◌≤◌, ◌≡◌, refl, sym, ap, subst, Bool, true, List, [], ◌⊎◌, inl, inr,
  ◌∷◌, ◌++◌, arith, drop-append_length, All, ltb, if◌then◌else◌, ◌&&◌, ◌==◌, ==_iff,
}
use radio_gaga.Events.Buffer.{
  BufferedEvent, Buffer, lines, longest_line, persist_to_disk, parse_lines, load_from_disk,
  new_buffer, add, send_batch, commit_batch, backoff, second,
}

leb_at_most : (n m : ℕ) → n ≤ m → leb n m ≡ true
leb_at_most n m h = ground (arith, h)

module _ {E : Type 0} where
  -- Every event is a line that the scanner takes.
  abbrev pub Short : (BufferedEvent E → ℕ) → List (BufferedEvent E) → Type 0
  Short bytes es = All (λ e. bytes e ≤ longest_line) es

  parse_lines-lines :
      (bytes : BufferedEvent E → ℕ) (es : List (BufferedEvent E))
      → Short bytes es
      → parse_lines bytes (lines es) ≡ es
  unfolding parse_lines
  parse_lines-lines bytes [] h = refl
  parse_lines-lines bytes (e ∷ es) h =
      rw (leb_at_most _ _ h.0) (ap (λ xs. e ∷ xs) (parse_lines-lines bytes es h.1))

  persist-new_buffer :
      (bytes : BufferedEvent E → ℕ) (max_retries : ℕ) (b : Buffer E)
      → b.has_path ≡ true
      → Short bytes b.events
      → (new_buffer bytes true max_retries (persist_to_disk true b).file).events ≡ b.events
  unfolding new_buffer load_from_disk persist_to_disk
  persist-new_buffer bytes max_retries b h s = simp h (parse_lines-lines bytes b.events s)

  -- A restart after an `Add` that reached the file finds all the events in their order, the new one last
  -- and with no retries, if each of them is a line that the scanner takes.
  pub add-new_buffer :
      (bytes : BufferedEvent E → ℕ) (max_retries : ℕ) (e : E) (b : Buffer E)
      → b.has_path ≡ true
      → Short bytes (b.events ++ record { event = e; retries = 0 } ∷ [])
      → (new_buffer bytes true max_retries (add true e b).file).events
        ≡ b.events ++ record { event = e; retries = 0 } ∷ []
  unfolding add
  add-new_buffer bytes max_retries e b h s = persist-new_buffer bytes max_retries _ h s

  -- A restart after a batch whose end reached the file finds the failed events first and then the
  -- events that were added while it was sent, if each of them is a line that the scanner takes.
  pub commit_batch-new_buffer :
      (bytes : BufferedEvent E → ℕ) (max_retries : ℕ) (sender : E → Bool) (b : Buffer E)
      (x : BufferedEvent E) (xs rest : List (BufferedEvent E))
      → b.has_path ≡ true
      → b.batch ≡ x ∷ xs
      → b.events ≡ (x ∷ xs) ++ rest
      → Short bytes ((send_batch b.max_retries sender (x ∷ xs)).failed ++ rest)
      → (new_buffer bytes true max_retries
          (commit_batch true (send_batch b.max_retries sender (x ∷ xs)) b).file).events
        ≡ (send_batch b.max_retries sender (x ∷ xs)).failed ++ rest
  unfolding commit_batch
  commit_batch-new_buffer bytes max_retries sender b x xs rest p e h s =
      rw (e, h, drop-append_length xs rest) (persist-new_buffer bytes max_retries _ p s)

  -- Every event that a batch keeps has been tried at least once, and at most as often as is allowed.
  pub send_batch-failed_bound :
      (max : ℕ) (sender : E → Bool) (bs : List (BufferedEvent E))
      → All (λ e. (1 ≤ e.retries) × (e.retries ≤ max)) (send_batch max sender bs).failed
  unfolding send_batch
  send_batch-failed_bound max sender [] = tt
  send_batch-failed_bound max sender (b ∷ bs) =
      ground (arith, send_batch-failed_bound max sender bs)

-- The wait that the source means: a second, doubled after each failure, and 30 seconds at most.
abbrev pub intended_wait : ℕ → ℕ
intended_wait zero = 0
intended_wait (suc r) = if ltb 30 (2 ^ r) then 30 * second else 2 ^ r * second

abbrev waits_agree : ℕ → Bool
waits_agree zero = true
waits_agree (suc n) = (backoff (suc n) == intended_wait (suc n)) && waits_agree n

waits_agree_34 : waits_agree 34 ≡ true
unfolding backoff
waits_agree_34 = refl

&&_elim : (a b : Bool) → (a && b) ≡ true → (a ≡ true) × (b ≡ true)
&&_elim a b h = ground arith

≤-cases : (r n : ℕ) → r ≤ suc n → (r ≡ suc n) ⊎ (r ≤ n)
≤-cases r n u = grind arith

waits_agree_lem : (n r : ℕ) → waits_agree n ≡ true → 1 ≤ r → r ≤ n → backoff r ≡ intended_wait r
waits_agree_lem zero r h l u = omega (arith, l, u)
waits_agree_lem (suc n) r h l u =
    let (here, below) = &&_elim (backoff (suc n) == intended_wait (suc n)) (waits_agree n) h in
    elim (≤-cases r n u) [
      | inl e ↦ subst (λ k. backoff k ≡ intended_wait k) (sym e) ((==_iff _ _).0 here)
      | inr v ↦ waits_agree_lem n r below l v
    ]

-- After each of the first 34 failures of an event, the wait is the doubled second that the source means,
-- cut to 30 seconds: nothing wraps.
pub backoff_lem : (r : ℕ) → 1 ≤ r → r ≤ 34 → backoff r ≡ intended_wait r
backoff_lem r l u = waits_agree_lem 34 r waits_agree_34 l u
