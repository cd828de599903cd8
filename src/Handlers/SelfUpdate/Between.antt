-- ===== src/Handlers/SelfUpdate/Between.antt =====
-- A request that comes again to internal/handlers/self_update_state.go behind other requests.
use radio_gaga.Common.{
  if_both, ℕ, ◌+◌, ◌-◌, ◌≤◌, ◌≡◌, inl, inr, refl, sym, subst, ap, ◌∙◌, true, false, String, str_eq,
  str_eq_iff, not, List, [], ◌∷◌, ◌++◌, ltb, same_text, length, All, Bool-cases, arith,
}
use radio_gaga.Handlers.SelfUpdate.{
  cache_ttl, SelfUpdateResult, ResultsFile, missing, unreadable, entries, Around, Ran, Scan, found,
  other_identity, kept, scan, answer_of, message_of, trimmed, record_result, run_and_save,
  save_result, Save, saved, not_written, not_synced, after_scan, run_coordinated_self_update,
}
use radio_gaga.Handlers.SelfUpdate.Replay.{Other, trimmed-Other, expired, writes, run-Left}
use radio_gaga.Handlers.SelfUpdate.History.{runs, length-record_result}
use radio_gaga.Handlers.SelfUpdate.Held.{
  Within, Holds, Kept, Kept-more, Within-more, scan-Kept, record_result-Within,
}

differs_sym : (s t : String) → str_eq s t ≡ false → str_eq t s ≡ false
differs_sym s t h = elim (Bool-cases (str_eq t s)) [
  | inl e ↦ let same = (str_eq_iff s t).1 (sym ((str_eq_iff t s).0 e)) in cc
  | inr e ↦ e
]

short_lem : (n : ℕ) → n ≤ 64 → ltb 64 n ≡ false
short_lem n h = ground (arith, h)

module _ (request : String) (r : SelfUpdateResult) where
  save_result-Holds :
      (a : Around) (k : ℕ) (rs : List SelfUpdateResult) (file : ResultsFile) (s : Save)
      → Holds request r k (entries rs)
      → Holds request r k file
      → Holds request r k (save_result a rs file s).file
  save_result-Holds a k rs file saved h o = h
  save_result-Holds a k rs file not_written h o = o
  save_result-Holds a k rs file not_synced h o = h

  after_scan-Holds :
      (a : Around) (other identity : String) (k : ℕ) (file : ResultsFile) (s : Scan)
      → k ≤ 62
      → str_eq other request ≡ false
      → Kept request r k s
      → Holds request r (k + 1) file
      → Holds request r (k + 1) (after_scan a other identity file s).file
  unfolding run_and_save
  after_scan-Holds a other identity k file (found q) l differs h o = o
  after_scan-Holds a other identity k file other_identity l differs h o = o
  after_scan-Holds a other identity k file (kept rs) l differs h o =
      if_both (λ (t : Ran). Holds request r (k + 1) t.file) a.over_after o
        (save_result-Holds a (k + 1) _ file a.save
          (
            record_result-Within request r a other identity k rs l differs h,
            length-record_result a other identity rs,
          )
          o)

  run-Holds :
      (a : Around) (other identity : String) (k : ℕ) (file : ResultsFile)
      → k ≤ 62
      → str_eq other request ≡ false
      → str_eq r.request other ≡ false
      → a.now ≤ r.finished + cache_ttl
      → Holds request r k file
      → Holds request r (k + 1) (run_coordinated_self_update a other identity file).file
  unfolding run_coordinated_self_update
  run-Holds a other identity k missing l d e t h = elim h [ ]
  run-Holds a other identity k unreadable l d e t h = elim h [ ]
  run-Holds a other identity k (entries rs) l d e t (h, short) =
      let P : Ran → Type 0 = λ u. Holds request r (k + 1) u.file in
      let more : Within request r (k + 1) rs = Within-more request r k (k + 1) rs (omega arith) h in
      let left =
        subst (λ xs. Kept request r (length h.newer) (scan a.now other identity xs)) (sym h.is)
          (scan-Kept request r a.now other identity h.older h.newer h.others_older h.others_newer
            (expired a.now r.finished t) e) in
      if_both P a.over (more, short)
        (if_both P (not a.directory_made) (more, short)
          (if_both P (not a.lock_taken) (more, short)
            (if_both P (ltb 64 (length rs)) (more, short)
              (after_scan-Holds a other identity k (entries rs) _ l d
                (Kept-more request r (length h.newer) k _ h.few left) (more, short)))))

  Holds-more :
      (k n : ℕ) (file : ResultsFile) → k ≤ n → Holds request r k file → Holds request r n file
  Holds-more k n (entries rs) l h = (Within-more request r k n rs l h.0, h.1)
  Holds-more k n missing l h = elim h [ ]
  Holds-more k n unreadable l h = elim h [ ]

  -- A run of another request while the result lasts.
  abbrev pub Between : Around × String × String → Type 0
  Between (a, other, identity) = (str_eq other request ≡ false) × (a.now ≤ r.finished + cache_ttl)

  runs-Holds :
      (as' : List (Around × String × String)) (k : ℕ) (file : ResultsFile)
      → r.request ≡ request
      → length as' + k ≤ 63
      → All Between as'
      → Holds request r k file
      → Holds request r 63 (runs as' file)
  unfolding runs
  runs-Holds [] k file q l b h = Holds-more k 63 file (omega (arith, l)) h
  runs-Holds ((a, other, identity) ∷ as') k file q l b h =
      let here = b.0 in
      runs-Holds as' (k + 1) (run_coordinated_self_update a other identity file).file q
        (omega (arith, l)) b.1
        (run-Holds a other identity k file (omega (arith, l)) here.0
          (subst (λ s. str_eq s other ≡ false) (sym q) (differs_sym other request here.0)) here.1 h)

  scan-found :
      (now : ℕ) (identity : String) (xs ys : List SelfUpdateResult)
      → All (Other request) xs
      → r.request ≡ request
      → r.identity ≡ identity
      → now ≤ r.finished + cache_ttl
      → scan now request identity (xs ++ r ∷ ys) ≡ found r
  unfolding scan
  scan-found now identity [] ys h q i t =
      rw
        (
          expired now r.finished t,
          ap (λ s. str_eq s request) q,
          same_text request,
          ap (λ s. str_eq s identity) i,
          same_text identity,
        )
        refl
  scan-found now identity (x ∷ xs) ys h q i t =
      elim (Bool-cases (ltb cache_ttl (now - x.finished))) [
        | inl old ↦ rw old (scan-found now identity xs ys h.1 q i t)
        | inr fresh ↦ rw (fresh, h.0, scan-found now identity xs ys h.1 q i t) refl
      ]

  answered :
      (b : Around) (identity : String) (file : ResultsFile)
      → Holds request r 63 file
      → r.request ≡ request
      → r.identity ≡ identity
      → b.over ≡ false
      → b.directory_made ≡ true
      → b.lock_taken ≡ true
      → b.now ≤ r.finished + cache_ttl
      → run_coordinated_self_update b request identity file
        ≡ record { file = file; ran = false; answer = answer_of r.error }
  unfolding run_coordinated_self_update
  answered b identity missing h q i over made taken soon = elim h [ ]
  answered b identity unreadable h q i over made taken soon = elim h [ ]
  answered b identity (entries rs) (h, short) q i over made taken soon =
      let hit =
        ap (scan b.now request identity) h.is
        ∙ scan-found b.now identity h.older h.newer h.others_older q i soon in
      simp (over, made, taken, short_lem (length rs) short, hit)

-- A request that comes again within a week of a run that updated, whose context lasted and whose result
-- was written, does not update, if its own context lasts and it gets the directory and the lock, and if
-- no more than 63 commands ran in between, all of other requests and within that week: it answers
-- with the result of that run, its text cut to 512 bytes, and leaves the results alone.
pub runs-replayed :
    (a b : Around) (request identity : String) (file : ResultsFile)
    (others : List (Around × String × String))
    → a.over_after ≡ false
    → writes a.save ≡ true
    → (run_coordinated_self_update a request identity file).ran ≡ true
    → length others ≤ 63
    → All
        (λ (c, other, _). (str_eq other request ≡ false) × (c.now ≤ a.finished_at + cache_ttl))
        others
    → b.over ≡ false
    → b.directory_made ≡ true
    → b.lock_taken ≡ true
    → b.now ≤ a.finished_at + cache_ttl
    → run_coordinated_self_update b request identity
        (runs others (run_coordinated_self_update a request identity file).file)
      ≡ record {
        file = runs others (run_coordinated_self_update a request identity file).file;
        ran = false;
        answer = answer_of (message_of a.run);
      }
unfolding record_result
runs-replayed a b request identity file others h w ran few between over made taken soon =
    let r : SelfUpdateResult = record {
      request = request;
      identity = identity;
      error = message_of a.run;
      finished = a.finished_at;
    } in
    let (rs, is, apart) = run-Left a request identity file h w ran in
    let stands : Within request r 0 (record_result a request identity rs) = record {
      older = trimmed rs;
      newer = [];
      is = refl;
      others_older = trimmed-Other request rs apart;
      others_newer = tt;
      few = omega arith;
    } in
    let left : Holds request r 0 (run_coordinated_self_update a request identity file).file =
      subst (Holds request r 0) (sym is) (stands, length-record_result a request identity rs) in
    answered request r b identity
      (runs others (run_coordinated_self_update a request identity file).file)
      (runs-Holds request r others 0 (run_coordinated_self_update a request identity file).file refl
        (omega (arith, few)) between left)
      refl refl over made taken soon
