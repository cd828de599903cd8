-- ===== src/Handlers/SelfUpdate/Held.antt =====
-- What a scan of internal/handlers/self_update_state.go for another request leaves of a result.
use radio_gaga.Common.{
  if_both, ℕ, zero, suc, ◌+◌, ◌-◌, ◌≤◌, ◌≡◌, refl, ap, ◌∙◌, false, String, str_eq, List, [], ◌∷◌,
  ◌++◌, ltb, leb, length, drop, length-append, All, All-append, arith,
}
use mathlib.Core.List.{append_assoc}
use radio_gaga.Handlers.SelfUpdate.{
  cache_ttl, SelfUpdateResult, ResultsFile, missing, unreadable, entries, Around, Scan, found,
  other_identity, kept, keep, scan, message_of, trimmed, record_result,
}
use radio_gaga.Handlers.SelfUpdate.Replay.{Other, drop-Other}

-- The result stands in the list, with at most so many behind it, and none other is of its request.
pub record Within (request : String) (r : SelfUpdateResult) (k : ℕ) (rs : List SelfUpdateResult)
    : Type 0 where
  pub older : List SelfUpdateResult
  pub newer : List SelfUpdateResult
  pub is : rs ≡ older ++ r ∷ newer
  pub others_older : All (Other request) older
  pub others_newer : All (Other request) newer
  pub few : length newer ≤ k

drop-append :
    (n : ℕ) (xs ys : List SelfUpdateResult) → n ≤ length xs → drop n (xs ++ ys) ≡ drop n xs ++ ys
drop-append zero xs ys h = refl
drop-append (suc n) [] ys h = let none_left : ⊥ = omega (arith, h) in elim none_left [ ]
drop-append (suc n) (x ∷ xs) ys h = drop-append n xs ys (omega (arith, h))

module _ (request : String) (r : SelfUpdateResult) where
  abbrev pub Holds : ℕ → ResultsFile → Type 0
  Holds k missing = ⊥
  Holds k unreadable = ⊥
  Holds k (entries rs) = Within request r k rs × (length rs ≤ 64)

  -- What a scan for another request keeps of the results, and of those behind the result.
  abbrev pub Kept : ℕ → Scan → Type 0
  Kept k (kept rs) = Within request r k rs
  Kept k (found q) = Unit
  Kept k other_identity = Unit

  abbrev Behind : ℕ → Scan → Type 0
  Behind k (kept rs) = All (Other request) rs × (length rs ≤ k)
  Behind k (found q) = Unit
  Behind k other_identity = Unit

  pub Within-more :
      (k n : ℕ) (rs : List SelfUpdateResult) → k ≤ n → Within request r k rs → Within request r n rs
  Within-more k n rs l h = record {
    older = h.older;
    newer = h.newer;
    is = h.is;
    others_older = h.others_older;
    others_newer = h.others_newer;
    few = omega (arith, l, h.few);
  }

  pub Kept-more : (k n : ℕ) (s : Scan) → k ≤ n → Kept k s → Kept n s
  Kept-more k n (kept rs) l h = Within-more k n rs l h
  Kept-more k n (found q) l h = tt
  Kept-more k n other_identity l h = tt

  Behind-more : (k n : ℕ) (s : Scan) → k ≤ n → Behind k s → Behind n s
  Behind-more k n (kept rs) l h = (h.0, omega (arith, l, h.1))
  Behind-more k n (found q) l h = tt
  Behind-more k n other_identity l h = tt

  keep-Behind :
      (k n : ℕ) (x : SelfUpdateResult) (s : Scan)
      → k + 1 ≤ n
      → Other request x
      → Behind k s
      → Behind n (keep x s)
  keep-Behind k n x (kept rs) l o h = ((o, h.0), omega (arith, l, h.1))
  keep-Behind k n x (found q) l o h = tt
  keep-Behind k n x other_identity l o h = tt

  keep-Kept :
      (k : ℕ) (x : SelfUpdateResult) (s : Scan) → Other request x → Kept k s → Kept k (keep x s)
  keep-Kept k x (kept rs) o h = record {
    older = x ∷ h.older;
    newer = h.newer;
    is = ap (λ ys. x ∷ ys) h.is;
    others_older = (o, h.others_older);
    others_newer = h.others_newer;
    few = h.few;
  }
  keep-Kept k x (found q) o h = tt
  keep-Kept k x other_identity o h = tt

  keep_itself-Kept : (k : ℕ) (s : Scan) → Behind k s → Kept k (keep r s)
  keep_itself-Kept k (kept rs) h = record {
    older = [];
    newer = rs;
    is = refl;
    others_older = tt;
    others_newer = h.0;
    few = h.1;
  }
  keep_itself-Kept k (found q) h = tt
  keep_itself-Kept k other_identity h = tt

  module _ (now : ℕ) (other identity : String) where
    scan-Behind :
        (ys : List SelfUpdateResult)
        → All (Other request) ys
        → Behind (length ys) (scan now other identity ys)
    unfolding scan
    scan-Behind [] h = (tt, omega arith)
    scan-Behind (y ∷ ys) h =
        let P : Scan → Type 0 = Behind (length (y ∷ ys)) in
        let rest = scan-Behind ys h.1 in
        if_both P (ltb cache_ttl (now - y.finished))
          (Behind-more (length ys) _ _ (omega arith) rest)
          (if_both P (str_eq y.request other) (if_both P (str_eq y.identity identity) tt tt)
            (keep-Behind (length ys) _ y _ (omega arith) h.0 rest))

    pub scan-Kept :
        (xs ys : List SelfUpdateResult)
        → All (Other request) xs
        → All (Other request) ys
        → ltb cache_ttl (now - r.finished) ≡ false
        → str_eq r.request other ≡ false
        → Kept (length ys) (scan now other identity (xs ++ r ∷ ys))
    unfolding scan
    scan-Kept [] ys h o fresh differs =
        rw (fresh, differs) (keep_itself-Kept _ _ (scan-Behind ys o))
    scan-Kept (x ∷ xs) ys h o fresh differs =
        let P : Scan → Type 0 = Kept (length ys) in
        let rest = scan-Kept xs ys h.1 o fresh differs in
        if_both P (ltb cache_ttl (now - x.finished)) rest (
          if_both P (str_eq x.request other) (if_both P (str_eq x.identity identity) tt tt)
            (keep-Kept _ x _ h.0 rest))

  trimmed-Within :
      (k : ℕ) (rs : List SelfUpdateResult)
      → k ≤ 62
      → Within request r k rs
      → Within request r k (trimmed rs)
  unfolding trimmed
  trimmed-Within k rs l h =
      let n : ℕ = length rs - 63 in
      let long = ap length h.is ∙ length-append h.older (r ∷ h.newer) in
      if_both (Within request r k) (leb 64 (length rs))
        (record {
          older = drop n h.older;
          newer = h.newer;
          is =
              ap (drop n) h.is
              ∙ drop-append n h.older (r ∷ h.newer) (omega (arith, long, l, h.few));
          others_older = drop-Other request n h.older h.others_older;
          others_newer = h.others_newer;
          few = h.few;
        })
        h

  pub record_result-Within :
      (a : Around) (other identity : String) (k : ℕ) (rs : List SelfUpdateResult)
      → k ≤ 62
      → str_eq other request ≡ false
      → Within request r k rs
      → Within request r (k + 1) (record_result a other identity rs)
  unfolding record_result
  record_result-Within a other identity k rs l differs h =
      let t = trimmed-Within k rs l h in
      let last : List SelfUpdateResult =
        record {
          request = other;
          identity = identity;
          error = message_of a.run;
          finished = a.finished_at;
        }
        ∷ [] in
      record {
        older = t.older;
        newer = t.newer ++ last;
        is = ap (λ ys. ys ++ last) t.is ∙ append_assoc t.older (r ∷ t.newer) last;
        others_older = t.others_older;
        others_newer = All-append (Other request) t.newer last t.others_newer (differs, tt);
        few = omega (arith, t.few, length-append t.newer last);
      }
