-- ===== src/RideGroup/Session/Grants.antt =====
-- When the adapter of internal/ridegroup holds a grant, and how one grant follows another.
use radio_gaga.Common.{
  not, ◌&&◌, ◌||◌, is_some, same_text, ℕ, ◌≡◌, refl, sym, subst, ◌∙◌, Bool, true, false, String,
  List, [], ◌∷◌, Option, none, some, ltb, arith,
}
use radio_gaga.RideGroup.State.{Control}
use radio_gaga.RideGroup.Publication.{is_active, phase_is}
use radio_gaga.RideGroup.Validation.{validate_control_v2}
use radio_gaga.RideGroup.Session.{Session, World, same_string}
use radio_gaga.RideGroup.Session.Events.{may_reset, Event, step, steps}
use radio_gaga.RideGroup.Session.Machine.{
  Standing, standing, Move, inhibits, believes, suspends, rides, rests, ends, leaves, loses_journal,
  Moves, here, next, advances, Change, moves, grants, resets,
}
use radio_gaga.RideGroup.Session.Refinement.{step-Changed}

-- The journal is idle, the scooter rides, and the grant is valid and the last one that was given.
abbrev pub Granted : Standing → Option Control → Type 0
Granted v none = Unit
Granted v (some g) =
    (v.ready ≡ true)
    × (is_active v.activity ≡ true)
    × (v.authority ≡ some g)
    × (validate_control_v2 g ≡ true)

abbrev pub Ready : Standing → Bool → Type 0
Ready v true = (v.blocked ≡ false) × (phase_is "idle" v.journal ≡ true)
Ready v false = Unit

abbrev pub IsSound : Standing → Type 0
IsSound v = Granted v v.grant × Ready v v.ready

Move-IsSound : {o : Bool} {v u : Standing} → Move o v u → IsSound v → IsSound u
Move-IsSound (inhibits v) h = (tt, tt)
Move-IsSound (believes v j o i) h = ground (arith, h, i)
Move-IsSound (suspends v j o) h = (tt, tt)
Move-IsSound (rides v a o e) h = ground (arith, h, e)
Move-IsSound (rests v a o) h = (tt, h.1)
Move-IsSound (ends v) h = (tt, h.1)
Move-IsSound (leaves v) h = (tt, h.1)
Move-IsSound (loses_journal v) h = (tt, tt)

Moves-IsSound : {o : Bool} {v u : Standing} → Moves o v u → IsSound v → IsSound u
Moves-IsSound here h = h
Moves-IsSound (next ms m) h = Move-IsSound m (Moves-IsSound ms h)

Change-IsSound : {o g r : Bool} {v u : Standing} → Change o g r v u → IsSound v → IsSound u
Change-IsSound (moves ms) h = Moves-IsSound ms h
Change-IsSound (grants c g v r a f e) h = subst IsSound (sym e) ((r, a, refl, v), h.1)
Change-IsSound (resets r e) h = subst IsSound (sym e) (tt, tt)

-- From a state where this holds, and after any events in any order, the adapter holds a grant only while the
-- journal is ready and the last activity is an active one, and that grant is the last one accepted, and
-- a valid message; and the journal is ready only while it was last seen idle and is not blocked.
pub steps-IsSound :
    (es : List (World × Event)) (s : Session)
    → IsSound (standing s)
    → IsSound (standing (steps es s))
unfolding steps
steps-IsSound [] s h = h
steps-IsSound ((w, e) ∷ es) s h =
    steps-IsSound es (step w e s) (Change-IsSound (step-Changed w e s) h)

Move-authority : {o : Bool} {v u : Standing} → Move o v u → u.authority ≡ v.authority
Move-authority (inhibits v) = refl
Move-authority (believes v j o i) = refl
Move-authority (suspends v j o) = refl
Move-authority (rides v a o e) = refl
Move-authority (rests v a o) = refl
Move-authority (ends v) = refl
Move-authority (leaves v) = refl
Move-authority (loses_journal v) = refl

Moves-authority : {o : Bool} {v u : Standing} → Moves o v u → u.authority ≡ v.authority
Moves-authority here = refl
Moves-authority (next ms m) = Move-authority m ∙ Moves-authority ms

same_string-same : (a : Option String) → same_string a a ≡ true
same_string-same none = refl
same_string-same (some a) = same_text a

not_below : (n : ℕ) → ltb n n ≡ false
not_below n = ground arith

advances-same : (g : Option Control) → advances g g ≡ true
advances-same none = refl
advances-same (some g) = ground (
  arith,
  not_below g.transport_epoch,
  not_below g.revision,
  not_below g.consent_generation,
  same_string-same g.stream_id,
)

-- The last accepted grant behind an event, `newer`, is the one before it, or one that may replace it, or
-- none where the event may reset.
abbrev pub succeeds : Bool → Option Control → Option Control → Bool
succeeds fresh last newer = (fresh && not (is_some newer)) || advances last newer

advances-succeeds : (b a : Bool) → a ≡ true → (b || a) ≡ true
advances-succeeds b a h = ground (arith, h)

none-succeeds : (b a : Bool) → b ≡ true → ((b && true) || a) ≡ true
none-succeeds b a h = ground (arith, h)

Change-succeeds :
    {o b r : Bool} {v u : Standing} → Change o b r v u → succeeds r v.authority u.authority ≡ true
Change-succeeds {r = r} {v = v} (moves ms) =
    subst (λ g. succeeds r v.authority g ≡ true) (sym (Moves-authority ms))
      (advances-succeeds _ _ (advances-same v.authority))
Change-succeeds {r = r} {v = v} (grants c g i ready a f e) =
    subst (λ u. succeeds r v.authority u.authority ≡ true) (sym e) (advances-succeeds _ _ f)
Change-succeeds {r = r} {v = v} (resets fresh e) =
    subst (λ u. succeeds r v.authority u.authority ≡ true) (sym e) (none-succeeds r _ fresh)

-- The last grant that was accepted, behind each event of a run, and whether the event may reset.
abbrev pub trail : List (World × Event) → Session → List (Bool × Option Control)
trail [] s = []
trail ((w, e) ∷ es) s = (may_reset e, (step w e s).last_authority_v2) ∷ trail es (step w e s)

abbrev pub Advancing : Option Control → List (Bool × Option Control) → Type 0
Advancing g [] = Unit
Advancing g ((fresh, h) ∷ hs) = (succeeds fresh g h ≡ true) × Advancing h hs

-- In any run of the events, the grant that the adapter accepted last is forgotten only where a connection
-- ends or comes to stand. Any other event keeps it, or replaces it by a grant of another session, or by
-- one of the same session that is not behind it in epoch, revision and consent and that keeps the
-- stream of its epoch. Only the grant directly before is compared: one of another session in between
-- starts afresh.
pub trail-Advancing :
    (es : List (World × Event)) (s : Session) → Advancing s.last_authority_v2 (trail es s)
trail-Advancing [] s = tt
trail-Advancing ((w, e) ∷ es) s =
    (Change-succeeds (step-Changed w e s), trail-Advancing es (step w e s))
