-- ===== src/RideGroup/Session/Activities.antt =====
-- internal/ridegroup/protocol_v2_adapter.go: an activity of the scooter, and its challenge, which a grant
-- of the broker has to answer.
use radio_gaga.Common.{
  ℕ, zero, suc, ◌+◌, Bool, true, false, not, ◌&&◌, ◌||◌, String, str_eq, List, [], ◌∷◌, Option,
  none, some, if◌then◌else◌, ltb, leb, ◌==◌, lookup, insert, delete, length, is_some,
}
use radio_gaga.RideGroup.State.{Activity, Control}
use radio_gaga.RideGroup.Publication.{second, lease_duration, phase_is}
use radio_gaga.RideGroup.Session.{Session, World, clear_grant_v2, retain}
use radio_gaga.RideGroup.Session.Sending.{is_online, publish_hello_v2, publish_activity_v2}

-- The oldest challenge of a map, the first one where several are.
abbrev pub oldest : String × ℕ → List (String × ℕ) → String × ℕ
oldest best [] = best
oldest best (x ∷ m) = oldest (if ltb x.1 best.1 then x else best) m

abbrev pub delete_oldest : List (String × ℕ) → List (String × ℕ)
delete_oldest [] = []
delete_oldest (x ∷ m) = delete (oldest x m).0 (x ∷ m)

-- The loop of `pruneChallengesLocked`, with at most so many rounds.
unfoldable pub shrink : ℕ → List (String × ℕ) → List (String × ℕ)
shrink zero m = m
shrink (suc fuel) m = if leb 10 (length m) then shrink fuel (delete_oldest m) else m

unfoldable pub prune_challenges : ℕ → List (String × ℕ) → List (String × ℕ)
prune_challenges now m =
    let live = retain (λ sent. ltb now (sent + lease_duration)) m in shrink (length live) live

-- A rider and a session that differ.
abbrev pub other_text : Option String → Option String → Bool
other_text none _ = false
other_text (some a) none = true
other_text (some a) (some b) = not (str_eq a b)

-- The two guards on an active activity behind another one.
abbrev pub switches : Activity → Option Activity → Bool
switches v none = false
switches v (some previous) =
    v.active
    && (is_some previous.session_id
        && (not (is_some v.session_id)
            || (other_text previous.session_id v.session_id
                || other_text previous.member_id v.member_id)))

abbrev pub same_text_in : Option String → Option String → Bool
same_text_in none _ = false
same_text_in (some a) none = false
same_text_in (some a) (some b) = str_eq a b

abbrev pub rides_in : Activity → Option Control → Bool
rides_in v none = false
rides_in v (some g) = same_text_in g.session_id v.session_id && same_text_in g.member_id v.member_id

-- The first guard.
abbrev pub takes_activities : World → Session → Bool
takes_activities w s =
    s.adapter.settings_ready
    && (s.adapter.journal_ready
        && (not s.adapter.blocked
            && (not s.adapter.journal_blocked_v2
                && (phase_is "idle" s.adapter.journal_state_v2 && is_online w s))))

abbrev pub is_replay : Activity → Session → Bool
is_replay v s =
    (str_eq v.boot_nonce s.adapter.activity_boot_nonce
      && leb v.sequence s.adapter.activity_sequence)
    || is_some (lookup v.challenge s.challenges)

abbrev pub too_soon : World → Activity → Session → Bool
too_soon w v s =
    v.active && (not (s.adapter.activity_at == 0) && ltb w.now (s.adapter.activity_at + second))

unfoldable pub activity_accepted : World → Activity → Session → Bool
activity_accepted w v s =
    takes_activities w s
    && (not (is_replay v s) && (not (switches v s.adapter.activity_v2) && not (too_soon w v s)))

-- What an accepted activity changes, up to the publications.
unfoldable pub note_activity : World → Activity → Session → Session
note_activity w v s =
    let noted : Session = record s {
      adapter = record s.adapter {
        activity_v2 = some v;
        activity = none;
        activity_boot_nonce = v.boot_nonce;
        activity_sequence = v.sequence;
        activity_at = w.now;
      };
    } in
    let granted = if v.active then noted else clear_grant_v2 noted in
    let riding : Session =
      if rides_in v granted.adapter.grant_v2
      then record granted { adapter = record granted.adapter { grant_active = true } }
      else granted in
    record riding {
      challenges = prune_challenges w.now (insert v.challenge w.now riding.challenges);
    }

unfoldable pub accept_activity_v2 : World → Activity → Session → Session
accept_activity_v2 w v s =
    if activity_accepted w v s
    then publish_activity_v2 w v (publish_hello_v2 w v.challenge (note_activity w v s))
    else s
