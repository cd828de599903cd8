-- ===== src/RideGroup/Session/Machine.antt =====
-- What the adapter of internal/ridegroup promises about grants, as a machine of its own: the part of the
-- state that decides on them, and what may happen to it.
use radio_gaga.Common.{◌≡◌, Bool, true, false, not, ◌&&◌, Option, none, some}
use radio_gaga.RideGroup.State.{Activity, Control, LocalStopV2}
use radio_gaga.RideGroup.Publication.{is_active, phase_is}
use radio_gaga.RideGroup.Validation.{validate_control_v2}
use radio_gaga.RideGroup.Session.{Session, same_string}
use radio_gaga.RideGroup.Session.Controls.{regresses}

pub record Standing : Type 0 where
  pub grant : Option Control
  pub ready : Bool
  pub blocked : Bool
  pub journal : Option LocalStopV2
  pub activity : Option Activity
  pub authority : Option Control

abbrev pub standing : Session → Standing
standing s = record {
  grant = s.adapter.grant_v2;
  ready = s.adapter.journal_ready;
  blocked = s.adapter.journal_blocked_v2;
  journal = s.adapter.journal_state_v2;
  activity = s.adapter.activity_v2;
  authority = s.last_authority_v2;
}

-- What leaves the authority as it is. Only what the scooter itself says can make more of the journal and the
-- activity; the rest takes away.
pub data Move (is_own : Bool) : Standing → Standing → Type 0 where
  inhibits :
      (v : Standing)
      → Move is_own v (record v { grant = none; ready = false; blocked = true; activity = none })
  believes :
      (v : Standing) (j : LocalStopV2)
      → is_own ≡ true
      → phase_is "idle" (some j) ≡ true
      → Move is_own v (record v { ready = true; blocked = false; journal = some j })
  suspends :
      (v : Standing) (j : LocalStopV2)
      → is_own ≡ true
      → Move is_own v
          (record v { grant = none; ready = false; blocked = j.blocked; journal = some j })
  rides :
      (v : Standing) (a : Activity)
      → is_own ≡ true
      → a.active ≡ true
      → Move is_own v (record v { activity = some a })
  rests :
      (v : Standing) (a : Activity)
      → is_own ≡ true
      → Move is_own v (record v { grant = none; activity = some a })
  ends : (v : Standing) → Move is_own v (record v { grant = none })
  leaves : (v : Standing) → Move is_own v (record v { grant = none; activity = none })
  loses_journal :
      (v : Standing)
      → Move is_own v (record v {
        grant = none;
        ready = false;
        blocked = true;
        journal = none;
        activity = none;
      })

pub data Moves (is_own : Bool) (v : Standing) : Standing → Type 0 where
  here : Moves is_own v v
  next : {u t : Standing} → Moves is_own v u → Move is_own u t → Moves is_own v t

-- A control may replace another one of the same session only if it is not behind it, and is not
-- forgotten.
abbrev pub advances : Option Control → Option Control → Bool
advances none _ = true
advances (some g) none = false
advances (some g) (some c) = not (same_string g.session_id c.session_id && regresses g c)

abbrev pub disconnected : Standing
disconnected = record {
  grant = none;
  ready = false;
  blocked = false;
  journal = none;
  activity = none;
  authority = none;
}

-- What an event may do: moves, and where the event may grant, a valid grant to a scooter that rides under
-- an idle journal, and where it may reset, a new start.
pub data Change (is_own may_grant may_reset : Bool) (v u : Standing) : Type 0 where
  moves : Moves is_own v u → Change is_own may_grant may_reset v u
  grants :
      (c : Control)
      → may_grant ≡ true
      → validate_control_v2 c ≡ true
      → v.ready ≡ true
      → is_active v.activity ≡ true
      → advances v.authority (some c) ≡ true
      → u ≡ record v { grant = some c; authority = some c }
      → Change is_own may_grant may_reset v u
  resets : may_reset ≡ true → u ≡ disconnected → Change is_own may_grant may_reset v u
