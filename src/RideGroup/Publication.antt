-- ===== src/RideGroup/Publication.antt =====
-- A publication of internal/ridegroup/egress.go, and what its authorization compares.
use radio_gaga.Common.{
  ◌>>=◌, ℕ, ◌-◌, ◌*◌, Bool, true, false, not, ◌&&◌, String, str_eq, Option, none, some, ltb, leb,
  ◌==◌, member,
}
use radio_gaga.RideGroup.State.{Activity, Control, LocalStopV2, Adapter}

-- What is sent (`topic`, `payload`, `qos`, `retained`) is one text here; nothing looks into it.
pub record MqttPublication : Type 0 where
  pub client : Option ℕ
  pub connection : String
  pub message : String
  pub expires_at : ℕ
  pub priority : ℕ
  pub kind : String
  pub order : ℕ
  pub unsubscribe : String
  pub activity_boot_nonce : String
  pub activity_sequence : ℕ
  pub activity_active : Bool
  pub activity_local_stop : Bool
  pub position_session_id : String
  pub position_member_id : String
  pub position_stream_id : String
  pub position_revision : ℕ
  pub position_epoch : ℕ
  pub position_generation : ℕ
  pub position_captured_at : ℕ
  pub stop_challenge : String
  pub source_state : String
  pub source_sequence : ℕ
  pub source_captured_at : ℕ
  pub source_generation : ℕ

abbrev pub second : ℕ
second = 1000000000

abbrev pub lease_duration : ℕ
lease_duration = 10 * second

-- `now.Sub(t)` is at least zero and below `d`.
unfoldable pub within : ℕ → ℕ → ℕ → Bool
within now t d = leb t now && ltb (now - t) d

-- `age >= 0 && age <= 5*time.Second`.
unfoldable pub fresh : ℕ → ℕ → Bool
fresh now t = leb t now && leb (now - t) (5 * second)

abbrev pub same_option : Option ℕ → Option ℕ → Bool
same_option none none = true
same_option none (some m) = false
same_option (some n) none = false
same_option (some n) (some m) = n == m

-- The identifiers of a grant and of an activity, where none is nil.
pub record Tuple : Type 0 where
  pub session : String
  pub member : String
  pub stream : String
  pub revision : ℕ
  pub epoch : ℕ

abbrev pub tuple_of : Option Control → Option Tuple
tuple_of none = none
tuple_of (some g) = do
  session ← g.session_id
  member ← g.member_id
  stream ← g.stream_id
  some (record {
    session = session;
    member = member;
    stream = stream;
    revision = g.revision;
    epoch = g.transport_epoch;
  })

abbrev pub riders_of : Option Activity → Option (String × String)
riders_of none = none
riders_of (some a) = do session ← a.session_id; member ← a.member_id; some (session, member)

-- The comparisons of a position with the grant and the activity.
abbrev pub at_tuple : ℕ → Adapter → MqttPublication → Option Tuple → Option (String × String) → Bool
at_tuple now a p none _ = false
at_tuple now a p (some t) none = false
at_tuple now a p (some t) (some (session, member)) =
    p.position_generation == a.position_generation
    && (str_eq session t.session
        && (str_eq member t.member
            && (str_eq t.session p.position_session_id
                && (str_eq t.member p.position_member_id
                    && (str_eq t.stream p.position_stream_id
                        && (t.revision == p.position_revision
                            && (t.epoch == p.position_epoch
                                && fresh now p.position_captured_at)))))))

abbrev pub phase_is : String → Option LocalStopV2 → Bool
phase_is phase none = false
phase_is phase (some j) = str_eq j.phase phase

abbrev pub is_active : Option Activity → Bool
is_active none = false
is_active (some a) = a.active

-- An activity that is active and is no local stop.
abbrev pub rides : Option Activity → Bool
rides none = false
rides (some a) = a.active && not a.local_stop
