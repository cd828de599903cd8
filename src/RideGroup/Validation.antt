-- ===== src/RideGroup/Validation.antt =====
-- internal/ridegroup/protocol_v2.go: which messages the parsers accept and the encoders write, on the
-- decoded fields. That the object has just its fields, each of its type, is for the decoder, as are the
-- coordinates and the motion of a position. Numbers that have to be at least zero are natural.
pub mod Journal
use radio_gaga.Common.{
  ℕ, ◌+◌, zero, suc, Bool, true, false, not, ◌&&◌, ◌||◌, String, str_eq, List, [], ◌∷◌, Option,
  none, some, if◌then◌else◌, ltb, leb, ◌==◌, length, is_empty, is_some, codes, member,
}
use radio_gaga.RideGroup.State.{Activity, Control, PeerDescriptor, SourceStatusV2, LocalStopV2}
use radio_gaga.RideGroup.Messages.{
  HelloV2, PeerPositionV2, PeerStatusV2, StopV2, LocalStopResultV2, Message, hello, activity,
  wire_activity, control, peer_position, peer_status, source_status, stop, local_stop,
  local_stop_probe, local_stop_result,
}

abbrev pub max_safe_integer : ℕ
max_safe_integer = 9007199254740991

abbrev pub is_hex : ℕ → Bool
is_hex c = (leb b'0' c && leb c b'9') || (leb b'a' c && leb c b'f')

-- So many digits, and then the groups of digits behind a dash each.
abbrev pub matches : ℕ → List ℕ → List ℕ → Bool
matches zero [] [] = true
matches zero [] (c ∷ cs) = false
matches zero (g ∷ gs) [] = false
matches zero (g ∷ gs) (c ∷ cs) = c == b'-' && matches g gs cs
matches (suc n) gs [] = false
matches (suc n) gs (c ∷ cs) = is_hex c && matches n gs cs

-- `uuidPattern`.
abbrev pub valid_uuid : String → Bool
valid_uuid s = matches 8 (4 ∷ 4 ∷ 4 ∷ 12 ∷ []) (codes s)

abbrev pub valid_uuid_ptr : Option String → Bool
valid_uuid_ptr none = false
valid_uuid_ptr (some s) = valid_uuid s

-- Nil, or a valid identifier.
abbrev pub optional_uuid : Option String → Bool
optional_uuid none = true
optional_uuid (some s) = valid_uuid s

abbrev pub safe_nonnegative : ℕ → Bool
safe_nonnegative n = leb n max_safe_integer

abbrev pub safe_positive : ℕ → Bool
safe_positive n = ltb 0 n && leb n max_safe_integer

abbrev pub valid_optional_generation : Option ℕ → Bool
valid_optional_generation none = true
valid_optional_generation (some n) = safe_nonnegative n

abbrev pub advancing_generations : Option ℕ → Option ℕ → Bool
advancing_generations none _ = false
advancing_generations (some e) none = false
advancing_generations (some e) (some c) = safe_nonnegative e && (safe_nonnegative c && ltb e c)

abbrev pub valid_hello : HelloV2 → Bool
valid_hello h = valid_uuid h.connection_nonce && valid_uuid h.challenge

abbrev pub same_presence : Option String → Option String → Bool
same_presence a b = if is_some a then is_some b else not (is_some b)

abbrev pub valid_activity : Activity → Bool
valid_activity v =
    valid_uuid v.boot_nonce
    && (safe_positive v.sequence
        && (not v.local_stop
            && (valid_uuid v.challenge
                && (same_presence v.session_id v.member_id
                    && (optional_uuid v.session_id && optional_uuid v.member_id)))))

abbrev pub elem_code : ℕ → List ℕ → Bool
elem_code c [] = false
elem_code c (k ∷ ks) = c == k || elem_code c ks

abbrev pub rune_length : ℕ → ℕ
rune_length c = if ltb c 128 then 1 else (if ltb c 2048 then 2 else (if ltb c 65536 then 3 else 4))

-- The quotation mark, the backslash, and the control characters with an escape of their own.
abbrev pub short_escapes : List ℕ
short_escapes = 34 ∷ 92 ∷ 8 ∷ 12 ∷ 10 ∷ 13 ∷ 9 ∷ []

abbrev pub json_content_bytes : List ℕ → ℕ
json_content_bytes [] = 0
json_content_bytes (c ∷ cs) =
    (if elem_code c short_escapes then 2 else (if ltb c 32 then 6 else rune_length c))
    + json_content_bytes cs

abbrev pub valid_peer_label : String → Bool
valid_peer_label label = leb (length (codes label)) 32 && leb (json_content_bytes (codes label)) 32

abbrev pub valid_peers : List PeerDescriptor → Bool
valid_peers [] = true
valid_peers (p ∷ ps) =
    valid_uuid p.peer_id && (valid_peer_label p.label && (leb p.palette_index 5 && valid_peers ps))

abbrev pub stop_results : List String
stop_results = "committed" ∷ "not_found" ∷ "superseded" ∷ "expired" ∷ "unconfirmed" ∷ "error" ∷ []

abbrev pub valid_stop_result : Option String → Bool
valid_stop_result none = true
valid_stop_result (some r) = member r stop_results

abbrev pub no_stop : Control → Bool
no_stop c =
    not (is_some c.stop_operation_id)
    && (not (is_some c.stop_result) && not (is_some c.stop_expected_generation))

-- What a grant and the end of one have in common.
unfoldable pub names_session : Control → Bool
names_session c =
    no_stop c
    && (valid_uuid_ptr c.session_id
        && (valid_uuid_ptr c.member_id
            && (valid_uuid_ptr c.stream_id
                && (safe_positive c.revision
                    && (safe_positive c.transport_epoch && safe_positive c.server_time_ms)))))

abbrev pub valid_cadence : Option ℕ → Bool
valid_cadence none = false
valid_cadence (some ms) = leb 1 ms && leb ms 5000

abbrev pub valid_grant : Control → Bool
valid_grant c =
    names_session c
    && (leb 1 c.lease_ttl_ms && (leb c.lease_ttl_ms 10000 && valid_cadence c.cadence_ms))

abbrev pub gives_nothing : Control → Bool
gives_nothing c = c.lease_ttl_ms == 0 && (not (is_some c.cadence_ms) && is_empty c.peers)

abbrev pub is_beyond : ℕ → Option ℕ → Bool
is_beyond consent none = false
is_beyond consent (some expected) = ltb expected consent

abbrev pub valid_answer : Control → Option String → Bool
valid_answer c none = no_stop c
valid_answer c (some r) =
    is_some c.stop_operation_id
    && (if str_eq r "committed" || (str_eq r "superseded" || str_eq r "unconfirmed")
        then is_beyond c.consent_generation c.stop_expected_generation
        else (if str_eq r "not_found" || str_eq r "expired"
            then not (is_some c.stop_expected_generation)
            else true))

abbrev pub valid_status : Control → Bool
valid_status c =
    not (is_some c.session_id)
    && (not (is_some c.member_id)
        && (not (is_some c.stream_id)
            && (c.revision == 0
                && (c.transport_epoch == 0
                    && (safe_positive c.server_time_ms
                        && (gives_nothing c && valid_answer c c.stop_result))))))

abbrev pub valid_action : Control → Bool
valid_action c =
    if str_eq c.action "grant" || str_eq c.action "renew"
    then valid_grant c
    else (if str_eq c.action "clear"
        then names_session c && gives_nothing c
        else (if str_eq c.action "status" then valid_status c else false))

-- What every control has to hold to, whatever its action.
unfoldable pub valid_fields : Control → Bool
valid_fields c =
    valid_uuid c.connection_nonce
    && (valid_uuid c.challenge
        && (safe_nonnegative c.consent_generation
            && (safe_nonnegative c.revision
                && (safe_nonnegative c.transport_epoch
                    && (safe_nonnegative c.server_time_ms
                        && (safe_nonnegative c.lease_ttl_ms
                            && (leb (length c.peers) 5
                                && (optional_uuid c.stop_operation_id
                                    && (valid_stop_result c.stop_result
                                        && (valid_optional_generation c.stop_expected_generation
                                            && valid_peers c.peers))))))))))

unfoldable pub validate_control_v2 : Control → Bool
validate_control_v2 c = valid_fields c && valid_action c

abbrev pub valid_peer_position : PeerPositionV2 → Bool
valid_peer_position v =
    valid_uuid v.session_id
    && (valid_uuid v.stream_id
        && (valid_uuid v.peer_stream_id
            && (valid_uuid v.peer_id
                && (safe_positive v.revision
                    && (safe_positive v.transport_epoch
                        && (safe_positive v.peer_transport_epoch
                            && (safe_positive v.sequence
                                && (safe_positive v.captured_at_ms
                                    && (safe_positive v.received_at_ms
                                        && (safe_positive v.server_time_ms
                                            && (leb v.valid_for_ms 10000
                                                && (leb v.palette_index 5
                                                    && valid_peer_label v.label))))))))))))
