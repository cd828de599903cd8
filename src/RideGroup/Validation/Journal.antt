-- ===== src/RideGroup/Validation/Journal.antt =====
-- internal/ridegroup/protocol_v2.go: which messages about peers, sources and the journal of stops the
-- parsers accept and the encoders write.
use radio_gaga.Common.{
  ℕ, Bool, false, not, ◌&&◌, ◌||◌, str_eq, [], ◌∷◌, Option, none, some, if◌then◌else◌, ◌==◌,
  is_some, member,
}
use radio_gaga.RideGroup.State.{SourceStatusV2, LocalStopV2}
use radio_gaga.RideGroup.Messages.{
  PeerStatusV2, StopV2, LocalStopResultV2, Message, hello, activity, wire_activity, control,
  peer_position, peer_status, source_status, stop, local_stop, local_stop_probe, local_stop_result,
}
use radio_gaga.RideGroup.Validation.{
  valid_uuid, optional_uuid, safe_nonnegative, safe_positive, valid_optional_generation,
  advancing_generations, valid_hello, valid_activity, validate_control_v2, valid_peer_position,
}

abbrev pub valid_peer_status : PeerStatusV2 → Bool
valid_peer_status v =
    valid_uuid v.session_id
    && (valid_uuid v.stream_id
        && (valid_uuid v.peer_id
            && (valid_uuid v.peer_stream_id
                && (safe_positive v.revision
                    && (safe_positive v.transport_epoch
                        && (safe_positive v.peer_transport_epoch
                            && member v.status ("no_fix" ∷ "inactive" ∷ "cleared" ∷ [])))))))

abbrev pub valid_source : SourceStatusV2 → Option ℕ → Bool
valid_source v none = str_eq v.state "no_fix"
valid_source v (some ms) = str_eq v.state "fix_available" && safe_positive ms

abbrev pub valid_source_status : SourceStatusV2 → Bool
valid_source_status v =
    valid_uuid v.connection_nonce
    && (valid_uuid v.session_id
        && (valid_uuid v.member_id
            && (valid_uuid v.stream_id
                && (safe_positive v.revision
                    && (safe_positive v.transport_epoch
                        && (safe_positive v.sequence && valid_source v v.captured_at_ms))))))

abbrev pub valid_stop : StopV2 → Bool
valid_stop v =
    valid_uuid v.connection_nonce
    && (valid_uuid v.operation_id
        && (valid_uuid v.challenge
            && ((str_eq v.mode "query"
                  || (str_eq v.mode "apply" && is_some v.expected_consent_generation))
                && valid_optional_generation v.expected_consent_generation)))

abbrev pub is_bare : LocalStopV2 → Bool
is_bare v =
    not (is_some v.operation_id)
    && (not (is_some v.expected_generation) && not (is_some v.committed_generation))

-- The `switch` over the phase.
abbrev pub valid_phase : LocalStopV2 → Bool
valid_phase v =
    if str_eq v.phase "idle"
    then not v.blocked && (is_bare v && not (v.journal_revision == 0))
    else (v.blocked
        && (if str_eq v.phase "preparing"
            then is_some v.operation_id
              && (not (is_some v.expected_generation)
                  && (not (is_some v.committed_generation) && not (v.journal_revision == 0)))
            else (if str_eq v.phase "prepared"
                then is_some v.operation_id
                  && (is_some v.expected_generation
                      && (not (is_some v.committed_generation) && not (v.journal_revision == 0)))
                else (if str_eq v.phase "confirmed"
                    then is_some v.operation_id
                      && (advancing_generations v.expected_generation v.committed_generation
                          && not (v.journal_revision == 0))
                    else (if str_eq v.phase "uncertain"
                        then (if v.journal_revision == 0
                            then is_bare v
                            else not (is_some v.committed_generation)
                              || advancing_generations v.expected_generation v.committed_generation)
                        else false)))))

abbrev pub valid_local_stop : LocalStopV2 → Bool
valid_local_stop v =
    valid_uuid v.challenge
    && (safe_nonnegative v.journal_revision
        && (optional_uuid v.operation_id
            && (valid_optional_generation v.expected_generation
                && (valid_optional_generation v.committed_generation && valid_phase v))))

-- The `switch` over the result.
abbrev pub valid_outcome : LocalStopResultV2 → Bool
valid_outcome v =
    if str_eq v.result "offer"
    then is_some v.expected_generation && not (is_some v.committed_generation)
    else (if str_eq v.result "committed"
          || (str_eq v.result "superseded" || str_eq v.result "unconfirmed")
        then advancing_generations v.expected_generation v.committed_generation
        else (if str_eq v.result "not_found" || str_eq v.result "expired"
            then not (is_some v.committed_generation)
            else (if str_eq v.result "error"
                then not (is_some v.committed_generation)
                  || advancing_generations v.expected_generation v.committed_generation
                else false)))

abbrev pub valid_local_stop_result : LocalStopResultV2 → Bool
valid_local_stop_result v =
    valid_uuid v.operation_id
    && (safe_positive v.journal_revision
        && (valid_uuid v.challenge
            && (valid_uuid v.connection_nonce
                && (valid_optional_generation v.expected_generation
                    && (valid_optional_generation v.committed_generation && valid_outcome v)))))

-- What both `ParseV2Message` and `MarshalCanonicalV2` demand.
abbrev pub valid_message : Message → Bool
valid_message (hello h) = valid_hello h
valid_message (activity v) = valid_activity v
valid_message (wire_activity nonce v) = valid_uuid nonce && valid_activity v
valid_message (control c) = validate_control_v2 c
valid_message (peer_position v) = valid_peer_position v
valid_message (peer_status v) = valid_peer_status v
valid_message (source_status v) = valid_source_status v
valid_message (stop v) = valid_stop v
valid_message (local_stop v) = valid_local_stop v
valid_message (local_stop_probe challenge) = valid_uuid challenge
valid_message (local_stop_result v) = valid_local_stop_result v
