-- ===== src/Client/PublishFailures/Examples.antt =====
-- Three publications in a row that the broker does not confirm, behind a new connection.
use radio_gaga.Common.{false, ◌%◌, ◌≡◌, refl, true, List, [], ◌∷◌, ◌==◌}
use radio_gaga.Client.PublishFailures.{
  Happening, publishes, rebuilds, rebuild_client, not_encoded, not_confirmed,
  publish_telemetry_delta, count_failure, count_after, unconfirmed,
  publish_telemetry_delta-reconnects,
}

abbrev earlier : List Happening
earlier =
    publishes not_confirmed
    ∷ publishes not_encoded
    ∷ rebuilds false
    ∷ publishes not_confirmed
    ∷ rebuilds true
    ∷ publishes not_confirmed
    ∷ []

publish_telemetry_delta-reconnects_example :
    (publish_telemetry_delta not_confirmed (count_after earlier)).reconnects
    ≡ (unconfirmed (publishes not_confirmed ∷ earlier) % 3 == 0)
publish_telemetry_delta-reconnects_example =
    publish_telemetry_delta-reconnects not_confirmed earlier

third_reconnects : (publish_telemetry_delta not_confirmed (count_after earlier)).reconnects ≡ true
unfolding publish_telemetry_delta count_failure count_after rebuild_client
third_reconnects = refl
