-- ===== src/Lib.antt =====
-- radio-gaga, the telemetry client of a scooter: its parts that keep state across failures.
--
-- The client reads the scooter's state from Redis and reports it to a server. It replaces its own
-- configuration and binary in a transaction, coordinates self-updates, keeps events and telemetry
-- while there is no connection, reports changed fields within the deadline of their priority, in
-- full or as a delta, detects events and movements, evaluates rules for notifications, takes part in
-- ride groups as long as it may, and uploads the journal. The detector calls the movement
-- monitor and the rules, and adds to the buffer of events what the link does not take. These
-- parts are modelled here, each in a directory of its own:
--
-- - Txn: internal/txn/manager.go and internal/txn/pending.go. Txn/Disk has the marker
--   pending.json and, for the configuration and the binary, the live file, the staged one and the
--   snapshot. Txn/Calls has the system calls, each of which goes on, fails or is the last before
--   a crash as a list of faults says, and the functions that copy, write and rename files.
--   Txn/Manager is `Manager.Run` with the functions that it calls, Txn/Recovery is
--   `Manager.RecoverOnBoot`. Txn/Safety says which disks can be recovered to which version;
--   Txn/Hoare has triples with a condition for crashes; the other files prove one for each step:
--   CallRules and Preparing, Prepared, Committing up to RunSafety and RunResult, RecoverySafety,
--   RecoveryResult and Recovered; Atomic and Refusals have the theorems.
-- - Events/Buffer: internal/events/buffer.go. `Flush` unlocks the buffer while it sends, so its
--   entry (`flush`) and the end of a batch (`finish_batch`) are operations of their own, which
--   `Add` and other calls of `Flush` interleave with. Buffer/Accounting follows the events over such
--   interleavings, Buffer/Reload is about the file and the retries.
-- - Events/Movement and Events/Confirmation: internal/events/movement.go. A monitor anchors a parked
--   scooter's position and triggers a confirmation (Movement), which reads the position for a
--   minute and gives a verdict (Confirmation). Confirmation/Confirming says what a confirmed one
--   has seen, Confirmation/Running how many run.
-- - Events/Detector: internal/events/detector.go, over internal/events/types.go. Detector/Checks
--   has the check of each hash, Detector itself the dispatch to the checks, the monitor of
--   movement and the rules, and the baseline; Detector/Delivery is `sendEvent`, which publishes
--   an event or adds it to the buffer. Detector/Repeats and Detector/Baseline are about what is
--   remembered.
-- - Telemetry/Priority: internal/telemetry/priority.go, with its tables. Telemetry/Monitor:
--   internal/telemetry/monitor.go. Monitor/Timers has the invariant, Monitor/Deadlines the runs,
--   Monitor/Changes what counts as a change.
-- - Notifications/Rules: internal/notifications/rules.go, with Rules/Conditions. Rules/Matching
--   says when conditions hold, Rules/Cooldown when a rule is quiet, Rules/Sources what is
--   subscribed to.
-- - Client/TelemetryBuffer: internal/client/telemetry_buffer.go, with the copies of the buffer in
--   memory, in Redis and on disk (TelemetryBuffer/Stores). TelemetryBuffer/Bounds is about its
--   size, TelemetryBuffer/Sending about what is sent and what is kept after that.
-- - Client/TelemetryDelta: internal/client/telemetry_delta.go. TelemetryDelta/Received says what
--   a receiver makes of a delta, TelemetryDelta/RoundTrip that it gets the current map, and
--   TelemetryDelta/Resync is about how often a full snapshot goes out.
-- - Client/PublishFailures: of internal/client/telemetry_delta.go and internal/client/client.go the
--   count of publications that failed in a row.
-- - RideGroup: internal/ridegroup/egress.go. RideGroup/State is what it reads of the adapter,
--   RideGroup/Publication what waits for the broker, RideGroup/Authorization is
--   `mqttPublicationAuthorizedLocked`, RideGroup/Egress the queue to the broker and its worker,
--   RideGroup/Channels the bounded channels to Redis and to the acknowledgements.
--   Egress/Queued and Egress/Order are about the order, Egress/Stopping about the stop, Channels/Window about what a
--   full channel holds.
-- - RideGroup/Session: the second protocol of internal/ridegroup/protocol_v2_adapter.go and
--   adapter.go, over the messages of protocol_v2.go (RideGroup/Messages), those of them that are
--   valid (RideGroup/Validation), and the egress above.
--   Session has the state, Session/Sending what is queued, and Probes, Stops, Answers, Snapshots,
--   Activities, Controls, Peers and Lifecycle the handlers of these; Session/Sources is of
--   gps_v2.go what a grant and the clock call, Session/Ipc is ipc_v2.go with the worker that
--   forwards to Redis. Session/Events is what can happen, in any order. Session/Machine is a
--   small machine of grants, which the handlers refine (Standing, JournalMoves, ControlMoves,
--   Refinement); Session/Grants has its invariants. Session/Leases is about how long a grant or a
--   position lasts, Session/Once about the answers to stops, Session/Replay about the positions
--   of peers, Session/Rate and Session/Bounds about the challenges, Session/Recovery about the
--   way back to a journal that is believed.
-- - Handlers/SelfUpdate: internal/handlers/self_update_state.go. SelfUpdate/Replay is about what a
--   run leaves, SelfUpdate/Held and SelfUpdate/Between about a request that comes again behind
--   others, SelfUpdate/History about the number of results, SelfUpdate/Waiting about the commands
--   that wait for a flight. The text of an error goes through JSON unchanged, also where it is cut
--   within a character.
-- - JournalUpload: internal/journalupload/manager.go and internal/journalupload/state.go.
--   JournalUpload/Cursor is about the stored cursor.
-- - Common: tests on numbers and texts, lists and maps over the native numbers.
--
-- Operations are functions from a state to a state, beside what they return. Loops run over
-- lists, so every function here returns for every argument; where a loop has no list, as in the
-- worker of RideGroup/Egress, it runs over a list of what its rounds see, and a theorem says how
-- many rounds are enough. The mutex of each component makes its critical sections atomic, and
-- those are the steps of the model.
--
-- Choices: the seven files of a transaction have different names, and nothing but the manager
-- writes them while it runs. A call has its whole effect or, where it fails or the program stops
-- at it, none, so a copy that is cut short leaves an empty file or a whole one; the effect of a
-- call that returned is durable. The temporary file of a marker is not a file of the model, since
-- it is renamed whole or never read. The probe reads the disk and answers. A line of the event
-- file is an event or does not parse, and how many bytes the line of an event has is a parameter;
-- a snapshot of the events replaces the file whole or fails. A timer of the monitor is the time at
-- which it is due, and its function may be called at any time. Rounding to a bucket (`strconv` and
-- `math`), `time.ParseDuration`, the floating-point comparisons, `strings.Contains`,
-- `strings.ReplaceAll` and the replies of Redis are parameters. So is the date that an offset
-- stands for; the wait of a retry, with its random jitter, is left out. Durations of the monitor
-- and the clock are natural numbers. The positions of the movement monitor and their distances are
-- parameters, with comparisons that fail where a number is not one. So are JSON in the messages of
-- ride groups, with its escapes and the size of a message, the identifiers that are new, and the
-- entry that the iteration over a Go map meets first where one is thrown away; a handler reads the
-- clock once. A Go map is a list of entries, in the order in which a loop over it runs.
--
-- Not modelled: logging, the senders of messages (internal/sms, internal/telegram), the Redis
-- bus, the MQTT client with its other commands (internal/client, internal/handlers) and the
-- downloads of self-updates, the first protocol of ride groups, the fixes of GPS with the
-- estimator of motion and the labels that are cut to fit (internal/ridegroup), the reader and the
-- uploader of the journal, the clock, the locations, and the configuration's defaults: these do
-- network input and output, or are left for their own modules.
pub mod Common
pub mod Txn
pub mod Events
pub mod Telemetry
pub mod Notifications
pub mod Client
pub mod RideGroup
pub mod Handlers
pub mod JournalUpload
