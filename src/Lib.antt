-- ===== src/Lib.antt =====
-- palka, a parental control service for Windows: the core of the service as a state machine.
--
-- The program. crates/core holds the domain: scheduled actions (block the internet, shut the computer
-- down), their warning thresholds and their life cycle, as pure functions. crates/service runs one
-- worker thread, the coordinator of runtime.rs, that owns the state. It receives commands over a
-- channel and wakes up by a timeout; it saves every change of the state to a store, applies the
-- policy through the internet gate and the power controller, and broadcasts events to subscribers.
-- crates/ipc-protocol and crates/windows-platform carry the protocol and the Windows calls.
--
-- The files, and the code they model:
--   Domain.antt                 the types of crates/core/src/lib.rs
--   Domain/Thresholds.antt      creation_passed_thresholds, creation_due_thresholds,
--                               crossed_warning_thresholds, recovery_passed_thresholds; their
--                               theorems are in Domain/Thresholds/Coverage.antt
--   Domain/Transitions.antt     the four transition functions and the predicates; their theorems are
--                               in Domain/Transitions/Lifecycle.antt
--   Persistence.antt            the types of crates/service/src/persistence.rs and state_store.rs
--   Persistence/Hex.antt        format_128bit_id_hex, parse_128bit_id_hex
--   Persistence/Seen.antt       the loop with the set of the identifiers seen
--   Persistence/Stored.antt     the stored form, StateFileV1Dto and its parts
--   Persistence/Codec.antt      both TryFrom conversions, decode_state_json and encode_state_json and
--                               their variants; the theorems are in Codec/RoundTrip.antt,
--                               Codec/Storable.antt and Codec/Written.antt
--   PinAuth/Lockout.antt        PinLockoutState of crates/service/src/pin_auth.rs
--   PinAuth/Policy.antt         hash_pin and verify_pin of the same file
--   Ipc/Errors.antt             crates/ipc-protocol/src/error.rs
--   Ipc/Frames.antt             the length prefix, the checks of lengths and extract_frame_payload of
--                               crates/ipc-protocol/src/codec.rs
--   Ipc/Ids.antt                WireTimerId of crates/ipc-protocol/src/ids.rs
--   Ipc/Requests.antt           RequestPayload and validate of crates/ipc-protocol/src/request.rs
--   Ipc/Pin.antt                unescape_pin_json_string, parse_hex4; the grammar of JSON strings is in
--                               Ipc/Pin/Grammar.antt
--   Ipc/Decoding.antt           decode_request_frame, encode_request_frame, check_raw_structural,
--                               parse_request_payload_raw and what they call
--   Runtime/State.antt          the ports, the errors and the coordinator of
--                               crates/service/src/runtime.rs
--   Runtime/Action.antt         methods as functions from the coordinator to a result and the changed
--                               coordinator: what was changed before an error stays changed
--   Runtime/Ports.antt          the calls of the traits
--   Runtime/Health.antt         recompute_health_status, derive_shutdown_state, the snapshots
--   Runtime/Events.antt         emit_event, the subscribers, the marks of the health
--   Runtime/Commit.antt         commit_authoritative_state, commit_post_side_effect_candidate,
--                               flush_pending_durable_candidate
--   Runtime/Candidates.antt     lookups and updates of actions and timers, texts of notifications
--   Runtime/Timers.antt         handle_schedule_action, handle_cancel_exact_timer
--   Runtime/Internet.antt       handle_immediate_block, handle_restore_internet, their failures, and
--                               process_internet_reconciliation_retry
--   Runtime/Messages.antt       handle_ack_telegram, handle_send_child_message,
--                               handle_publish_parent_message
--   Runtime/Deadlines.antt      execute_scheduled_internet_deadline,
--                               execute_scheduled_shutdown_deadline
--   Runtime/Clock.antt          process_clock_and_events, next_wake_timeout
--   Runtime/Recovery.antt       perform_startup_recovery
--   Runtime/Commands.antt       new, handle_command, the subscriptions, and the worker's loop
--   Runtime/Quiet.antt          what the changes of the health, the subscribers and the timers keep
--   Runtime/Durability.antt     the order of saves and side effects, over all runs
--   Runtime/Outcomes.antt       what single commands do to the state
--   Scenarios.antt              concrete runs; those of the PIN, the stored state and the protocol are in
--                               Scenarios/Pin.antt, Scenarios/Stored.antt and Scenarios/Wire.antt
--
-- The ports. The traits, the channels, the flag of the stop and the clocks are one record of the
-- answers at each call number, so a statement for every such record is one for every behaviour of
-- the store, the gate, the power controller, the clocks, the identifiers, the subscribers and the
-- thread that stops the service. The coordinator of the model has two fields that the code has not,
-- the number of the calls and the trace of the effects; no operation reads the trace.
--
-- Bounds and fuel. Clocks are natural numbers of nanoseconds, and additions to instants are not
-- bounded; the `i64` milliseconds and the `u32` attempts wrap as in a release build. The loop of
-- reconcile_subscriber_registry is on fuel, one more than the subscribers: each further round has
-- removed one. A map is a list in the order of its iteration, a `HashSet` of thresholds a Boolean
-- for each. The end of a lockout is a `u64` that wraps. The unescaper of PINs has as much fuel as
-- characters and reads at least one each round; the check for duplicate keys has one more than
-- characters, and each nested value is shorter than the text that holds it.
--
-- The libraries. The crates `argon2` and `password_hash` are the record Argon2Library, `serde_json`
-- is the record JsonLibrary and the readers and writers that the codecs take; what is relied on is
-- stated where a theorem needs it. The order in which a `HashSet` is walked is a function.
--
-- Not modelled: the file system side of the state store, the configuration and the credentials, the
-- responses and events of the protocol, the internet gate of Windows, the service manager; the
-- threads and channels of RuntimeHandle and ServiceRuntime, the bindings of Windows calls, and the
-- hooks of the test build.
mod Base
pub mod Domain
pub mod Ipc
pub mod Persistence
pub mod PinAuth
pub mod Runtime
mod Scenarios
