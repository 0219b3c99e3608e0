-- ===== src/Runtime/State.antt =====
-- crates/service/src/runtime.rs: the ports, the errors and the state of the coordinator.
use palka.Base.{ℕ, Bool, Option, List, String, Result}
use palka.Domain.{
  UtcDateTime, TimerId, ActionKind, Deadline, InternetState, ShutdownState, ServiceHealth,
  StatusSnapshot, Event, Initiator, ChatMessage,
}
use palka.Persistence.{PersistentState, OutboxEntryId, StateStoreError}

pub record PlatformError : Type 0 where
  pub reason : String

abbrev pub SubscriptionId : Type 0
SubscriptionId = ℕ

-- An instant of the monotonic clock and a duration, in nanoseconds.
abbrev pub Instant : Type 0
Instant = ℕ

abbrev pub Duration : Type 0
Duration = ℕ

-- The ports: what the implementations of the traits, the channels and the other threads answer at
-- the n-th call that the coordinator makes. Any sequence of answers is such a record.
-- `stop_requested` is the flag that another thread sets; `try_send` says whether a subscriber's
-- bounded channel takes an event; `reply_taken` whether the caller still waits for its reply.
-- `debug_str` is the `{:?}` of a text, `display_store_error` the `{}` of a store error.
pub record Ports : Type 0 where
  pub save : ℕ → PersistentState → Result (Unit {0}) StateStoreError
  pub current_state : ℕ → String → Result InternetState PlatformError
  pub block_internet : ℕ → String → Result (Unit {0}) PlatformError
  pub unblock_internet : ℕ → String → Result (Unit {0}) PlatformError
  pub initiate_shutdown : ℕ → Result (Unit {0}) PlatformError
  pub utc_now : ℕ → UtcDateTime
  pub monotonic_now : ℕ → Instant
  pub next_timer_id : ℕ → TimerId
  pub next_outbox_id : ℕ → OutboxEntryId
  pub delay_for_attempt : ℕ → ℕ → Duration
  pub stop_requested : ℕ → Bool
  pub try_send : ℕ → SubscriptionId → Event → Bool
  pub reply_taken : ℕ → Bool
  pub debug_str : String → String
  pub display_store_error : StateStoreError → String

-- The variants that the coordinator itself produces.
pub data ServiceRuntimeError : Type 0 where
  startup_recovery_fatal : String → ServiceRuntimeError
  persistence : StateStoreError → ServiceRuntimeError
  platform : PlatformError → ServiceRuntimeError
  teardown_persistence : StateStoreError → ServiceRuntimeError
  cancellation_forbidden invalid_input : String → ServiceRuntimeError
  stopping subscription_id_exhausted subscription_capacity_exhausted : ServiceRuntimeError

pub record MonotonicTimerAnchor : Type 0 where
  pub timer_id : TimerId
  pub action_kind : ActionKind
  pub utc_deadline : Deadline
  pub monotonic_target : Instant
  pub original_duration_seconds : ℕ
  pub monotonic_start : Instant
  pub last_evaluated_remaining_seconds : ℕ

-- What the coordinator does to the outside, for statements about the order of effects.
pub data Effect : Type 0 where
  saved save_failed : PersistentState → Effect
  blocks_internet unblocks_internet reads_internet initiates_shutdown : Effect
  emits : Event → Effect

-- `ServiceRuntimeCoordinator`. The maps are lists in the order of their iteration, which is
-- arbitrary; `subscribers` keeps the identifiers, the channels being behind `try_send`. `calls`
-- counts the calls of the ports, and `trace` holds the effects, the latest first: the code has
-- neither, and no operation reads the trace.
pub record Coordinator : Type 0 where
  pub ports : Ports
  pub child_sid : String
  pub state : PersistentState
  pub observed_internet_state : InternetState
  pub shutdown_state : ShutdownState
  pub health : ServiceHealth
  pub monotonic_timers : List (TimerId × MonotonicTimerAnchor)
  pub next_retry_at : Option Instant
  pub is_stopping : Bool
  pub monotonic_start : Instant
  pub pending_durable_candidate : Option PersistentState
  pub persistence_error : Option String
  pub internet_gate_error : Option String
  pub power_error : Option String
  pub retry_policy_error : Option String
  pub subscribers : List SubscriptionId
  pub next_subscription_id : Option ℕ
  pub calls : ℕ
  pub trace : List Effect

pub data StartupReadiness : Type 0 where
  ready degraded : StatusSnapshot → StartupReadiness

pub data TimerCancellationResult : Type 0 where
  cancelled already_absent timer_kind_mismatch : TimerCancellationResult

pub record EventSubscription : Type 0 where
  pub subscription_id : SubscriptionId
  pub initial_snapshot : StatusSnapshot

-- `RuntimeCommand` without the reply channels; `tick` is of the test build alone.
pub data RuntimeCommand : Type 0 where
  schedule_action : ActionKind → ℕ → Initiator → RuntimeCommand
  cancel_exact_timer : TimerId → ActionKind → Initiator → RuntimeCommand
  immediate_internet_block restore_internet : Initiator → RuntimeCommand
  ack_telegram : OutboxEntryId → RuntimeCommand
  query_status subscribe_events : RuntimeCommand
  unsubscribe_events : SubscriptionId → RuntimeCommand
  send_child_message : String → RuntimeCommand
  publish_parent_message : ChatMessage → RuntimeCommand
  tick stop : RuntimeCommand
