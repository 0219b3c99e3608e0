-- ===== src/Scenarios.antt =====
-- crates/service/src/runtime.rs and crates/core/src/lib.rs: concrete runs, and the theorems at
-- concrete inputs.
mod Pin
mod Stored
mod Wire
use palka.Base.{
  ℕ, ◌+◌, ◌*◌, ◌≤◌, ◌<◌, ◌≡◌, ◌↔◌, ◌⊎◌, refl, Bool, true, false, ◌&&◌, ◌||◌, not, none, some, List,
  [], ◌∷◌, Result, ok, err, All, retain, any, ltb, leb, ◌==◌, arith,
}
use palka.Base.Int.{ℤ, negsuc, pos, pos_part, leb_ℤ, ltb_ℤ, ◌≤ℤ◌}
use palka.Domain.{
  immediate_command, TimerId, block_internet, shutdown_computer, parent_local_pin,
  ActionExecutionState, ScheduledAction, DesiredInternetState, InternetState, m10, m3,
}
use palka.Domain.Thresholds.{
  seconds, empty, contains, insert_all, crossed_warning_thresholds, recovery_passed_thresholds,
}
use palka.Domain.Thresholds.Coverage.{
  occurs, emitted_at_creation, creation_then_crossing, crossed_split, recovery_then_crossing,
}
use palka.Domain.Transitions.{
  action_state_is_terminal, runtime_deadline_transition, recovery_overdue_transition,
}
use palka.Domain.Transitions.Lifecycle.{
  Cause, at_deadline, on_recovery, transition, Step, taken, is_due_at, transition-eq-some_iff,
  taken-bounded,
}
use palka.Persistence.{PersistentState, StateStoreError, io, OutboxEntryId, service_notification}
use palka.Runtime.State.{
  Ports, Coordinator, persistence, stopping, MonotonicTimerAnchor, schedule_action,
  immediate_internet_block, restore_internet, stop,
}
use palka.Runtime.Action.{map_err, ◌>>=◌}
use palka.Runtime.Action.Triple.{Post}
use palka.Runtime.Commit.{commit_authoritative_state}
use palka.Runtime.Timers.{handle_schedule_action, handle_cancel_exact_timer}
use palka.Runtime.Messages.{handle_ack_telegram, handle_send_child_message}
use palka.Runtime.Events.{
  reconcile_subscriber_registry, reconcile_rounds, checked_active_session_count, set_sessions,
  try_send_to_subscribers, send_to_each, is_id, remove_subscribers,
}
use palka.Runtime.Health.{build_service_health_snapshot}
use palka.Runtime.Ports.{monotonic_now, try_send}
use palka.Runtime.Events.Registry.{Counted, Uncountable, reconcile_subscriber_registry-Counted}
use palka.Runtime.Clock.{next_wake_timeout}
use palka.Runtime.Clock.Wake.{WakesBy, RetryBy, next_wake_timeout-WakesBy}
use palka.Runtime.Recovery.Delta.{
  remaining_seconds_from_delta_ms, remaining_due_iff, remaining_wraps,
}
use palka.Runtime.Commands.{initial, new, handle_command, Input, command, timeout, run}
use palka.Runtime.Commands.Stopping.{handle_command-stop_refuses}
use palka.Runtime.Durability.{IsSound}
use palka.Runtime.Durability.Runs.{run-new-IsSound}
use palka.Runtime.Outcomes.{Holds, Adopted, Refused, commit_authoritative_state-outcome}
use palka.Runtime.Internet.{change_policy}
use palka.Runtime.Outcomes.Policy.{Verified, NotRolledBack, change_policy-outcome}
use palka.Runtime.Outcomes.Schedule.{Scheduled, handle_schedule_action-outcome}
use palka.Runtime.Outcomes.Cancel.{Cancelled, handle_cancel_exact_timer-outcome}
use palka.Runtime.Outcomes.Outbox.{
  Acked, Sent, handle_ack_telegram-outcome, handle_send_child_message-outcome,
}

-- Ports whose gate works, whose clocks show the number of the call, and whose store fails at the
-- saves that `fails` names.
abbrev saves : Bool → Result (Unit {0}) StateStoreError
saves true = err (io "disk full")
saves false = ok tt

abbrev ports_with : (ℕ → Bool) → InternetState → Ports
ports_with fails observed = record {
  save = λ n s. saves (fails n);
  current_state = λ n sid. ok observed;
  block_internet = λ n sid. ok tt;
  unblock_internet = λ n sid. ok tt;
  initiate_shutdown = λ n. ok tt;
  utc_now = λ n. record { millis = pos (1000000 + n) };
  monotonic_now = λ n. 1000 + n;
  next_timer_id = λ n. record { bytes = n ∷ [] };
  next_outbox_id = λ n. record { bytes = n ∷ [] };
  delay_for_attempt = λ n attempt. 5000000000 * attempt;
  stop_requested = λ n. false;
  try_send = λ n id e. id == 7;
  reply_taken = λ n. true;
  debug_str = λ s. s;
  display_store_error = λ e. "store";
}

abbrev working_ports : Ports
working_ports = ports_with (λ n. false) InternetState.blocked

abbrev failing_ports : Ports
failing_ports = ports_with (λ n. true) InternetState.unknown

abbrev action_id : TimerId
action_id = record { bytes = 1 ∷ 2 ∷ [] }

abbrev overdue_shutdown : ScheduledAction
overdue_shutdown = record {
  id = action_id;
  action_kind = shutdown_computer;
  deadline = record { at = record { millis = pos 5 } };
  created_at = record { millis = pos 1 };
  created_by = parent_local_pin;
  emitted_thresholds = empty;
  execution_state = ActionExecutionState.pending;
}

abbrev later_block : ScheduledAction
later_block = record {
  id = record { bytes = 3 ∷ [] };
  action_kind = block_internet;
  deadline = record { at = record { millis = pos 9000000 } };
  created_at = record { millis = pos 1 };
  created_by = parent_local_pin;
  emitted_thresholds = empty;
  execution_state = ActionExecutionState.pending;
}

abbrev entry_id : OutboxEntryId
entry_id = record { bytes = 9 ∷ [] }

abbrev loaded : PersistentState
loaded = record {
  desired_internet_state = DesiredInternetState.blocked;
  active_actions = overdue_shutdown ∷ later_block ∷ [];
  internet_retry = none;
  telegram_outbox =
      record {
        entry_id = entry_id;
        payload = service_notification "hello";
        attempt_count = 0;
        last_error = none;
      }
      ∷ [];
}

abbrev fresh : Coordinator
fresh = initial working_ports "S-1-5-21-1" loaded

abbrev failing : Coordinator
failing = initial failing_ports "S-1-5-21-1" loaded

abbrev subscribed_fresh : Coordinator
subscribed_fresh = record fresh { subscribers = 5 ∷ 6 ∷ 7 ∷ [] }

abbrev started : Coordinator
started = (new working_ports "S-1-5-21-1" loaded).1

abbrev inputs : List Input
inputs =
    command (schedule_action shutdown_computer 1 parent_local_pin)
    ∷ command (immediate_internet_block parent_local_pin)
    ∷ timeout
    ∷ command (restore_internet parent_local_pin)
    ∷ command stop
    ∷ []

run-new-IsSound_example : IsSound loaded (run inputs (new working_ports "S-1-5-21-1" loaded).1)
run-new-IsSound_example = run-new-IsSound working_ports "S-1-5-21-1" loaded inputs

commit_authoritative_state-outcome_example :
    Post
      (Adopted (failing.ports.save failing.calls loaded) loaded)
      (Refused
        (failing.ports.save failing.calls loaded)
        failing.state
        failing.pending_durable_candidate)
      (map_err persistence (commit_authoritative_state loaded) failing).0
      (map_err persistence (commit_authoritative_state loaded) failing).1
commit_authoritative_state-outcome_example = commit_authoritative_state-outcome loaded failing

handle_schedule_action-outcome_example :
    Post
      (Scheduled shutdown_computer 600 parent_local_pin fresh)
      (Holds fresh.state fresh.pending_durable_candidate)
      (handle_schedule_action shutdown_computer 600 parent_local_pin fresh).0
      (handle_schedule_action shutdown_computer 600 parent_local_pin fresh).1
handle_schedule_action-outcome_example =
    handle_schedule_action-outcome shutdown_computer 600 parent_local_pin fresh

handle_cancel_exact_timer-outcome_example :
    Post
      (Cancelled action_id shutdown_computer fresh.state fresh.pending_durable_candidate)
      (Holds fresh.state fresh.pending_durable_candidate)
      (handle_cancel_exact_timer action_id shutdown_computer parent_local_pin fresh).0
      (handle_cancel_exact_timer action_id shutdown_computer parent_local_pin fresh).1
handle_cancel_exact_timer-outcome_example =
    handle_cancel_exact_timer-outcome action_id shutdown_computer parent_local_pin fresh

change_policy-outcome_example :
    Post
      (λ _. Verified DesiredInternetState.blocked)
      (NotRolledBack DesiredInternetState.blocked fresh.state fresh.pending_durable_candidate)
      (change_policy DesiredInternetState.blocked (immediate_command parent_local_pin) fresh).0
      (change_policy DesiredInternetState.blocked (immediate_command parent_local_pin) fresh).1
change_policy-outcome_example =
    change_policy-outcome DesiredInternetState.blocked (immediate_command parent_local_pin) fresh

handle_ack_telegram-outcome_example :
    Post
      (Acked entry_id fresh.state fresh.pending_durable_candidate)
      (Holds fresh.state fresh.pending_durable_candidate)
      (handle_ack_telegram entry_id fresh).0
      (handle_ack_telegram entry_id fresh).1
handle_ack_telegram-outcome_example = handle_ack_telegram-outcome entry_id fresh

handle_send_child_message-outcome_example :
    Post
      (Sent "hi" fresh.state)
      (Holds fresh.state fresh.pending_durable_candidate)
      (handle_send_child_message "hi" fresh).0
      (handle_send_child_message "hi" fresh).1
handle_send_child_message-outcome_example = handle_send_child_message-outcome "hi" fresh

handle_command-stop_refuses_example :
    handle_command (restore_internet parent_local_pin) (handle_command stop started).1
    ≡ (err stopping, (handle_command stop started).1)
handle_command-stop_refuses_example =
    handle_command-stop_refuses (restore_internet parent_local_pin) started refl

reconcile_subscriber_registry-Counted_example :
    Post
      (λ _. Counted)
      (λ d. Uncountable d)
      (reconcile_subscriber_registry none subscribed_fresh).0
      (reconcile_subscriber_registry none subscribed_fresh).1
reconcile_subscriber_registry-Counted_example =
    reconcile_subscriber_registry-Counted none subscribed_fresh

-- The subscribers 5 and 6 do not take the update and are dropped.
drops_failing : (reconcile_subscriber_registry none subscribed_fresh).1.subscribers ≡ 7 ∷ []
unfolding reconcile_subscriber_registry ◌>>=◌ reconcile_rounds checked_active_session_count initial
    build_service_health_snapshot monotonic_now try_send_to_subscribers send_to_each set_sessions
    is_id try_send remove_subscribers retain any
drops_failing = refl

abbrev waiting : Coordinator
waiting = record fresh {
  monotonic_timers =
      (
        action_id,
        record {
          timer_id = action_id;
          action_kind = shutdown_computer;
          utc_deadline = overdue_shutdown.deadline;
          monotonic_target = 600000001000;
          original_duration_seconds = 600;
          monotonic_start = 1000;
          last_evaluated_remaining_seconds = 600;
        },
      )
      ∷ [];
  next_retry_at = some 5000;
}

next_wake_timeout-WakesBy_example :
    All
      (λ (t : TimerId × MonotonicTimerAnchor).
        WakesBy (next_wake_timeout waiting 2000) 2000 t.1.monotonic_target)
      waiting.monotonic_timers
    × RetryBy (next_wake_timeout waiting 2000) 2000 waiting.next_retry_at
unfolding initial
next_wake_timeout-WakesBy_example = next_wake_timeout-WakesBy waiting 2000 refl

creation_then_crossing_example :
    (contains (emitted_at_creation 600) m10 ≡ leb 600 (seconds m10))
    × (occurs m10 (crossed_warning_thresholds (pos 600) (pos 100) (emitted_at_creation 600))
        ≡ (ltb (seconds m10) 600 && leb 100 (seconds m10)))
creation_then_crossing_example = creation_then_crossing 600 100 (omega arith) m10

crossed_split_example :
    (occurs m3 (crossed_warning_thresholds (pos 700) (pos 100) empty) ≡ (
      occurs m3 (crossed_warning_thresholds (pos 700) (pos 500) empty)
      || occurs m3 (
          crossed_warning_thresholds
            (pos 500)
            (pos 100)
            (insert_all (crossed_warning_thresholds (pos 700) (pos 500) empty) empty))))
    × ((occurs m3 (crossed_warning_thresholds (pos 700) (pos 500) empty)
          && occurs m3 (
              crossed_warning_thresholds
                (pos 500)
                (pos 100)
                (insert_all (crossed_warning_thresholds (pos 700) (pos 500) empty) empty)))
        ≡ false)
crossed_split_example =
    crossed_split (pos 700) (pos 500) (pos 100) empty m3 (omega arith) (omega arith) (omega arith)

recovery_then_crossing_example :
    (contains (insert_all (recovery_passed_thresholds (pos 700) empty) empty) m3
      ≡ (contains empty m3 || leb_ℤ (pos 700) (pos (seconds m3))))
    × (occurs m3 (
          crossed_warning_thresholds
            (pos 700)
            (pos 100)
            (insert_all (recovery_passed_thresholds (pos 700) empty) empty))
        ≡ (ltb_ℤ (pos (seconds m3)) (pos 700)
            && leb_ℤ (pos 100) (pos (seconds m3))
            && not (contains empty m3)))
recovery_then_crossing_example =
    recovery_then_crossing (pos 700) (pos 100) empty m3 (omega arith) (omega arith)

transition-eq-some_iff_example :
    (transition on_recovery block_internet ActionExecutionState.pending (pos 0)
      ≡ some ActionExecutionState.executing)
    ↔ Step
        (pos 0)
        on_recovery
        block_internet
        ActionExecutionState.pending
        ActionExecutionState.executing
transition-eq-some_iff_example =
    transition-eq-some_iff on_recovery block_internet ActionExecutionState.pending
      ActionExecutionState.executing (pos 0)

-- Too early, at the deadline, and after a restart.
abbrev asked : List (Cause × ℤ)
asked = (at_deadline, pos 5) ∷ (at_deadline, pos 0) ∷ (on_recovery, negsuc 9) ∷ []

asked_twice_taken : taken shutdown_computer ActionExecutionState.pending asked ≡ 2
unfolding runtime_deadline_transition recovery_overdue_transition
asked_twice_taken = refl

taken-bounded_example :
    (taken shutdown_computer ActionExecutionState.pending asked ≤ 3)
    × ((action_state_is_terminal ActionExecutionState.pending ≡ false)
        ⊎ (taken shutdown_computer ActionExecutionState.pending asked ≡ 0))
    × ((any is_due_at asked ≡ true)
        ⊎ (taken shutdown_computer ActionExecutionState.pending asked ≡ 0))
taken-bounded_example = taken-bounded shutdown_computer ActionExecutionState.pending asked

remaining_due_iff_example :
    ((remaining_seconds_from_delta_ms (pos 1500) ≤ℤ pos 0) ↔ (pos 1500 ≤ℤ pos 0))
    × (pos_part (pos 1500) ≤ pos_part (remaining_seconds_from_delta_ms (pos 1500)) * 1000)
    × (pos_part (remaining_seconds_from_delta_ms (pos 1500)) * 1000 < pos_part (pos 1500) + 1000)
remaining_due_iff_example = remaining_due_iff (pos 1500) (omega arith)

remaining_wraps_example : remaining_seconds_from_delta_ms (pos 9223372036854775000) ≤ℤ pos 0
remaining_wraps_example = remaining_wraps 9223372036854775000 (omega arith) (omega arith)
