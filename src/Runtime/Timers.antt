-- ===== src/Runtime/Timers.antt =====
-- crates/service/src/runtime.rs: handle_schedule_action and handle_cancel_exact_timer.
use palka.Base.{
  ℕ, ◌+◌, ◌*◌, not, Option, none, some, List, [], ◌∷◌, ◌++◌, String, if◌then◌else◌, leb, ◌==◌,
  length,
}
use palka.Base.Int.{pos, ◌+ℤ◌, wrap_i64}
use palka.Base.Text.{◌<>◌}
use palka.Domain.{
  ActionKind, block_internet, shutdown_computer, action_kind_eq, ScheduledAction, TimerId,
  UtcDateTime, Deadline, Initiator, WarningThreshold, timer_scheduled, timer_cancelled,
  warning_threshold_reached, pending,
}
use palka.Domain.Thresholds.{
  seconds, insert_all, creation_passed_thresholds, creation_due_thresholds,
}
use palka.Domain.Transitions.{is_pending}
use palka.Persistence.{TelegramOutboxEntry}
use palka.Runtime.State.{
  ServiceRuntimeError, persistence, cancellation_forbidden, MonotonicTimerAnchor,
  TimerCancellationResult, cancelled, already_absent, timer_kind_mismatch, Instant,
}
use palka.Runtime.Action.{
  when◌then◌else◌, Action, pure, raise, gets, modify, map_err, ignore, ◌>>=◌, ◌>>◌,
}
use palka.Runtime.Ports.{utc_now, monotonic_now, next_timer_id, next_outbox_id}
use palka.Runtime.Events.{emit_event, sync_shutdown_state_local, maybe_emit_shutdown_state_changed}
use palka.Runtime.Commit.{commit_authoritative_state}
use palka.Runtime.Candidates.{
  debug_execution, warning_text, notification, find_action, without_action, lookup, insert, remove,
}

module _ {E : Type 0} where
  -- One notification for each threshold that is due at creation.
  unfoldable pub due_notifications :
      ActionKind → List WarningThreshold → Action E (List TelegramOutboxEntry)
  due_notifications kind [] = pure []
  due_notifications kind (d ∷ ds) = do
    entry_id ← next_outbox_id
    rest ← due_notifications kind ds
    pure (notification entry_id (warning_text kind (seconds d)) ∷ rest)

  -- `WarningThresholdReached` for each threshold.
  unfoldable pub emit_warnings :
      TimerId → ActionKind → Deadline → UtcDateTime → List WarningThreshold → Action E (Unit {0})
  emit_warnings timer_id kind deadline now [] = pure tt
  emit_warnings timer_id kind deadline now (t ∷ ts) = do
    ignore (
        emit_event (
          warning_threshold_reached (record {
            timer_id = timer_id;
            action_kind = kind;
            threshold = t;
            deadline = deadline;
            emitted_at = now;
          })))
    emit_warnings timer_id kind deadline now ts

  -- The aggregated state follows the actions, for a shutdown.
  unfoldable pub sync_if_shutdown : ActionKind → Action E (Unit {0})
  sync_if_shutdown block_internet = pure tt
  sync_if_shutdown shutdown_computer = do
    both ← sync_shutdown_state_local
    maybe_emit_shutdown_state_changed both.0 both.1

abbrev pub or_action : Option ScheduledAction → ScheduledAction → ScheduledAction
or_action none a = a
or_action (some b) a = b

abbrev pub schedule_deadline : UtcDateTime → ℕ → Deadline
schedule_deadline now duration = record {
  at = record { millis = wrap_i64 (now.millis +ℤ pos (duration * 1000)) };
}

unfoldable pub new_action : TimerId → ActionKind → UtcDateTime → ℕ → Initiator → ScheduledAction
new_action timer_id kind now duration initiator = record {
  id = timer_id;
  action_kind = kind;
  deadline = schedule_deadline now duration;
  created_at = now;
  created_by = initiator;
  emitted_thresholds =
      insert_all (creation_due_thresholds duration) (creation_passed_thresholds duration);
  execution_state = pending;
}

unfoldable pub new_anchor : TimerId → ActionKind → Deadline → Instant → ℕ → MonotonicTimerAnchor
new_anchor timer_id kind deadline now duration = record {
  timer_id = timer_id;
  action_kind = kind;
  utc_deadline = deadline;
  monotonic_target = now + duration * 1000000000;
  original_duration_seconds = duration;
  monotonic_start = now;
  last_evaluated_remaining_seconds = duration;
}

-- What is left to do once the new action is durable.
unfoldable pub announce_scheduled :
    ScheduledAction → List WarningThreshold → Action ServiceRuntimeError (Unit {0})
announce_scheduled action due = do
  found ← gets (λ c. find_action action.id c.state.active_actions)
  ignore (emit_event (timer_scheduled (or_action found action)))
  emit_warnings action.id action.action_kind action.deadline action.created_at due
  sync_if_shutdown action.action_kind

unfoldable pub handle_schedule_action :
    ActionKind → ℕ → Initiator → Action ServiceRuntimeError TimerId
unfolding announce_scheduled
handle_schedule_action kind duration initiator = do
  now ← utc_now
  mono ← monotonic_now
  timer_id ← next_timer_id
  let due = creation_due_thresholds duration
  new_outbox ← due_notifications kind due
  let action = new_action timer_id kind now duration initiator
  state ← gets (λ c. c.state)
  map_err persistence (
      commit_authoritative_state (record state {
        active_actions = state.active_actions ++ action ∷ [];
        telegram_outbox = state.telegram_outbox ++ new_outbox;
      }))
  modify λ c. record c {
    monotonic_timers =
        insert timer_id (new_anchor timer_id kind action.deadline mono duration) c.monotonic_timers;
  }
  announce_scheduled action due
  pure timer_id

-- Step 4: a shutdown is cancelled only before its monotonic deadline.
unfoldable pub check_anchor :
    ActionKind → Option MonotonicTimerAnchor → Action ServiceRuntimeError (Unit {0})
check_anchor kind none =
    raise (cancellation_forbidden "Monotonic timer anchor unavailable for pending shutdown action")
check_anchor kind (some anchor) =
    when not (action_kind_eq anchor.action_kind kind)
    then raise
        (cancellation_forbidden "Monotonic timer anchor kind mismatch for pending shutdown action")
    else do
      now ← monotonic_now
      when leb anchor.monotonic_target now
          then raise (cancellation_forbidden "Shutdown cancellation boundary has passed")
          else pure tt

unfoldable pub check_boundary :
    TimerId → ActionKind → ActionKind → Action ServiceRuntimeError (Unit {0})
unfolding check_anchor
check_boundary timer_id block_internet kind = pure tt
check_boundary timer_id shutdown_computer kind = do
  anchor ← gets (λ c. lookup timer_id c.monotonic_timers)
  check_anchor kind anchor

-- Steps 5 to 8.
unfoldable pub commit_cancellation :
    TimerId → ActionKind → Action ServiceRuntimeError TimerCancellationResult
commit_cancellation timer_id kind = do
  state ← gets (λ c. c.state)
  let left = without_action timer_id state.active_actions
  when not (length left + 1 == length state.active_actions)
      then raise (cancellation_forbidden "Failed to target exactly one action for cancellation")
      else do
        map_err persistence (commit_authoritative_state (record state { active_actions = left }))
        modify (λ c. record c { monotonic_timers = remove timer_id c.monotonic_timers })
        ignore (emit_event (timer_cancelled timer_id kind))
        sync_if_shutdown kind
        pure cancelled

abbrev pub not_cancellable : (String → String) → ScheduledAction → String
not_cancellable debug_str a =
    "Action in state "
    <> debug_execution debug_str a.execution_state
    <> " cannot be cancelled; only Pending actions are cancellable"

unfoldable pub refuse_cancelling :
    ScheduledAction → Action ServiceRuntimeError TimerCancellationResult
refuse_cancelling action = do
  debug_str ← gets (λ c. c.ports.debug_str)
  raise (cancellation_forbidden (not_cancellable debug_str action))

unfoldable pub cancel_found :
    TimerId
    → ActionKind
    → Option ScheduledAction
    → Action ServiceRuntimeError TimerCancellationResult
unfolding commit_cancellation check_boundary refuse_cancelling
cancel_found timer_id expected none = pure already_absent
cancel_found timer_id expected (some action) =
    when not (action_kind_eq action.action_kind expected)
    then pure timer_kind_mismatch
    else when not (is_pending action.execution_state)
    then refuse_cancelling action
    else do
      check_boundary timer_id expected action.action_kind
      commit_cancellation timer_id expected

unfoldable pub handle_cancel_exact_timer :
    TimerId → ActionKind → Initiator → Action ServiceRuntimeError TimerCancellationResult
unfolding cancel_found
handle_cancel_exact_timer timer_id expected initiator = do
  found ← gets (λ c. find_action timer_id c.state.active_actions)
  cancel_found timer_id expected found
