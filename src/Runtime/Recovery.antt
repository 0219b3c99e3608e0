-- ===== src/Runtime/Recovery.antt =====
-- crates/service/src/runtime.rs: remaining_seconds_from_delta_ms and perform_startup_recovery.
pub mod Delta
use palka.Base.{
  ℕ, ◌+◌, ◌*◌, ◌≡◌, refl, Bool, true, false, not, ◌&&◌, ◌||◌, Option, none, some, List, [], ◌∷◌,
  ◌++◌, String, Result, ok, err, if◌then◌else◌, max, any, retain, is_empty, is_some,
}
use palka.Base.Int.{ℤ, pos, pos_part, ◌-ℤ◌, wrap_i64, leb_ℤ}
use palka.Base.Text.{◌<>◌}
use palka.Domain.{
  UtcDateTime, ActionKind, block_internet, shutdown_computer, ScheduledAction, ActionExecutionState,
  TimerId, timer_id_eq, DesiredInternetState, desired_eq, InternetState, HealthStatus, healthy,
  degraded, critical, StatusSnapshot, missed_deadline_occurred, startup_restoration,
}
use palka.Domain.Thresholds.{recovery_passed_thresholds}
use palka.Domain.Transitions.{
  recovery_overdue_transition, execution_success_transition, execution_failure_transition,
}
use palka.Persistence.{PersistentState, TelegramOutboxEntry}
use palka.Runtime.State.{
  Coordinator, ServiceRuntimeError, startup_recovery_fatal, persistence, MonotonicTimerAnchor,
  Instant, StartupReadiness,
}
use palka.Runtime.Action.{
  when◌then◌else◌, Action, pure, raise, lift, gets, modify, map_err, ignore, ◌>>=◌, ◌>>◌,
}
use palka.Runtime.Ports.{utc_now, monotonic_now, next_outbox_id, gate_current_state}
use palka.Runtime.Health.{build_status_snapshot}
use palka.Runtime.Events.{
  emit_event, sync_shutdown_state_local, maybe_emit_shutdown_state_changed, mark_gate_failure,
  mark_gate_success,
}
use palka.Runtime.Commit.{commit_authoritative_state, commit_post_side_effect_candidate}
use palka.Runtime.Candidates.{
  debug_internet, debug_desired, debug_execution, debug_timer_id, notification, with_execution,
  with_emitted, clear_retry, with_retry, next_attempt, insert,
}
use palka.Runtime.Internet.{
  Verdict, verified, mismatch, failure, judge, apply_policy, observe, schedule_next_internet_retry,
  is_completed,
}
use Delta.{remaining_seconds_from_delta_ms}

-- The variables of the loop over the recovered actions.
pub record Scan : Type 0 where
  pub desired : DesiredInternetState
  pub needs_commit : Bool
  pub to_remove : List TimerId
  pub overdue_ids : List TimerId
  pub missed : List ScheduledAction
  pub outbox : List TelegramOutboxEntry

abbrev pub missed_text : String
missed_text = "Scheduled shutdown was missed while service was offline"

abbrev pub debug_next : (String → String) → Option ActionExecutionState → String
debug_next debug_str none = "None"
debug_next debug_str (some s) = "Some(" <> debug_execution debug_str s <> ")"

abbrev pub contract_failure : (String → String) → Option ActionExecutionState → String
contract_failure debug_str other =
    "Contract failure: recovery_overdue_transition for Pending BlockInternet returned "
    <> debug_next debug_str other

unfoldable pub recover_pending_block :
    ScheduledAction
    → Scan
    → Option ActionExecutionState
    → Action ServiceRuntimeError (ScheduledAction × Scan)
recover_pending_block a s (some ActionExecutionState.executing) = pure (
  with_execution ActionExecutionState.executing a,
  record s {
    desired = DesiredInternetState.blocked;
    needs_commit = true;
    overdue_ids = s.overdue_ids ++ a.id ∷ [];
  },
)
recover_pending_block a s other = gets (λ c. c.ports.debug_str) >>= λ debug_str.
    raise (startup_recovery_fatal (contract_failure debug_str other))

abbrev pub with_overdue : ScheduledAction → Scan → Scan
with_overdue a s = record s {
  desired = DesiredInternetState.blocked;
  needs_commit = s.needs_commit || not (desired_eq s.desired DesiredInternetState.blocked);
  overdue_ids = s.overdue_ids ++ a.id ∷ [];
}

unfoldable pub recover_overdue_block :
    ℤ
    → ScheduledAction
    → Scan
    → ActionExecutionState
    → Action ServiceRuntimeError (ScheduledAction × Scan)
unfolding recover_pending_block
recover_overdue_block remaining a s ActionExecutionState.pending =
    recover_pending_block a s
      (recovery_overdue_transition block_internet ActionExecutionState.pending remaining)
recover_overdue_block remaining a s ActionExecutionState.executing = pure (a, with_overdue a s)
recover_overdue_block remaining a s _ = pure (a, s)

unfoldable pub recover_overdue_shutdown :
    ScheduledAction
    → Scan
    → Option ActionExecutionState
    → Action ServiceRuntimeError (ScheduledAction × Scan)
recover_overdue_shutdown a s (some ActionExecutionState.missed) = do
  let b = with_execution ActionExecutionState.missed a
  entry_id ← next_outbox_id
  pure (
    b,
    record s {
      needs_commit = true;
      to_remove = s.to_remove ++ a.id ∷ [];
      missed = s.missed ++ b ∷ [];
      outbox = s.outbox ++ notification entry_id missed_text ∷ [];
    },
  )
recover_overdue_shutdown a s _ = pure (a, s)

abbrev pub recovered_anchor : ScheduledAction → ℤ → ℤ → Instant → MonotonicTimerAnchor
recovered_anchor a delta remaining now =
    let duration = max (pos_part remaining) 1 in
    record {
      timer_id = a.id;
      action_kind = a.action_kind;
      utc_deadline = a.deadline;
      monotonic_target = now + pos_part delta * 1000000;
      original_duration_seconds = duration;
      monotonic_start = now;
      last_evaluated_remaining_seconds = duration;
    }

-- An action whose deadline is ahead: `remaining` is positive, so the casts to `u64` keep it.
unfoldable pub recover_future :
    ℤ → ℤ → Instant → ScheduledAction → Scan → Action ServiceRuntimeError (ScheduledAction × Scan)
recover_future delta remaining now a s = do
  let passed = recovery_passed_thresholds remaining a.emitted_thresholds
  modify λ c. record c {
    monotonic_timers = insert a.id (recovered_anchor a delta remaining now) c.monotonic_timers;
  }
  pure (with_emitted passed a, record s { needs_commit = s.needs_commit || not (is_empty passed) })

abbrev pub recover_overdue :
    ActionKind → ℤ → ScheduledAction → Scan → Action ServiceRuntimeError (ScheduledAction × Scan)
recover_overdue block_internet remaining a s = recover_overdue_block remaining a s a.execution_state
recover_overdue shutdown_computer remaining a s =
    recover_overdue_shutdown a s
      (recovery_overdue_transition shutdown_computer a.execution_state remaining)

unfoldable pub recover_action :
    UtcDateTime
    → Instant
    → ScheduledAction
    → Scan
    → Action ServiceRuntimeError (ScheduledAction × Scan)
unfolding recover_overdue_block recover_overdue_shutdown recover_future
recover_action now_utc now a s =
    let delta = wrap_i64 (a.deadline.at.millis -ℤ now_utc.millis) in
    let remaining = remaining_seconds_from_delta_ms delta in
    when leb_ℤ remaining (pos 0)
    then recover_overdue a.action_kind remaining a s
    else recover_future delta remaining now a s

unfoldable pub recover_actions :
    UtcDateTime
    → Instant
    → List ScheduledAction
    → Scan
    → Action ServiceRuntimeError (List ScheduledAction × Scan)
unfolding recover_action
recover_actions now_utc now [] s = pure ([], s)
recover_actions now_utc now (a ∷ more) s = do
  first ← recover_action now_utc now a s
  rest ← recover_actions now_utc now more first.1
  pure (first.0 ∷ rest.0, rest.1)

abbrev pub holds_id : List TimerId → TimerId → Bool
holds_id ids id = any (λ k. timer_id_eq k id) ids

abbrev pub start_scan : PersistentState → Scan
start_scan s = record {
  desired = s.desired_internet_state;
  needs_commit = false;
  to_remove = [];
  overdue_ids = [];
  missed = [];
  outbox = s.telegram_outbox;
}

abbrev pub recovered_state : PersistentState → List ScheduledAction → Scan → PersistentState
recovered_state state actions s = record state {
  desired_internet_state = s.desired;
  active_actions = retain (λ a. not (holds_id s.to_remove a.id)) actions;
  telegram_outbox = s.outbox;
}

unfoldable pub commit_recovery : Bool → PersistentState → Action ServiceRuntimeError (Unit {0})
commit_recovery needed candidate =
    when needed then map_err persistence (commit_authoritative_state candidate) else pure tt

unfoldable pub emit_missed : List ScheduledAction → Action ServiceRuntimeError (Unit {0})
emit_missed [] = pure tt
emit_missed (a ∷ more) = do
  ignore (emit_event (missed_deadline_occurred a missed_text))
  emit_missed more

abbrev pub completes_overdue : List TimerId → ScheduledAction → Bool
completes_overdue ids a =
    holds_id ids a.id && is_completed (execution_success_transition a.execution_state)

-- The identifiers of the overdue actions that are completed.
unfoldable pub completed_ids : List TimerId → List ScheduledAction → List TimerId
completed_ids ids [] = []
completed_ids ids (a ∷ more) =
    let rest = completed_ids ids more in if completes_overdue ids a then a.id ∷ rest else rest

-- After a verified reconciliation: the state without retry metadata and completed actions, if that
-- differs from the state.
unfoldable pub startup_reconciled : List TimerId → PersistentState → Option PersistentState
startup_reconciled overdue_ids s =
    let completed = completed_ids overdue_ids s.active_actions in
    if is_some s.internet_retry || not (is_empty completed)
    then some (record (clear_retry s) {
      active_actions = retain (λ a. not (holds_id completed a.id)) s.active_actions;
    })
    else none

unfoldable pub commit_reconciled : Option PersistentState → Action ServiceRuntimeError (Unit {0})
commit_reconciled none = pure tt
commit_reconciled (some s) = map_err persistence (commit_post_side_effect_candidate s)

abbrev pub failed_or :
    TimerId
    → Option ActionExecutionState
    → ScheduledAction
    → Result ScheduledAction ServiceRuntimeError
failed_or id (some next) a = ok (with_execution next a)
failed_or id none a = err (
    startup_recovery_fatal (
      "Contract failure: execution_failure_transition returned None for recovered overdue block action "
      <> debug_timer_id id))

abbrev pub failed_overdue :
    List TimerId → String → ScheduledAction → Result ScheduledAction ServiceRuntimeError
failed_overdue ids reason a =
    if holds_id ids a.id
    then failed_or a.id (execution_failure_transition a.execution_state reason) a
    else ok a

-- The overdue actions fail; one that is not executing is a broken contract.
unfoldable pub fail_each :
    List TimerId → String → List ScheduledAction → Action ServiceRuntimeError (List ScheduledAction)
fail_each ids reason [] = pure []
fail_each ids reason (a ∷ more) = do
  b ← lift (failed_overdue ids reason a)
  rest ← fail_each ids reason more
  pure (b ∷ rest)

unfoldable pub startup_degraded : List TimerId → String → Action ServiceRuntimeError (Unit {0})
unfolding fail_each
startup_degraded overdue_ids message = do
  mark_gate_failure message
  state ← gets (λ c. c.state)
  let attempt = next_attempt state.internet_retry
  actions ← fail_each overdue_ids message state.active_actions
  entry_id ← next_outbox_id
  map_err persistence (
      commit_post_side_effect_candidate (
        with_retry attempt message entry_id ("Internet startup reconciliation failed: " <> message)
          (record state { active_actions = actions })))
  schedule_next_internet_retry attempt

unfoldable pub conclude_startup :
    List TimerId → DesiredInternetState → Verdict → Action ServiceRuntimeError (Unit {0})
unfolding commit_reconciled startup_degraded
conclude_startup overdue_ids desired verified = do
  mark_gate_success
  candidate ← gets (λ c. startup_reconciled overdue_ids c.state)
  commit_reconciled candidate
conclude_startup overdue_ids desired (mismatch observed) = startup_degraded overdue_ids (
    "Observed Internet state "
    <> debug_internet observed
    <> " does not match desired state "
    <> debug_desired desired)
conclude_startup overdue_ids desired (failure reason) = startup_degraded overdue_ids reason

unfoldable pub reconcile_at_startup : List TimerId → Action ServiceRuntimeError (Unit {0})
unfolding conclude_startup
reconcile_at_startup overdue_ids = do
  desired ← gets (λ c. c.state.desired_internet_state)
  previous_observed ← gets (λ c. c.observed_internet_state)
  applied ← apply_policy desired
  current ← gate_current_state
  observe desired previous_observed startup_restoration current
  conclude_startup overdue_ids desired (judge desired (applied, current))

abbrev pub readiness : HealthStatus → StatusSnapshot → Result StartupReadiness ServiceRuntimeError
readiness degraded snapshot = ok (StartupReadiness.degraded snapshot)
readiness healthy snapshot = ok (StartupReadiness.ready snapshot)
readiness critical snapshot = err (startup_recovery_fatal "Startup failed with critical health")

unfoldable pub perform_startup_recovery : Action ServiceRuntimeError StartupReadiness
unfolding recover_actions commit_recovery emit_missed reconcile_at_startup
perform_startup_recovery = do
  now_utc ← utc_now
  now ← monotonic_now
  state ← gets (λ c. c.state)
  scanned ← recover_actions now_utc now state.active_actions (start_scan state)
  commit_recovery scanned.1.needs_commit (recovered_state state scanned.0 scanned.1)
  emit_missed scanned.1.missed
  both ← sync_shutdown_state_local
  maybe_emit_shutdown_state_changed both.0 both.1
  reconcile_at_startup scanned.1.overdue_ids
  snapshot ← build_status_snapshot
  lift (readiness snapshot.health.status snapshot)
