-- ===== src/Runtime/Deadlines.antt =====
-- crates/service/src/runtime.rs: the execution of a deadline that has arrived.
use palka.Base.{
  Bool, true, false, Option, none, some, List, [], ◌∷◌, ◌++◌, String, Result, ok, err,
  if◌then◌else◌,
}
use palka.Base.Int.{pos}
use palka.Base.Text.{◌<>◌}
use palka.Domain.{
  block_internet, shutdown_computer, ScheduledAction, ActionExecutionState, executing, TimerId,
  DesiredInternetState, InternetState, ShutdownState, in_progress, timer_expired, StateChangeReason,
}
use palka.Domain.Transitions.{
  runtime_deadline_transition, execution_success_transition, execution_failure_transition,
}
use palka.Persistence.{PersistentState, StateStoreError}
use palka.Runtime.State.{PlatformError}
use palka.Runtime.Action.{when◌then◌else◌, Action, pure, gets, modify, try, ignore, ◌>>=◌, ◌>>◌}
use palka.Runtime.Ports.{is_stop_requested, power_initiate_shutdown, next_outbox_id}
use palka.Runtime.Health.{derive_shutdown_state}
use palka.Runtime.Events.{
  emit_event, mutate_health_and_maybe_emit, maybe_emit_shutdown_state_changed, mark_gate_success,
}
use palka.Runtime.Commit.{commit_authoritative_state, commit_post_side_effect_candidate}
use palka.Runtime.Candidates.{
  debug_internet, notification, find_action, update_action, without_action, with_execution,
  clear_retry, remove,
}
use palka.Runtime.Internet.{
  GateResults, Verdict, verified, mismatch, failure, judge, enter_gate, observe,
  record_internet_failure, is_completed,
}

-- The found action may start: `runtime_deadline_transition(&state, 0)` is `Executing`.
abbrev pub starts : Option ActionExecutionState → Bool
starts (some ActionExecutionState.executing) = true
starts _ = false

abbrev pub may_start : Option ScheduledAction → Bool
may_start none = false
may_start (some a) = starts (runtime_deadline_transition a.execution_state (pos 0))

unfoldable pub start_action : TimerId → List ScheduledAction → Option (List ScheduledAction)
start_action id actions =
    if may_start (find_action id actions)
    then some (update_action id (with_execution executing) actions)
    else none

abbrev pub completes : Option ScheduledAction → Bool
completes none = false
completes (some a) = is_completed (execution_success_transition a.execution_state)

unfoldable pub complete_action : TimerId → List ScheduledAction → List ScheduledAction
complete_action id actions =
    if completes (find_action id actions) then without_action id actions else actions

abbrev pub execution_or : Option ActionExecutionState → ScheduledAction → ScheduledAction
execution_or none a = a
execution_or (some next) a = with_execution next a

unfoldable pub fail_action : TimerId → String → List ScheduledAction → List ScheduledAction
fail_action id reason =
    update_action id (λ a. execution_or (execution_failure_transition a.execution_state reason) a)

abbrev pub completed_internet : TimerId → PersistentState → PersistentState
completed_internet id s = record (clear_retry s) {
  active_actions = complete_action id s.active_actions;
}

abbrev pub failed_internet : TimerId → String → PersistentState → PersistentState
failed_internet id reason s = record s { active_actions = fail_action id reason s.active_actions }

module _ {E : Type 0} where
  unfoldable pub conclude_internet_deadline : TimerId → Verdict → Action E (Unit {0})
  conclude_internet_deadline id verified = do
    candidate ← gets (λ c. completed_internet id c.state)
    mark_gate_success
    ignore (commit_post_side_effect_candidate candidate)
  conclude_internet_deadline id (mismatch observed) =
      let message =
        "Scheduled block verification mismatch: observed "
        <> debug_internet observed
        <> ", expected Blocked" in
      ignore {E = E} (
        record_internet_failure (failed_internet id message) "Scheduled internet block failed: "
          message)
  conclude_internet_deadline id (failure reason) = ignore {E = E} (
      record_internet_failure (failed_internet id reason) "Scheduled internet block failed: "
        reason)

  unfoldable pub after_internet_deadline :
      TimerId → DesiredInternetState → InternetState → Option GateResults → Action E (Unit {0})
  unfolding conclude_internet_deadline
  after_internet_deadline id previous_desired previous_observed none = pure tt
  after_internet_deadline id previous_desired previous_observed (some results) = do
    observe previous_desired previous_observed (StateChangeReason.timer_expired id) results.1
    conclude_internet_deadline id (judge DesiredInternetState.blocked results)

  -- Once the action is durably executing: the anchor goes, and the block is carried out.
  unfoldable pub carry_out_block :
      TimerId
      → DesiredInternetState
      → InternetState
      → Result (Unit {0}) StateStoreError
      → Action E (Unit {0})
  unfolding after_internet_deadline
  carry_out_block id previous_desired previous_observed (err e) = pure tt
  carry_out_block id previous_desired previous_observed (ok _) = do
    modify (λ c. record c { monotonic_timers = remove id c.monotonic_timers })
    ignore (emit_event (timer_expired id block_internet))
    results ← enter_gate DesiredInternetState.blocked
    after_internet_deadline id previous_desired previous_observed results

  unfoldable pub start_block : TimerId → Option (List ScheduledAction) → Action E (Unit {0})
  unfolding carry_out_block
  start_block id none = pure tt
  start_block id (some actions) = do
    previous_desired ← gets (λ c. c.state.desired_internet_state)
    previous_observed ← gets (λ c. c.observed_internet_state)
    state ← gets (λ c. c.state)
    saved ← try (
        commit_authoritative_state (record state {
          active_actions = actions;
          desired_internet_state = DesiredInternetState.blocked;
        }))
    carry_out_block id previous_desired previous_observed saved

  unfoldable pub execute_scheduled_internet_deadline : TimerId → Action E (Unit {0})
  unfolding start_block
  execute_scheduled_internet_deadline id = do
    stop ← is_stop_requested
    when stop
        then pure tt
        else do started ← gets (λ c. start_action id c.state.active_actions); start_block id started

  unfoldable pub shutdown_succeeded : TimerId → Action E (Unit {0})
  shutdown_succeeded id = do
    post ← gets (λ c. c.state)
    mutate_health_and_maybe_emit (λ c. record c { power_error = none })
    previous ← gets (λ c. c.shutdown_state)
    modify (λ c. record c { shutdown_state = in_progress })
    maybe_emit_shutdown_state_changed previous in_progress
    ignore (
        commit_post_side_effect_candidate
          (record post { active_actions = complete_action id post.active_actions }))

  abbrev pub announce_if_saved :
      ShutdownState → ShutdownState → Result (Unit {0}) StateStoreError → Action E (Unit {0})
  announce_if_saved previous target (ok _) = maybe_emit_shutdown_state_changed previous target
  announce_if_saved previous target (err e) = pure tt

  unfoldable pub shutdown_failed : TimerId → String → Action E (Unit {0})
  shutdown_failed id reason = do
    post ← gets (λ c. c.state)
    mutate_health_and_maybe_emit (λ c. record c { power_error = some reason })
    let actions = fail_action id reason post.active_actions
    entry_id ← next_outbox_id
    previous ← gets (λ c. c.shutdown_state)
    let target = derive_shutdown_state previous actions
    modify (λ c. record c { shutdown_state = target })
    save_res ← try (
        commit_post_side_effect_candidate (record post {
          active_actions = actions;
          telegram_outbox =
              post.telegram_outbox
              ++ notification entry_id ("Scheduled shutdown failed: " <> reason) ∷ [];
        }))
    announce_if_saved previous target save_res

  unfoldable pub conclude_shutdown :
      TimerId → Option ScheduledAction → Result (Unit {0}) PlatformError → Action E (Unit {0})
  unfolding shutdown_succeeded shutdown_failed
  conclude_shutdown id none power_res = pure tt
  conclude_shutdown id (some action) (ok _) = shutdown_succeeded id
  conclude_shutdown id (some action) (err e) = shutdown_failed id e.reason

  unfoldable pub carry_out_shutdown :
      TimerId → Result (Unit {0}) StateStoreError → Action E (Unit {0})
  unfolding conclude_shutdown
  carry_out_shutdown id (err e) = pure tt
  carry_out_shutdown id (ok _) = do
    modify (λ c. record c { monotonic_timers = remove id c.monotonic_timers })
    ignore (emit_event (timer_expired id shutdown_computer))
    stop ← is_stop_requested
    when stop then pure tt else do
      power_res ← power_initiate_shutdown
      found ← gets (λ c. find_action id c.state.active_actions)
      conclude_shutdown id found power_res

  unfoldable pub start_shutdown : TimerId → Option (List ScheduledAction) → Action E (Unit {0})
  unfolding carry_out_shutdown
  start_shutdown id none = pure tt
  start_shutdown id (some actions) = do
    state ← gets (λ c. c.state)
    saved ← try (commit_authoritative_state (record state { active_actions = actions }))
    carry_out_shutdown id saved

  unfoldable pub execute_scheduled_shutdown_deadline : TimerId → Action E (Unit {0})
  unfolding start_shutdown
  execute_scheduled_shutdown_deadline id = do
    stop ← is_stop_requested
    when stop then pure tt else do
      started ← gets (λ c. start_action id c.state.active_actions)
      start_shutdown id started
