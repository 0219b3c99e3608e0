-- ===== src/Runtime/Internet.antt =====
-- crates/service/src/runtime.rs: the commands that block and restore the internet at once, what
-- follows their failure, and the retry of a failed reconciliation.
use palka.Base.{
  ℕ, ◌+◌, Bool, true, false, ◌&&◌, not, Option, none, some, String, Result, ok, err, if◌then◌else◌,
  ◌==◌, is_some, retain,
}
use palka.Base.Text.{◌<>◌}
use palka.Domain.{
  DesiredInternetState, desired_eq, InternetState, internet_state_eq, StateChangeReason,
  immediate_command, manual_restore, platform_sync, Initiator, ScheduledAction, block_internet,
  action_kind_eq, ActionExecutionState,
}
use palka.Domain.Transitions.{execution_success_transition}
use palka.Persistence.{PersistentState, StateStoreError}
use palka.Runtime.State.{ServiceRuntimeError, persistence, platform, stopping, PlatformError}
use palka.Runtime.Action.{
  when◌then◌else◌, Action, pure, raise, lift, gets, modify, try, map_err, ignore, ◌>>=◌, ◌>>◌,
}
use palka.Runtime.Ports.{
  gate_block, gate_unblock, gate_current_state, is_stop_requested, monotonic_now, next_outbox_id,
  delay_for_attempt,
}
use palka.Runtime.Events.{
  mutate_health_and_maybe_emit, maybe_emit_internet_policy_changed, mark_gate_failure,
  mark_gate_success,
}
use palka.Runtime.Commit.{commit_authoritative_state, commit_post_side_effect_candidate}
use palka.Runtime.Candidates.{debug_internet, debug_desired, next_attempt, with_retry, clear_retry}

-- The state that a desired policy expects to observe.
abbrev pub expected : DesiredInternetState → InternetState
expected DesiredInternetState.unrestricted = InternetState.unrestricted
expected DesiredInternetState.blocked = InternetState.blocked

abbrev pub GateResults : Type 0
GateResults = Result (Unit {0}) PlatformError × Result InternetState PlatformError

-- The arms of the matches on the two results of the gate.
pub data Verdict : Type 0 where
  verified : Verdict
  mismatch : InternetState → Verdict
  failure : String → Verdict

unfoldable pub judge : DesiredInternetState → GateResults → Verdict
judge desired (ok _, ok observed) =
    if internet_state_eq observed (expected desired) then verified else mismatch observed
judge desired (ok _, err e) = failure e.reason
judge desired (err e, _) = failure e.reason

abbrev pub observed_of : Result InternetState PlatformError → InternetState
observed_of (ok observed) = observed
observed_of (err e) = InternetState.unknown

module _ {E : Type 0} where
  unfoldable pub apply_policy : DesiredInternetState → Action E (Result (Unit {0}) PlatformError)
  apply_policy DesiredInternetState.unrestricted = gate_unblock
  apply_policy DesiredInternetState.blocked = gate_block

  -- The section under `platform_effect_gate`: `none` if a stop was requested, else what the gate
  -- answered. `ServiceRuntime::stop` sets the flag under the same lock.
  unfoldable pub enter_gate : DesiredInternetState → Action E (Option GateResults)
  unfolding apply_policy
  enter_gate desired = do
    stop ← is_stop_requested
    when stop then pure none else do
      applied ← apply_policy desired
      current ← gate_current_state
      pure (some (applied, current))

  -- The observed state is what the gate last read, and the change is broadcast.
  unfoldable pub observe :
      DesiredInternetState
      → InternetState
      → StateChangeReason
      → Result InternetState PlatformError
      → Action E (Unit {0})
  observe previous_desired previous_observed reason current = do
    modify (λ c. record c { observed_internet_state = observed_of current })
    maybe_emit_internet_policy_changed previous_desired previous_observed reason

  unfoldable pub schedule_next_internet_retry : ℕ → Action E (Unit {0})
  schedule_next_internet_retry attempt = do
    delay ← delay_for_attempt attempt
    when delay == 0
        then (do
          mutate_health_and_maybe_emit λ c. record c {
            retry_policy_error = some "InternetRetryPolicy returned invalid zero delay";
          }
          modify (λ c. record c { next_retry_at = none }))
        else (do
          mutate_health_and_maybe_emit (λ c. record c { retry_policy_error = none })
          now ← monotonic_now
          modify (λ c. record c { next_retry_at = some (now + delay) }))

  -- The retry metadata and a notification are saved, and a retry is scheduled also if the save
  -- fails. `change` is what the caller does to the candidate before.
  unfoldable pub record_internet_failure :
      (PersistentState → PersistentState)
      → String
      → String
      → Action E (Result (Unit {0}) StateStoreError)
  record_internet_failure change prefix message = do
    mark_gate_failure message
    state ← gets (λ c. c.state)
    let attempt = next_attempt state.internet_retry
    entry_id ← next_outbox_id
    save_res ← try (
        commit_post_side_effect_candidate
          (with_retry attempt message entry_id (prefix <> message) (change state)))
    schedule_next_internet_retry attempt
    pure save_res

abbrev pub failed_command :
    String → Result (Unit {0}) StateStoreError → Result (Unit {0}) ServiceRuntimeError
failed_command message (ok _) = err (platform (record { reason = message }))
failed_command message (err e) = err (persistence e)

-- handle_immediate_internet_failure and handle_restore_internet_failure: the desired state is not
-- rolled back, and the command fails.
unfoldable pub handle_internet_failure : String → String → Action ServiceRuntimeError (Unit {0})
handle_internet_failure prefix message = do
  save_res ← record_internet_failure (λ s. s) prefix message
  lift (failed_command message save_res)

unfoldable pub clear_retry_if : Option PersistentState → Action ServiceRuntimeError (Unit {0})
clear_retry_if none = pure tt
clear_retry_if (some candidate) = map_err persistence (commit_post_side_effect_candidate candidate)

abbrev pub retry_to_clear : PersistentState → Option PersistentState
retry_to_clear s = if is_some s.internet_retry then some (clear_retry s) else none

abbrev pub failed_prefix : DesiredInternetState → String
failed_prefix DesiredInternetState.blocked = "Immediate internet block failed: "
failed_prefix DesiredInternetState.unrestricted = "Internet restoration failed: "

abbrev pub mismatch_text : DesiredInternetState → InternetState → String
mismatch_text DesiredInternetState.blocked observed =
    "Immediate block verification mismatch: observed "
    <> debug_internet observed
    <> ", expected Blocked"
mismatch_text DesiredInternetState.unrestricted observed =
    "Restore internet verification mismatch: observed "
    <> debug_internet observed
    <> ", expected Unrestricted"

unfoldable pub conclude_command :
    DesiredInternetState → Verdict → Action ServiceRuntimeError (Unit {0})
unfolding clear_retry_if handle_internet_failure
conclude_command desired verified = do
  mark_gate_success
  candidate ← gets (λ c. retry_to_clear c.state)
  clear_retry_if candidate
conclude_command desired (mismatch observed) =
    handle_internet_failure (failed_prefix desired) (mismatch_text desired observed)
conclude_command desired (failure reason) = handle_internet_failure (failed_prefix desired) reason

unfoldable pub after_gate :
    DesiredInternetState
    → DesiredInternetState
    → InternetState
    → StateChangeReason
    → Option GateResults
    → Action ServiceRuntimeError (Unit {0})
unfolding conclude_command
after_gate desired previous_desired previous_observed reason none = raise stopping
after_gate desired previous_desired previous_observed reason (some results) = do
  observe previous_desired previous_observed reason results.1
  conclude_command desired (judge desired results)

-- The two commands differ in the policy, the reason and the texts alone.
unfoldable pub change_policy :
    DesiredInternetState → StateChangeReason → Action ServiceRuntimeError (Unit {0})
unfolding after_gate
change_policy desired reason = do
  previous_desired ← gets (λ c. c.state.desired_internet_state)
  previous_observed ← gets (λ c. c.observed_internet_state)
  state ← gets (λ c. c.state)
  map_err persistence
      (commit_authoritative_state (record state { desired_internet_state = desired }))
  results ← enter_gate desired
  after_gate desired previous_desired previous_observed reason results

unfoldable pub handle_immediate_block : Initiator → Action ServiceRuntimeError (Unit {0})
unfolding change_policy
handle_immediate_block initiator =
    change_policy DesiredInternetState.blocked (immediate_command initiator)

unfoldable pub handle_restore_internet : Initiator → Action ServiceRuntimeError (Unit {0})
unfolding change_policy
handle_restore_internet initiator =
    change_policy DesiredInternetState.unrestricted (manual_restore initiator)

-- What a reconciliation that succeeds removes: the executing block actions, if the policy is to
-- block. Failed ones stay.
abbrev pub is_completed : Option ActionExecutionState → Bool
is_completed (some ActionExecutionState.completed) = true
is_completed _ = false

abbrev pub stays_after_retry : ScheduledAction → Bool
stays_after_retry a = not (
    action_kind_eq a.action_kind block_internet
    && is_completed (execution_success_transition a.execution_state))

unfoldable pub reconciled : PersistentState → PersistentState
reconciled s = record (clear_retry s) {
  active_actions =
      if desired_eq s.desired_internet_state DesiredInternetState.blocked
      then retain stays_after_retry s.active_actions
      else s.active_actions;
}

module _ {E : Type 0} where
  unfoldable pub record_retry_failure : String → Action E (Unit {0})
  record_retry_failure message =
      ignore {E = E}
        (record_internet_failure (λ s. s) "Internet reconciliation retry failed: " message)

  unfoldable pub conclude_retry : DesiredInternetState → Verdict → Action E (Unit {0})
  unfolding record_retry_failure
  conclude_retry desired verified = do
    candidate ← gets (λ c. reconciled c.state)
    mark_gate_success
    ignore (commit_post_side_effect_candidate candidate)
  conclude_retry desired (mismatch observed) = record_retry_failure (
      "Reconciliation retry mismatch: observed "
      <> debug_internet observed
      <> ", expected "
      <> debug_desired desired)
  conclude_retry desired (failure reason) = record_retry_failure reason

  unfoldable pub after_retry :
      DesiredInternetState → InternetState → Option GateResults → Action E (Unit {0})
  unfolding conclude_retry
  after_retry desired previous_observed none = pure tt
  after_retry desired previous_observed (some results) = do
    observe desired previous_observed platform_sync results.1
    conclude_retry desired (judge desired results)

  unfoldable pub process_internet_reconciliation_retry : Action E (Unit {0})
  unfolding after_retry
  process_internet_reconciliation_retry = do
    desired ← gets (λ c. c.state.desired_internet_state)
    previous_observed ← gets (λ c. c.observed_internet_state)
    results ← enter_gate desired
    after_retry desired previous_observed results
