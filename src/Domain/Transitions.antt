-- ===== src/Domain/Transitions.antt =====
-- crates/core/src/lib.rs: the life cycle of a scheduled action.
pub mod Lifecycle
use palka.Base.{ℕ, Bool, true, false, ◌&&◌, not, Option, none, some, String, if◌then◌else◌}
use palka.Base.Int.{ℤ, pos, leb_ℤ}
use palka.Domain.{
  ActionKind, block_internet, shutdown_computer, ActionExecutionState, pending, executing,
  completed, failed, missed,
}

abbrev pub deadline_is_due : ℤ → Bool
deadline_is_due remaining = leb_ℤ remaining (pos 0)

-- `matches!(state, …)`
abbrev pub is_pending : ActionExecutionState → Bool
is_pending ActionExecutionState.pending = true
is_pending _ = false

abbrev pub is_executing : ActionExecutionState → Bool
is_executing ActionExecutionState.executing = true
is_executing _ = false

unfoldable pub runtime_deadline_transition : ActionExecutionState → ℤ → Option ActionExecutionState
runtime_deadline_transition current remaining =
    if deadline_is_due remaining && is_pending current then some executing else none

unfoldable pub execution_success_transition : ActionExecutionState → Option ActionExecutionState
execution_success_transition current = if is_executing current then some completed else none

unfoldable pub execution_failure_transition :
    ActionExecutionState → String → Option ActionExecutionState
execution_failure_transition current reason =
    if is_executing current then some (ActionExecutionState.failed reason) else none

overdue : ActionKind → ActionExecutionState → Option ActionExecutionState
overdue block_internet ActionExecutionState.pending = some executing
overdue block_internet _ = none
overdue shutdown_computer ActionExecutionState.pending = some missed
overdue shutdown_computer ActionExecutionState.executing = some missed
overdue shutdown_computer (ActionExecutionState.failed reason) = some missed
overdue shutdown_computer ActionExecutionState.completed = none
overdue shutdown_computer ActionExecutionState.missed = none

unfoldable pub recovery_overdue_transition :
    ActionKind → ActionExecutionState → ℤ → Option ActionExecutionState
unfolding overdue
recovery_overdue_transition kind current remaining =
    if not (deadline_is_due remaining) then none else overdue kind current

unfoldable pub action_state_is_terminal : ActionExecutionState → Bool
action_state_is_terminal ActionExecutionState.completed = true
action_state_is_terminal ActionExecutionState.missed = true
action_state_is_terminal _ = false

unfoldable pub shutdown_cancel_allowed : ℤ → Bool
shutdown_cancel_allowed remaining = not (deadline_is_due remaining)
