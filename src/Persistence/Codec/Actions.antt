-- ===== src/Persistence/Codec/Actions.antt =====
-- crates/service/src/persistence.rs: the stored form of one scheduled action.
use palka.Base.{List, [], ◌∷◌, String, Result, ok, err}
use palka.Base.Results.{◌>>=◌, ◌>>◌, refuse_if}
use palka.Base.Text.{◌<>◌}
use palka.Domain.{
  ActionKind, Initiator, WarningThreshold, ThresholdSet, ActionExecutionState, ScheduledAction,
  TimerId,
}
use palka.Domain.Thresholds.{empty, contains, insert}
use palka.Persistence.{PersistenceError, validation, duplicate_warning_threshold}
use palka.Persistence.Hex.{format_128bit_id_hex, parse_128bit_id_hex}
use palka.Persistence.Stored.{
  ActionKindDto, InitiatorDto, WarningThresholdDto, ActionExecutionStateDto, ScheduledActionDto,
}

abbrev pub kind_of_dto : ActionKindDto → ActionKind
kind_of_dto ActionKindDto.block_internet = ActionKind.block_internet
kind_of_dto ActionKindDto.shutdown_computer = ActionKind.shutdown_computer

abbrev pub kind_to_dto : ActionKind → ActionKindDto
kind_to_dto ActionKind.block_internet = ActionKindDto.block_internet
kind_to_dto ActionKind.shutdown_computer = ActionKindDto.shutdown_computer

abbrev pub initiator_of_dto : InitiatorDto → Initiator
initiator_of_dto (InitiatorDto.parent_telegram user_id) = Initiator.parent_telegram user_id
initiator_of_dto InitiatorDto.parent_local_pin = Initiator.parent_local_pin

abbrev pub initiator_to_dto : Initiator → InitiatorDto
initiator_to_dto (Initiator.parent_telegram user_id) = InitiatorDto.parent_telegram user_id
initiator_to_dto Initiator.parent_local_pin = InitiatorDto.parent_local_pin

abbrev pub threshold_of_dto : WarningThresholdDto → WarningThreshold
threshold_of_dto WarningThresholdDto.m60 = WarningThreshold.m60
threshold_of_dto WarningThresholdDto.m30 = WarningThreshold.m30
threshold_of_dto WarningThresholdDto.m20 = WarningThreshold.m20
threshold_of_dto WarningThresholdDto.m10 = WarningThreshold.m10
threshold_of_dto WarningThresholdDto.m3 = WarningThreshold.m3

abbrev pub threshold_to_dto : WarningThreshold → WarningThresholdDto
threshold_to_dto WarningThreshold.m60 = WarningThresholdDto.m60
threshold_to_dto WarningThreshold.m30 = WarningThresholdDto.m30
threshold_to_dto WarningThreshold.m20 = WarningThresholdDto.m20
threshold_to_dto WarningThreshold.m10 = WarningThresholdDto.m10
threshold_to_dto WarningThreshold.m3 = WarningThresholdDto.m3

-- The set of the thresholds seen so far is the result.
unfoldable pub thresholds_of_dto :
    TimerId → ThresholdSet → List WarningThresholdDto → Result ThresholdSet PersistenceError
thresholds_of_dto id seen [] = ok seen
thresholds_of_dto id seen (d ∷ ds) = do
  refuse_if (contains seen (threshold_of_dto d))
      (duplicate_warning_threshold id (threshold_of_dto d))
  thresholds_of_dto id (insert seen (threshold_of_dto d)) ds

unfoldable pub thresholds_to_dto :
    TimerId
    → ThresholdSet
    → List WarningThreshold
    → Result (List WarningThresholdDto) PersistenceError
thresholds_to_dto id seen [] = ok []
thresholds_to_dto id seen (t ∷ ts) = do
  refuse_if (contains seen t) (duplicate_warning_threshold id t)
  rest ← thresholds_to_dto id (insert seen t) ts
  ok (threshold_to_dto t ∷ rest)

abbrev pub execution_of_dto : ActionExecutionStateDto → ActionExecutionState
execution_of_dto ActionExecutionStateDto.pending = ActionExecutionState.pending
execution_of_dto ActionExecutionStateDto.executing = ActionExecutionState.executing
execution_of_dto (ActionExecutionStateDto.failed reason) = ActionExecutionState.failed reason

prohibited : String → TimerId → PersistenceError
prohibited name id = validation (
    "Terminal state "
    <> name
    <> " is prohibited in active_actions for action "
    <> format_128bit_id_hex id.bytes)

unfoldable pub execution_to_dto :
    TimerId → ActionExecutionState → Result ActionExecutionStateDto PersistenceError
unfolding prohibited
execution_to_dto id ActionExecutionState.pending = ok ActionExecutionStateDto.pending
execution_to_dto id ActionExecutionState.executing = ok ActionExecutionStateDto.executing
execution_to_dto id (ActionExecutionState.failed reason) =
    ok (ActionExecutionStateDto.failed reason)
execution_to_dto id ActionExecutionState.completed = err (prohibited "Completed" id)
execution_to_dto id ActionExecutionState.missed = err (prohibited "Missed" id)

abbrev pub timer_id_of_dto : ScheduledActionDto → Result TimerId PersistenceError
timer_id_of_dto d = do bytes ← parse_128bit_id_hex "id" d.id; ok (record { bytes = bytes })

-- The body of the loop over the actions, past the test of the identifier.
abbrev pub action_of_dto : TimerId → ScheduledActionDto → Result ScheduledAction PersistenceError
action_of_dto id d = do
  emitted_thresholds ← thresholds_of_dto id empty d.emitted_thresholds
  ok (record {
    id = id;
    action_kind = kind_of_dto d.action_kind;
    deadline = record { at = record { millis = d.deadline } };
    created_at = record { millis = d.created_at };
    created_by = initiator_of_dto d.created_by;
    emitted_thresholds = emitted_thresholds;
    execution_state = execution_of_dto d.execution_state;
  })

module _ (iterate : ThresholdSet → List WarningThreshold) where
  abbrev pub action_to_dto : ScheduledAction → Result ScheduledActionDto PersistenceError
  action_to_dto a = do
    emitted_thresholds ← thresholds_to_dto a.id empty (iterate a.emitted_thresholds)
    execution_state ← execution_to_dto a.id a.execution_state
    ok (record {
      id = format_128bit_id_hex a.id.bytes;
      action_kind = kind_to_dto a.action_kind;
      deadline = a.deadline.at.millis;
      created_at = a.created_at.millis;
      created_by = initiator_to_dto a.created_by;
      emitted_thresholds = emitted_thresholds;
      execution_state = execution_state;
    })
