-- ===== src/Persistence/Codec.antt =====
-- crates/service/src/persistence.rs: between the state and its stored form, and JSON. The
-- conversions of one action and of one entry are in the modules below.
pub mod Actions
pub mod Outbox
pub mod RoundTrip
pub mod Storable
pub mod Written
use palka.Base.{
  ℕ, ◌≡◌, Bool, true, false, not, Option, none, some, List, [], ◌∷◌, String, Result, ok, err,
  map_err, ◌==◌,
}
use palka.Base.Results.{◌>>=◌, ◌>>◌, refuse_if}
use palka.Domain.{
  DesiredInternetState, ThresholdSet, WarningThreshold, TimerId, timer_id_eq, ScheduledAction,
}
use palka.Persistence.{
  PersistentState, PersistenceError, json, unsupported_schema_version, duplicate_timer_id,
  duplicate_outbox_entry_id, InternetRetry, OutboxEntryId, outbox_id_eq, TelegramOutboxEntry,
}
use palka.Persistence.Seen.{collect}
use palka.Persistence.Stored.{
  StateFileV1Dto, DesiredInternetStateDto, InternetRetryDto, state_schema_version_v1,
  ScheduledActionDto, TelegramOutboxEntryDto,
}
use palka.Persistence.Codec.Actions.{timer_id_of_dto, action_of_dto, action_to_dto}
use palka.Persistence.Codec.Outbox.{entry_id_of_dto, entry_of_dto, entry_to_dto}

abbrev pub desired_of_dto : DesiredInternetStateDto → DesiredInternetState
desired_of_dto DesiredInternetStateDto.unrestricted = DesiredInternetState.unrestricted
desired_of_dto DesiredInternetStateDto.blocked = DesiredInternetState.blocked

abbrev pub desired_to_dto : DesiredInternetState → DesiredInternetStateDto
desired_to_dto DesiredInternetState.unrestricted = DesiredInternetStateDto.unrestricted
desired_to_dto DesiredInternetState.blocked = DesiredInternetStateDto.blocked

abbrev pub retry_of_dto : Option InternetRetryDto → Option InternetRetry
retry_of_dto none = none
retry_of_dto (some r) = some (record { attempt_count = r.attempt_count; last_error = r.last_error })

abbrev pub retry_to_dto : Option InternetRetry → Option InternetRetryDto
retry_to_dto none = none
retry_to_dto (some r) = some (record { attempt_count = r.attempt_count; last_error = r.last_error })

abbrev pub actions_of_dto : List ScheduledActionDto → Result (List ScheduledAction) PersistenceError
actions_of_dto = collect timer_id_eq duplicate_timer_id timer_id_of_dto action_of_dto []

abbrev pub outbox_of_dto :
    List TelegramOutboxEntryDto → Result (List TelegramOutboxEntry) PersistenceError
outbox_of_dto = collect outbox_id_eq duplicate_outbox_entry_id entry_id_of_dto entry_of_dto []

-- `TryFrom<StateFileV1Dto> for PersistentState`
unfoldable pub state_of_dto : StateFileV1Dto → Result PersistentState PersistenceError
state_of_dto dto = do
  refuse_if (not (dto.schema_version == state_schema_version_v1))
      (unsupported_schema_version dto.schema_version)
  active_actions ← actions_of_dto dto.active_actions
  telegram_outbox ← outbox_of_dto dto.telegram_outbox
  ok (record {
    desired_internet_state = desired_of_dto dto.desired_internet_state;
    active_actions = active_actions;
    internet_retry = retry_of_dto dto.internet_retry;
    telegram_outbox = telegram_outbox;
  })

-- The order in which a `HashSet` is walked, and how `{:?}` writes a text, are parameters.
module _ (iterate : ThresholdSet → List WarningThreshold) (debug_text : String → String) where
  abbrev pub actions_to_dto :
      List ScheduledAction → Result (List ScheduledActionDto) PersistenceError
  actions_to_dto =
      collect timer_id_eq duplicate_timer_id (λ a. ok a.id) (λ id. action_to_dto iterate) []

  abbrev pub outbox_to_dto :
      List TelegramOutboxEntry → Result (List TelegramOutboxEntryDto) PersistenceError
  outbox_to_dto =
      collect outbox_id_eq duplicate_outbox_entry_id (λ e. ok e.entry_id)
        (λ id. entry_to_dto debug_text) []

  -- `TryFrom<&PersistentState> for StateFileV1Dto`
  unfoldable pub state_to_dto : PersistentState → Result StateFileV1Dto PersistenceError
  state_to_dto state = do
    active_actions ← actions_to_dto state.active_actions
    telegram_outbox ← outbox_to_dto state.telegram_outbox
    ok (record {
      schema_version = state_schema_version_v1;
      desired_internet_state = desired_to_dto state.desired_internet_state;
      active_actions = active_actions;
      internet_retry = retry_to_dto state.internet_retry;
      telegram_outbox = telegram_outbox;
    })

  -- `serde_json` with the derived writers, compact or pretty, into some form `J` of JSON; its errors
  -- are the texts it displays.
  unfoldable pub encode_state_json :
      {J : Type 0}
      → (StateFileV1Dto → Result J String)
      → PersistentState
      → Result J PersistenceError
  encode_state_json to_string state = do dto ← state_to_dto state; map_err json (to_string dto)

-- `serde_json` with the derived readers, from a text or from bytes.
module _ {J : Type 0} (read : J → Result StateFileV1Dto String) where
  unfoldable pub decode_state_json : J → Result PersistentState PersistenceError
  decode_state_json source = do dto ← map_err json (read source); state_of_dto dto
