-- ===== src/Runtime/Candidates.antt =====
-- crates/service/src/runtime.rs: how the handlers build candidate states, and their texts.
use palka.Base.{
  ℕ, ◌+◌, ◌%◌, ◌^◌, not, Option, none, some, List, [], ◌∷◌, ◌++◌, String, if◌then◌else◌, retain,
}
use palka.Base.Text.{◌<>◌, show_ℕ, show_list}
use palka.Domain.{
  ActionKind, block_internet, shutdown_computer, ScheduledAction, ActionExecutionState, TimerId,
  timer_id_eq, DesiredInternetState, InternetState, WarningThreshold,
}
use palka.Domain.Thresholds.{insert_all}
use palka.Persistence.{
  PersistentState, InternetRetry, TelegramOutboxEntry, service_notification, OutboxEntryId,
}

-- `{:?}` of the enumerations.
abbrev pub debug_kind : ActionKind → String
debug_kind block_internet = "BlockInternet"
debug_kind shutdown_computer = "ShutdownComputer"

abbrev pub debug_internet : InternetState → String
debug_internet InternetState.unrestricted = "Unrestricted"
debug_internet InternetState.blocked = "Blocked"
debug_internet InternetState.unknown = "Unknown"

abbrev pub debug_desired : DesiredInternetState → String
debug_desired DesiredInternetState.unrestricted = "Unrestricted"
debug_desired DesiredInternetState.blocked = "Blocked"

-- `debug_str` is the `{:?}` of a text.
abbrev pub debug_execution : (String → String) → ActionExecutionState → String
debug_execution debug_str ActionExecutionState.pending = "Pending"
debug_execution debug_str ActionExecutionState.executing = "Executing"
debug_execution debug_str ActionExecutionState.completed = "Completed"
debug_execution debug_str (ActionExecutionState.failed reason) =
    "Failed { reason: " <> debug_str reason <> " }"
debug_execution debug_str ActionExecutionState.missed = "Missed"

abbrev pub debug_timer_id : TimerId → String
debug_timer_id id = "TimerId([" <> show_list id.bytes <> "])"

abbrev pub warning_text : ActionKind → ℕ → String
warning_text kind seconds =
    "Warning: Action " <> debug_kind kind <> " has " <> show_ℕ seconds <> " seconds remaining"

-- A new entry of the outbox.
abbrev pub notification : OutboxEntryId → String → TelegramOutboxEntry
notification entry_id text = record {
  entry_id = entry_id;
  payload = service_notification text;
  attempt_count = 0;
  last_error = none;
}

-- `active_actions.iter().find(|a| a.id == id)`
unfoldable pub find_action : TimerId → List ScheduledAction → Option ScheduledAction
find_action id [] = none
find_action id (a ∷ rest) = if timer_id_eq a.id id then some a else find_action id rest

-- `if let Some(a) = active_actions.iter_mut().find(|a| a.id == id) { *a = f(a); }`
unfoldable pub update_action :
    TimerId → (ScheduledAction → ScheduledAction) → List ScheduledAction → List ScheduledAction
update_action id f [] = []
update_action id f (a ∷ rest) =
    let updated = update_action id f rest in if timer_id_eq a.id id then f a ∷ rest else a ∷ updated

-- `active_actions.retain(|a| a.id != id)`
unfoldable pub without_action : TimerId → List ScheduledAction → List ScheduledAction
without_action id = retain (λ a. not (timer_id_eq a.id id))

abbrev pub with_execution : ActionExecutionState → ScheduledAction → ScheduledAction
with_execution s a = record a { execution_state = s }

abbrev pub with_emitted : List WarningThreshold → ScheduledAction → ScheduledAction
with_emitted ts a = record a { emitted_thresholds = insert_all ts a.emitted_thresholds }

-- `u32` arithmetic: `attempt_count + 1`, or 1 at the first attempt.
abbrev pub next_attempt : Option InternetRetry → ℕ
next_attempt none = 1
next_attempt (some r) = (r.attempt_count + 1) % 2 ^ 32

-- The retry metadata after a failure, and a notification of it.
abbrev pub with_retry : ℕ → String → OutboxEntryId → String → PersistentState → PersistentState
with_retry attempt message entry_id text s = record s {
  internet_retry = some (record { attempt_count = attempt; last_error = some message });
  telegram_outbox = s.telegram_outbox ++ notification entry_id text ∷ [];
}

abbrev pub clear_retry : PersistentState → PersistentState
clear_retry s = record s { internet_retry = none }

-- The maps of the coordinator: `get`, `insert` and `remove`.
module _ {V : Type 0} where
  unfoldable pub lookup : TimerId → List (TimerId × V) → Option V
  lookup id [] = none
  lookup id ((k, v) ∷ m) = if timer_id_eq k id then some v else lookup id m

  unfoldable pub insert : TimerId → V → List (TimerId × V) → List (TimerId × V)
  insert id v [] = (id, v) ∷ []
  insert id v ((k, w) ∷ m) =
      let rest = insert id v m in if timer_id_eq k id then (id, v) ∷ m else (k, w) ∷ rest

  unfoldable pub remove : TimerId → List (TimerId × V) → List (TimerId × V)
  remove id = retain (λ e. not (timer_id_eq e.0 id))

  unfoldable pub keys : List (TimerId × V) → List TimerId
  keys [] = []
  keys ((k, v) ∷ m) = k ∷ keys m
