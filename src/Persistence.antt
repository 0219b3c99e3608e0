-- ===== src/Persistence.antt =====
-- crates/service/src/persistence.rs and state_store.rs: the durable state, and the errors of
-- its store.
pub mod Hex
pub mod Seen
pub mod Stored
pub mod Codec
use palka.Base.{ℕ, ◌≡◌, Bool, Option, List, String}
use palka.Domain.{
  ScheduledAction, DesiredInternetState, ChatMessage, TimerId, WarningThreshold, bytes_eq,
  bytes_eq_sound, bytes_eq_refl,
}

pub record OutboxEntryId : Type 0 where
  pub bytes : List ℕ

unfoldable pub outbox_id_eq : OutboxEntryId → OutboxEntryId → Bool
outbox_id_eq a b = bytes_eq a.bytes b.bytes

pub outbox_id_eq_sound : (a b : OutboxEntryId) → outbox_id_eq a b ≡ Bool.true → a ≡ b
unfolding outbox_id_eq
outbox_id_eq_sound a b h = cc (bytes_eq_sound a.bytes b.bytes h)

pub outbox_id_eq_refl : (a : OutboxEntryId) → outbox_id_eq a a ≡ Bool.true
unfolding outbox_id_eq
outbox_id_eq_refl a = bytes_eq_refl a.bytes

pub record InternetRetry : Type 0 where
  pub attempt_count : ℕ  -- u32
  pub last_error : Option String

pub data TelegramPayload : Type 0 where
  chat : ChatMessage → TelegramPayload
  service_notification : String → TelegramPayload

pub record TelegramOutboxEntry : Type 0 where
  pub entry_id : OutboxEntryId
  pub payload : TelegramPayload
  pub attempt_count : ℕ  -- u32
  pub last_error : Option String

pub record PersistentState : Type 0 where
  pub desired_internet_state : DesiredInternetState
  pub active_actions : List ScheduledAction
  pub internet_retry : Option InternetRetry
  pub telegram_outbox : List TelegramOutboxEntry

-- Fields and reasons that the source fixes by `&'static str` are texts.
pub data PersistenceError : Type 0 where
  json : String → PersistenceError
  unsupported_schema_version : ℕ → PersistenceError
  invalid_id : String → String → String → PersistenceError
  duplicate_timer_id : TimerId → PersistenceError
  duplicate_outbox_entry_id : OutboxEntryId → PersistenceError
  duplicate_warning_threshold : TimerId → WarningThreshold → PersistenceError
  validation : String → PersistenceError

-- Paths, I/O errors and publication errors are the texts that the platform displays for them.
pub data StateStoreError : Type 0 where
  missing_canonical invalid_path io publish : String → StateStoreError
  codec : PersistenceError → StateStoreError
