-- ===== src/Persistence/Stored.antt =====
-- crates/service/src/persistence.rs: the stored form of the state, schema version 1. Its derived
-- JSON reader and writer are parameters of `Codec`.
use palka.Base.{ℕ, Option, List, String}
use palka.Base.Int.{ℤ}

abbrev pub state_schema_version_v1 : ℕ
state_schema_version_v1 = 1

pub data DesiredInternetStateDto : Type 0 where
  unrestricted blocked : DesiredInternetStateDto

pub data ActionKindDto : Type 0 where
  block_internet shutdown_computer : ActionKindDto

pub data InitiatorDto : Type 0 where
  parent_telegram : ℕ → InitiatorDto  -- u64
  parent_local_pin : InitiatorDto

pub data WarningThresholdDto : Type 0 where
  m60 m30 m20 m10 m3 : WarningThresholdDto

pub data ActionExecutionStateDto : Type 0 where
  pending executing : ActionExecutionStateDto
  failed : String → ActionExecutionStateDto

pub record ScheduledActionDto : Type 0 where
  pub id : String
  pub action_kind : ActionKindDto
  pub deadline : ℤ  -- i64
  pub created_at : ℤ  -- i64
  pub created_by : InitiatorDto
  pub emitted_thresholds : List WarningThresholdDto
  pub execution_state : ActionExecutionStateDto

pub record InternetRetryDto : Type 0 where
  pub attempt_count : ℕ  -- u32
  pub last_error : Option String

pub data MessageSenderDto : Type 0 where
  child : MessageSenderDto

pub data DeliveryStatusDto : Type 0 where
  accepted_by_service : DeliveryStatusDto

pub record ChatMessageDto : Type 0 where
  pub id : String
  pub sender : MessageSenderDto
  pub text : String
  pub timestamp : ℤ  -- i64
  pub delivery_status : DeliveryStatusDto

pub data TelegramPayloadDto : Type 0 where
  chat : ChatMessageDto → TelegramPayloadDto
  service_notification : String → TelegramPayloadDto

pub record TelegramOutboxEntryDto : Type 0 where
  pub entry_id : String
  pub payload : TelegramPayloadDto
  pub attempt_count : ℕ  -- u32
  pub last_error : Option String

pub record StateFileV1Dto : Type 0 where
  pub schema_version : ℕ  -- u32
  pub desired_internet_state : DesiredInternetStateDto
  pub active_actions : List ScheduledActionDto
  pub internet_retry : Option InternetRetryDto
  pub telegram_outbox : List TelegramOutboxEntryDto
