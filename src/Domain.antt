-- ===== src/Domain.antt =====
-- crates/core/src/lib.rs: the types of the domain. The functions over them are in the modules
-- below. A `HashSet<WarningThreshold>` is one Boolean for each threshold, so two sets with the
-- same members are equal; identifiers are their 16 bytes.
pub mod Thresholds
pub mod Transitions
use palka.Base.{
  ℕ, ◌≡◌, ◌↔◌, refl, Bool, true, false, ◌&&◌, Option, none, some, List, [], ◌∷◌, String, arith,
  ◌==◌, Result,
}
use palka.Base.Int.{ℤ}

-- `i64` milliseconds since the Unix epoch.
pub record UtcDateTime : Type 0 where
  pub millis : ℤ

pub record Deadline : Type 0 where
  pub at : UtcDateTime

pub record TimerId : Type 0 where
  pub bytes : List ℕ

pub record MessageId : Type 0 where
  pub bytes : List ℕ

pub bytes_eq : List ℕ → List ℕ → Bool
bytes_eq [] [] = true
bytes_eq [] (y ∷ ys) = false
bytes_eq (x ∷ xs) [] = false
bytes_eq (x ∷ xs) (y ∷ ys) = x == y && bytes_eq xs ys

pub bytes_eq_sound : (xs ys : List ℕ) → bytes_eq xs ys ≡ true → xs ≡ ys
unfolding bytes_eq
bytes_eq_sound [] [] h = refl
bytes_eq_sound [] (y ∷ ys) h = cc
bytes_eq_sound (x ∷ xs) [] h = cc
bytes_eq_sound (x ∷ xs) (y ∷ ys) h = ground (arith, bytes_eq_sound xs ys)

pub bytes_eq_refl : (xs : List ℕ) → bytes_eq xs xs ≡ true
unfolding bytes_eq
bytes_eq_refl [] = refl
bytes_eq_refl (x ∷ xs) = ground (arith, bytes_eq_refl xs)

unfoldable pub timer_id_eq : TimerId → TimerId → Bool
unfolding bytes_eq
timer_id_eq a b = bytes_eq a.bytes b.bytes

pub timer_id_eq_sound : (a b : TimerId) → timer_id_eq a b ≡ true → a ≡ b
unfolding timer_id_eq
timer_id_eq_sound a b h = cc (bytes_eq_sound a.bytes b.bytes h)

pub timer_id_eq_refl : (a : TimerId) → timer_id_eq a a ≡ true
unfolding timer_id_eq
timer_id_eq_refl a = bytes_eq_refl a.bytes

pub data ActionKind : Type 0 where
  block_internet shutdown_computer : ActionKind

pub data WarningThreshold : Type 0 where
  m60 m30 m20 m10 m3 : WarningThreshold

pub record ThresholdSet : Type 0 where
  pub has_m60 : Bool
  pub has_m30 : Bool
  pub has_m20 : Bool
  pub has_m10 : Bool
  pub has_m3 : Bool

pub data Initiator : Type 0 where
  parent_telegram : ℕ → Initiator
  parent_local_pin : Initiator

pub data ActionExecutionState : Type 0 where
  pending executing completed : ActionExecutionState
  failed : String → ActionExecutionState
  missed : ActionExecutionState

pub record ScheduledAction : Type 0 where
  pub id : TimerId
  pub action_kind : ActionKind
  pub deadline : Deadline
  pub created_at : UtcDateTime
  pub created_by : Initiator
  pub emitted_thresholds : ThresholdSet
  pub execution_state : ActionExecutionState

pub record WarningEvent : Type 0 where
  pub timer_id : TimerId
  pub action_kind : ActionKind
  pub threshold : WarningThreshold
  pub deadline : Deadline
  pub emitted_at : UtcDateTime

pub data DesiredInternetState : Type 0 where
  unrestricted blocked : DesiredInternetState

pub data InternetState : Type 0 where
  unrestricted blocked unknown : InternetState

pub data ShutdownState : Type 0 where
  idle scheduled in_progress : ShutdownState

pub data StateChangeReason : Type 0 where
  timer_expired : TimerId → StateChangeReason
  immediate_command manual_restore : Initiator → StateChangeReason
  startup_restoration platform_sync : StateChangeReason

pub data MessageSender : Type 0 where
  parent child : MessageSender

pub data DeliveryStatus : Type 0 where
  pending accepted_by_service accepted_by_telegram delivered_to_tray : DeliveryStatus
  failed : String → DeliveryStatus

pub record ChatMessage : Type 0 where
  pub id : MessageId
  pub sender : MessageSender
  pub text : String
  pub timestamp : UtcDateTime
  pub delivery_status : DeliveryStatus

pub data HealthStatus : Type 0 where
  healthy degraded critical : HealthStatus

pub record ServiceHealth : Type 0 where
  pub status : HealthStatus
  pub uptime_seconds : ℕ
  pub internet_gate_healthy : Bool
  pub persistence_healthy : Bool
  pub telegram_connected : Bool
  pub active_tray_sessions : ℕ
  pub last_error : Option String

pub record StatusSnapshot : Type 0 where
  pub desired_internet_state : DesiredInternetState
  pub observed_internet_state : InternetState
  pub shutdown_state : ShutdownState
  pub active_actions : List ScheduledAction
  pub health : ServiceHealth
  pub target_child_sid : String
  pub timestamp : UtcDateTime

pub data ServiceLifecycleStage : Type 0 where
  service_started service_ready : ServiceLifecycleStage

pub data Event : Type 0 where
  internet_policy_changed : DesiredInternetState → InternetState → StateChangeReason → Event
  shutdown_state_changed : ShutdownState → ShutdownState → Event
  timer_scheduled : ScheduledAction → Event
  timer_cancelled timer_expired : TimerId → ActionKind → Event
  warning_threshold_reached : WarningEvent → Event
  missed_deadline_occurred : ScheduledAction → String → Event
  chat_message_received : ChatMessage → Event
  pin_authentication_result : Bool → Option ℕ → Event
  service_health_updated : ServiceHealth → Event
  service_lifecycle_event : ServiceLifecycleStage → Event

-- `==` of the enumerations.
abbrev pub action_kind_eq : ActionKind → ActionKind → Bool
action_kind_eq block_internet block_internet = true
action_kind_eq shutdown_computer shutdown_computer = true
action_kind_eq _ _ = false

abbrev pub desired_eq : DesiredInternetState → DesiredInternetState → Bool
desired_eq DesiredInternetState.unrestricted DesiredInternetState.unrestricted = true
desired_eq DesiredInternetState.blocked DesiredInternetState.blocked = true
desired_eq _ _ = false

abbrev pub internet_state_eq : InternetState → InternetState → Bool
internet_state_eq InternetState.unrestricted InternetState.unrestricted = true
internet_state_eq InternetState.blocked InternetState.blocked = true
internet_state_eq unknown unknown = true
internet_state_eq _ _ = false

abbrev pub shutdown_state_eq : ShutdownState → ShutdownState → Bool
shutdown_state_eq idle idle = true
shutdown_state_eq scheduled scheduled = true
shutdown_state_eq in_progress in_progress = true
shutdown_state_eq _ _ = false

abbrev pub health_status_eq : HealthStatus → HealthStatus → Bool
health_status_eq healthy healthy = true
health_status_eq degraded degraded = true
health_status_eq critical critical = true
health_status_eq _ _ = false
