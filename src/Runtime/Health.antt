-- ===== src/Runtime/Health.antt =====
-- crates/service/src/runtime.rs: the health of the service, the aggregated shutdown state, and the
-- snapshots built from them.
use palka.Base.{
  ℕ, ◌-◌, ◌/◌, Bool, true, false, not, ◌&&◌, ◌||◌, Option, none, some, String, List, str_eq,
  is_some, any, if◌then◌else◌, ◌==◌,
}
use palka.Domain.{
  ServiceHealth, HealthStatus, healthy, degraded, critical, health_status_eq, ScheduledAction,
  ShutdownState, idle, scheduled, in_progress, shutdown_state_eq, shutdown_computer, action_kind_eq,
  StatusSnapshot,
}
use palka.Domain.Transitions.{is_pending, is_executing}
use palka.Runtime.State.{Coordinator}
use palka.Runtime.Action.{Action, pure, gets, ◌>>=◌}
use palka.Runtime.Ports.{utc_now, monotonic_now}

-- `a.or(b)` of the ladder over the stored errors.
abbrev pub or_else {ℓ} : {A : Type ℓ} → Option A → Option A → Option A
or_else (some a) o = some a
or_else none o = o

unfoldable pub recompute_health_status : Coordinator → Coordinator
recompute_health_status c = record c {
  health = record c.health {
    status =
        if not c.health.persistence_healthy
        then critical
        else if not c.health.internet_gate_healthy
            || not c.health.telegram_connected
            || is_some c.power_error
            || is_some c.retry_policy_error
        then degraded
        else healthy;
    last_error =
        or_else c.persistence_error
          (or_else c.retry_policy_error (or_else c.power_error c.internet_gate_error));
  };
}

pub record MeaningfulHealthSignature : Type 0 where
  pub status : HealthStatus
  pub internet_gate_healthy : Bool
  pub persistence_healthy : Bool
  pub telegram_connected : Bool
  pub active_tray_sessions : ℕ
  pub last_error : Option String

unfoldable pub meaningful_health_signature : Coordinator → MeaningfulHealthSignature
meaningful_health_signature c = record {
  status = c.health.status;
  internet_gate_healthy = c.health.internet_gate_healthy;
  persistence_healthy = c.health.persistence_healthy;
  telegram_connected = c.health.telegram_connected;
  active_tray_sessions = c.health.active_tray_sessions;
  last_error = c.health.last_error;
}

abbrev pub bool_eq : Bool → Bool → Bool
bool_eq true b = b
bool_eq false b = not b

abbrev pub text_eq : Option String → Option String → Bool
text_eq none none = true
text_eq none (some t) = false
text_eq (some s) none = false
text_eq (some s) (some t) = str_eq s t

unfoldable pub signature_eq : MeaningfulHealthSignature → MeaningfulHealthSignature → Bool
signature_eq a b =
    health_status_eq a.status b.status
    && bool_eq a.internet_gate_healthy b.internet_gate_healthy
    && bool_eq a.persistence_healthy b.persistence_healthy
    && bool_eq a.telegram_connected b.telegram_connected
    && a.active_tray_sessions == b.active_tray_sessions
    && text_eq a.last_error b.last_error

-- A pending or executing shutdown.
abbrev pub awaits_shutdown : ScheduledAction → Bool
awaits_shutdown a =
    action_kind_eq a.action_kind shutdown_computer
    && (is_pending a.execution_state || is_executing a.execution_state)

unfoldable pub derive_shutdown_state : ShutdownState → List ScheduledAction → ShutdownState
derive_shutdown_state current actions =
    if shutdown_state_eq current in_progress
    then in_progress
    else if any awaits_shutdown actions
    then scheduled
    else idle

module _ {E : Type 0} where
  unfoldable pub build_service_health_snapshot : Action E ServiceHealth
  build_service_health_snapshot = do
    now ← monotonic_now
    start ← gets (λ c. c.monotonic_start)
    health ← gets (λ c. c.health)
    pure (record health { uptime_seconds = (now - start) / 1000000000; telegram_connected = false })

  unfoldable pub build_status_snapshot : Action E StatusSnapshot
  build_status_snapshot = do
    health ← build_service_health_snapshot
    now ← utc_now
    gets λ c. record {
      desired_internet_state = c.state.desired_internet_state;
      observed_internet_state = c.observed_internet_state;
      shutdown_state = c.shutdown_state;
      active_actions = c.state.active_actions;
      health = health;
      target_child_sid = c.child_sid;
      timestamp = now;
    }
