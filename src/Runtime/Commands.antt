-- ===== src/Runtime/Commands.antt =====
-- crates/service/src/runtime.rs: the construction of the coordinator, the dispatch of the commands,
-- the subscriptions and the stop.
pub mod Stopping
use palka.Base.{
  ℕ, suc, ◌+◌, ◌^◌, ◌≡◌, refl, Bool, true, false, not, ◌||◌, Option, none, some, List, [], ◌∷◌,
  String, Result, ok, err, if◌then◌else◌, ltb, ◌==◌, length, any, is_some,
}
use palka.Domain.{TimerId, InternetState, ShutdownState, idle, degraded, StatusSnapshot, MessageId}
use palka.Persistence.{PersistentState, StateStoreError}
use palka.Runtime.State.{
  Coordinator, Ports, ServiceRuntimeError, teardown_persistence, stopping,
  subscription_id_exhausted, SubscriptionId, EventSubscription, TimerCancellationResult,
  StartupReadiness, RuntimeCommand, schedule_action, cancel_exact_timer, immediate_internet_block,
  restore_internet, ack_telegram, query_status, subscribe_events, unsubscribe_events,
  send_child_message, publish_parent_message, tick, stop,
}
use palka.Runtime.Action.{
  when◌then◌else◌, Action, pure, raise, lift, gets, modify, try, map_err, ignore, ◌>>=◌, ◌>>◌,
}
use palka.Runtime.Ports.{reply_taken}
use palka.Runtime.Health.{build_status_snapshot}
use palka.Runtime.Events.{
  checked_prospective_active_session_count, remove_subscribers, reconcile_subscriber_registry,
}
use palka.Runtime.Commit.{flush_pending_durable_candidate}
use palka.Runtime.Timers.{handle_schedule_action, handle_cancel_exact_timer}
use palka.Runtime.Internet.{handle_immediate_block, handle_restore_internet}
use palka.Runtime.Messages.{
  handle_ack_telegram, handle_send_child_message, handle_publish_parent_message,
}
use palka.Runtime.Clock.{process_clock_and_events}
use palka.Runtime.Recovery.{perform_startup_recovery}

-- The state before the recovery, from the ports, the configured child and the loaded state;
-- `monotonic_start` is the first reading of the clock.
unfoldable pub initial : Ports → String → PersistentState → Coordinator
initial ports child_sid state = record {
  ports = ports;
  child_sid = child_sid;
  state = state;
  observed_internet_state = InternetState.unknown;
  shutdown_state = idle;
  health = record {
    status = degraded;
    uptime_seconds = 0;
    internet_gate_healthy = true;
    persistence_healthy = true;
    telegram_connected = false;
    active_tray_sessions = 0;
    last_error = none;
  };
  monotonic_timers = [];
  next_retry_at = none;
  is_stopping = false;
  monotonic_start = ports.monotonic_now 0;
  pending_durable_candidate = none;
  persistence_error = none;
  internet_gate_error = none;
  power_error = none;
  retry_policy_error = none;
  subscribers = [];
  next_subscription_id = some 1;
  calls = 1;
  trace = [];
}

-- `ServiceRuntimeCoordinator::new`
unfoldable pub new :
    Ports → String → PersistentState → Result StartupReadiness ServiceRuntimeError × Coordinator
unfolding initial
new ports child_sid state = perform_startup_recovery (initial ports child_sid state)

-- `checked_add(1)` on `u64`
abbrev pub next_id : ℕ → Option ℕ
next_id n = if ltb (n + 1) (2 ^ 64) then some (n + 1) else none

unfoldable pub register : SubscriptionId → Coordinator → Coordinator
register id c = record c { subscribers = id ∷ c.subscribers; next_subscription_id = next_id id }

-- The subscription goes again, and the count is corrected.
unfoldable pub roll_back : SubscriptionId → Action ServiceRuntimeError (Unit {0})
roll_back id = do
  modify (remove_subscribers (id ∷ []))
  ignore {E = ServiceRuntimeError} (reconcile_subscriber_registry none)

unfoldable pub after_registration :
    SubscriptionId
    → Result (Unit {0}) ServiceRuntimeError
    → Action ServiceRuntimeError EventSubscription
unfolding roll_back
after_registration id (err e) = do roll_back id; raise e
after_registration id (ok _) = do
  snapshot ← build_status_snapshot
  taken ← reply_taken
  when taken then pure tt else roll_back id
  pure (record { subscription_id = id; initial_snapshot = snapshot })

unfoldable pub subscribe_as : Option ℕ → Action ServiceRuntimeError EventSubscription
unfolding register after_registration
subscribe_as none = raise subscription_id_exhausted
subscribe_as (some id) = do
  ids ← gets (λ c. c.subscribers)
  when any (λ x. x == id) ids then raise subscription_id_exhausted else do
    lift (checked_prospective_active_session_count (length ids))
    modify (register id)
    counted ← try (reconcile_subscriber_registry (some id))
    after_registration id counted

unfoldable pub handle_subscribe_events : Action ServiceRuntimeError EventSubscription
unfolding subscribe_as
handle_subscribe_events = do candidate ← gets (λ c. c.next_subscription_id); subscribe_as candidate

unfoldable pub handle_unsubscribe_events : SubscriptionId → Action ServiceRuntimeError Bool
handle_unsubscribe_events id = do
  existed ← gets (λ c. any (λ x. x == id) c.subscribers)
  modify (remove_subscribers (id ∷ []))
  when existed then reconcile_subscriber_registry none else pure tt
  pure existed

-- What the caller is answered.
pub data Reply : Type 0 where
  timer : TimerId → Reply
  cancellation : TimerCancellationResult → Reply
  done : Reply
  answer : Bool → Reply
  status : StatusSnapshot → Reply
  subscribed : EventSubscription → Reply
  message : MessageId → Reply

unfoldable pub flush_on_stop : Action ServiceRuntimeError Reply
flush_on_stop = do map_err teardown_persistence flush_pending_durable_candidate; pure done

unfoldable pub answer_status : Action ServiceRuntimeError Reply
answer_status = do snapshot ← build_status_snapshot; pure (status snapshot)

unfoldable pub begin_stop : Coordinator → Coordinator
begin_stop c = record c {
  is_stopping = true;
  subscribers = [];
  health = record c.health { active_tray_sessions = 0 };
}

-- The commands of a coordinator that is not stopping.
unfoldable pub handle_running : RuntimeCommand → Action ServiceRuntimeError Reply
unfolding flush_on_stop answer_status begin_stop
handle_running (schedule_action kind duration initiator) = do
  id ← handle_schedule_action kind duration initiator
  pure (timer id)
handle_running (cancel_exact_timer id kind initiator) = do
  r ← handle_cancel_exact_timer id kind initiator
  pure (cancellation r)
handle_running (immediate_internet_block initiator) = do handle_immediate_block initiator; pure done
handle_running (restore_internet initiator) = do handle_restore_internet initiator; pure done
handle_running (ack_telegram id) = do r ← handle_ack_telegram id; pure (answer r)
handle_running query_status = answer_status
handle_running subscribe_events = do s ← handle_subscribe_events; pure (subscribed s)
handle_running (unsubscribe_events id) = do r ← handle_unsubscribe_events id; pure (answer r)
handle_running (send_child_message text) = do id ← handle_send_child_message text; pure (message id)
handle_running (publish_parent_message m) = do handle_publish_parent_message m; pure done
handle_running tick = do process_clock_and_events; pure done
handle_running stop = do modify begin_stop; flush_on_stop

unfoldable pub handle_stopping : RuntimeCommand → Action ServiceRuntimeError Reply
unfolding flush_on_stop answer_status
handle_stopping query_status = answer_status
handle_stopping stop = flush_on_stop
handle_stopping tick = pure done
handle_stopping _ = raise stopping

unfoldable pub handle_command : RuntimeCommand → Action ServiceRuntimeError Reply
unfolding handle_running handle_stopping
handle_command cmd c = if c.is_stopping then handle_stopping cmd c else handle_running cmd c

-- What the worker thread does next: a command arrived, or the wake-up time was reached.
pub data Input : Type 0 where
  command : RuntimeCommand → Input
  timeout : Input

unfoldable pub work : Input → Coordinator → Coordinator
work (command cmd) c = (handle_command cmd c).1
work timeout c = (process_clock_and_events {E = ServiceRuntimeError} c).1

-- The worker's loop over the inputs that reach it. In the code it ends with a `Stop`; the runs here
-- include the ones that would go on.
unfoldable pub run : List Input → Coordinator → Coordinator
unfolding work
run [] c = c
run (i ∷ is) c = run is (work i c)
