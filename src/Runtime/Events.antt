-- ===== src/Runtime/Events.antt =====
-- crates/service/src/runtime.rs: the subscribers, the broadcast of events to them, and the changes
-- of the health that are broadcast.
pub mod Registry
use palka.Base.{
  ℕ, zero, suc, ◌+◌, ◌^◌, ◌≡◌, refl, Bool, true, false, not, ◌&&◌, ◌||◌, Option, none, some, List,
  [], ◌∷◌, String, Result, ok, err, arith, ltb, ◌==◌, if◌then◌else◌, length, retain, any, is_empty,
  is_some,
}
use palka.Base.Text.{◌<>◌}
use palka.Domain.{
  Event, service_health_updated, shutdown_state_changed, internet_policy_changed, ShutdownState,
  shutdown_state_eq, DesiredInternetState, desired_eq, InternetState, internet_state_eq,
  StateChangeReason,
}
use palka.Persistence.{StateStoreError}
use palka.Runtime.State.{
  Coordinator, ServiceRuntimeError, subscription_capacity_exhausted, SubscriptionId, emits, saved,
}
use palka.Runtime.Action.{
  when◌then◌else◌, Action, pure, raise, gets, modify, note, lift, ignore, ◌>>=◌, ◌>>◌,
}
use palka.Runtime.Ports.{try_send}
use palka.Runtime.Health.{
  recompute_health_status, meaningful_health_signature, signature_eq, derive_shutdown_state,
  build_service_health_snapshot,
}

-- `u32::try_from(len)`
abbrev pub u32_try_from : ℕ → Result ℕ ServiceRuntimeError
u32_try_from n = if ltb n (2 ^ 32) then ok n else err subscription_capacity_exhausted

-- `usize` has 64 bits.
unfoldable pub checked_prospective_active_session_count : ℕ → Result ℕ ServiceRuntimeError
checked_prospective_active_session_count len =
    if ltb (len + 1) (2 ^ 64) then u32_try_from (len + 1) else err subscription_capacity_exhausted

unfoldable pub checked_active_session_count : Coordinator → Result ℕ ServiceRuntimeError
checked_active_session_count c = u32_try_from (length c.subscribers)

unfoldable pub is_id : Option SubscriptionId → SubscriptionId → Bool
is_id none id = false
is_id (some x) id = id == x

abbrev pub removed_from : List SubscriptionId → SubscriptionId → Bool
removed_from failed id = not (any (λ x. x == id) failed)

-- `for id in failed { self.subscribers.remove(&id); }`
unfoldable pub remove_subscribers : List SubscriptionId → Coordinator → Coordinator
remove_subscribers failed c = record c { subscribers = retain (removed_from failed) c.subscribers }

unfoldable pub set_sessions : ℕ → Coordinator → Coordinator
set_sessions n c = record c { health = record c.health { active_tray_sessions = n } }

module _ {E : Type 0} where
  -- The loop over the subscribers, with the identifiers that failed.
  unfoldable pub send_to_each :
      List SubscriptionId → Event → Option SubscriptionId → Action E (List SubscriptionId)
  send_to_each [] event excluded = pure []
  send_to_each (id ∷ ids) event excluded =
      when is_id excluded id then send_to_each ids event excluded else do
        sent ← try_send id event
        failed ← send_to_each ids event excluded
        pure (if sent then failed else id ∷ failed)

  unfoldable pub try_send_to_subscribers :
      Event → Option SubscriptionId → Action E (List SubscriptionId)
  try_send_to_subscribers event excluded = do
    ids ← gets (λ c. c.subscribers)
    send_to_each ids event excluded

-- The `loop`, on fuel: each further round has removed a subscriber.
unfoldable pub reconcile_rounds : ℕ → Option SubscriptionId → Action ServiceRuntimeError (Unit {0})
reconcile_rounds zero excluded = pure tt
reconcile_rounds (suc fuel) excluded = do
  counted ← gets checked_active_session_count
  target ← lift counted
  active ← gets (λ c. c.health.active_tray_sessions)
  let rest : Action ServiceRuntimeError (Unit {0}) = reconcile_rounds fuel excluded
  when active == target then pure tt else do
    modify (set_sessions target)
    health ← build_service_health_snapshot
    failed ← try_send_to_subscribers (service_health_updated health) excluded
    when is_empty failed then pure tt else do modify (remove_subscribers failed); rest

unfoldable pub reconcile_subscriber_registry :
    Option SubscriptionId → Action ServiceRuntimeError (Unit {0})
reconcile_subscriber_registry excluded = do
  ids ← gets (λ c. c.subscribers)
  reconcile_rounds (suc (length ids)) excluded

unfoldable pub emit_event : Event → Action ServiceRuntimeError (Unit {0})
emit_event event = do
  note (emits event)
  failed ← try_send_to_subscribers event none
  when is_empty failed
      then pure tt
      else do modify (remove_subscribers failed); reconcile_subscriber_registry none

unfoldable pub sync_shutdown : Coordinator → Coordinator
sync_shutdown c = record c {
  shutdown_state = derive_shutdown_state c.shutdown_state c.state.active_actions;
}

module _ {E : Type 0} where
  unfoldable pub mutate_health_and_maybe_emit : (Coordinator → Coordinator) → Action E (Unit {0})
  mutate_health_and_maybe_emit mutate = do
    before ← gets meaningful_health_signature
    modify mutate
    modify recompute_health_status
    after ← gets meaningful_health_signature
    when signature_eq before after then pure tt else do
      health ← build_service_health_snapshot
      ignore (emit_event (service_health_updated health))

  -- The pair of the previous and the new aggregated state.
  unfoldable pub sync_shutdown_state_local : Action E (ShutdownState × ShutdownState)
  sync_shutdown_state_local = do
    previous ← gets (λ c. c.shutdown_state)
    modify sync_shutdown
    current ← gets (λ c. c.shutdown_state)
    pure (previous, current)

  unfoldable pub maybe_emit_shutdown_state_changed :
      ShutdownState → ShutdownState → Action E (Unit {0})
  maybe_emit_shutdown_state_changed previous current =
      when shutdown_state_eq previous current
      then pure tt
      else ignore (emit_event (shutdown_state_changed previous current))

  unfoldable pub maybe_emit_internet_policy_changed :
      DesiredInternetState → InternetState → StateChangeReason → Action E (Unit {0})
  maybe_emit_internet_policy_changed previous_desired previous_observed reason = do
    desired ← gets (λ c. c.state.desired_internet_state)
    observed ← gets (λ c. c.observed_internet_state)
    when desired_eq previous_desired desired && internet_state_eq previous_observed observed
        then pure tt
        else ignore (emit_event (internet_policy_changed desired observed reason))

  -- The message is made before the change, from the same error.
  unfoldable pub mark_persistence_failure : StateStoreError → Action E (Unit {0})
  mark_persistence_failure e = mutate_health_and_maybe_emit λ c. record c {
    health = record c.health { persistence_healthy = false };
    persistence_error = some ("State store error: " <> c.ports.display_store_error e);
  }

  unfoldable pub mark_persistence_success : Action E (Unit {0})
  mark_persistence_success = mutate_health_and_maybe_emit λ c. record c {
    health = record c.health { persistence_healthy = true };
    persistence_error = none;
  }

  unfoldable pub mark_gate_failure : String → Action E (Unit {0})
  mark_gate_failure message = mutate_health_and_maybe_emit λ c. record c {
    health = record c.health { internet_gate_healthy = false };
    internet_gate_error = some message;
  }

  unfoldable pub mark_gate_success : Action E (Unit {0})
  mark_gate_success = mutate_health_and_maybe_emit λ c. record c {
    health = record c.health { internet_gate_healthy = true };
    internet_gate_error = none;
  }
