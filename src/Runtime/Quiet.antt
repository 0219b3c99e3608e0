-- ===== src/Runtime/Quiet.antt =====
-- The actions that only concern the health, the subscribers and the timers keep every predicate
-- that does not depend on those.
pub mod Handlers
pub mod Total
use palka.Base.{
  ℕ, zero, suc, ◌≡◌, Bool, true, false, Option, none, some, List, [], ◌∷◌, String, Result, ok, err,
  length,
}
use palka.Domain.{
  ServiceHealth, InternetState, ShutdownState, Event, DesiredInternetState, StateChangeReason,
  WarningThreshold, TimerId, ActionKind, block_internet, shutdown_computer, Deadline, UtcDateTime,
  ScheduledAction,
}
use palka.Persistence.{StateStoreError}
use palka.Runtime.State.{
  Coordinator, Ports, Effect, emits, SubscriptionId, MonotonicTimerAnchor, Instant,
  ServiceRuntimeError, PlatformError,
}
use palka.Runtime.Action.{
  Action, pure, raise, lift, gets, call, modify, note, ◌>>=◌, ◌>>◌, try, map_err, ignore,
}
use palka.Runtime.Action.Keeps.{
  Keeps, keeps_rules, Keeps-pure, Keeps-if, Keeps-bind, Keeps-lift, Keeps-gets, Keeps-ignore,
}
use palka.Runtime.Ports.{
  utc_now, monotonic_now, next_timer_id, next_outbox_id, delay_for_attempt, is_stop_requested,
  try_send, reply_taken,
}
use palka.Runtime.Health.{
  recompute_health_status, build_service_health_snapshot, build_status_snapshot,
}
use palka.Runtime.Events.{
  set_sessions, remove_subscribers, send_to_each, try_send_to_subscribers, reconcile_rounds,
  reconcile_subscriber_registry, emit_event, mutate_health_and_maybe_emit, sync_shutdown,
  sync_shutdown_state_local, maybe_emit_shutdown_state_changed, maybe_emit_internet_policy_changed,
  mark_persistence_failure, mark_persistence_success, mark_gate_failure, mark_gate_success,
  checked_active_session_count,
}
use palka.Runtime.Timers.{emit_warnings, sync_if_shutdown, due_notifications}
use palka.Runtime.Internet.{observe, schedule_next_internet_retry}

-- What such an action may change.
pub record Quiet (P : Coordinator → Type 0) : Type 0 where
  pub calls : (c : Coordinator) (n : ℕ) → P c → P (record c { calls = n })
  pub emitted : (c : Coordinator) (e : Event) → P c → P (record c { trace = emits e ∷ c.trace })
  pub health : (c : Coordinator) (h : ServiceHealth) → P c → P (record c { health = h })
  pub subscribers :
      (c : Coordinator) (l : List SubscriptionId) → P c → P (record c { subscribers = l })
  pub errors :
      (c : Coordinator) (p g w r : Option String)
      → P c
      → P (record c {
        persistence_error = p;
        internet_gate_error = g;
        power_error = w;
        retry_policy_error = r;
      })
  pub shutdown : (c : Coordinator) (s : ShutdownState) → P c → P (record c { shutdown_state = s })
  pub retry : (c : Coordinator) (t : Option Instant) → P c → P (record c { next_retry_at = t })
  pub timers :
      (c : Coordinator) (m : List (TimerId × MonotonicTimerAnchor))
      → P c
      → P (record c { monotonic_timers = m })

module _ {P : Coordinator → Type 0} (q : Quiet P) where
  module _ {E A : Type 0} where
    pub Keeps-call : (f : Ports → ℕ → A) → Keeps P (call {E = E} f)
    unfolding call
    Keeps-call f = record { at = λ c h. q.calls c (suc c.calls) h }

  module _ {E : Type 0} where
    pub Keeps-modify :
        (f : Coordinator → Coordinator)
        → ((c : Coordinator) → P c → P (f c))
        → Keeps P (modify {E = E} f)
    unfolding modify
    Keeps-modify f h = record { at = λ c p. h c p }

    pub Keeps-emits : (e : Event) → Keeps P (note {E = E} (emits e))
    unfolding note
    Keeps-emits e = record { at = λ c h. q.emitted c e h }

    pub Keeps-monotonic_now : Keeps P (monotonic_now {E = E})
    unfolding monotonic_now
    Keeps-monotonic_now = Keeps-call _

    pub Keeps-utc_now : Keeps P (utc_now {E = E})
    unfolding utc_now
    Keeps-utc_now = Keeps-call _

    pub Keeps-next_timer_id : Keeps P (next_timer_id {E = E})
    unfolding next_timer_id
    Keeps-next_timer_id = Keeps-call _

    pub Keeps-next_outbox_id : Keeps P (next_outbox_id {E = E})
    unfolding next_outbox_id
    Keeps-next_outbox_id = Keeps-call _

    pub Keeps-delay_for_attempt : (n : ℕ) → Keeps P (delay_for_attempt {E = E} n)
    unfolding delay_for_attempt
    Keeps-delay_for_attempt n = Keeps-call _

    pub Keeps-is_stop_requested : Keeps P (is_stop_requested {E = E})
    unfolding is_stop_requested
    Keeps-is_stop_requested = Keeps-call _

    pub Keeps-try_send : (id : SubscriptionId) (e : Event) → Keeps P (try_send {E = E} id e)
    unfolding try_send
    Keeps-try_send id e = Keeps-call _

    pub Keeps-reply_taken : Keeps P (reply_taken {E = E})
    unfolding reply_taken
    Keeps-reply_taken = Keeps-call _

    pub Keeps-build_service_health_snapshot : Keeps P (build_service_health_snapshot {E = E})
    unfolding build_service_health_snapshot
    Keeps-build_service_health_snapshot = search (keeps_rules, Keeps-monotonic_now)

    pub Keeps-build_status_snapshot : Keeps P (build_status_snapshot {E = E})
    unfolding build_status_snapshot
    Keeps-build_status_snapshot =
        search (keeps_rules, Keeps-build_service_health_snapshot, Keeps-utc_now)

  ruleset port_rules = (
    keeps_rules, Keeps-monotonic_now, Keeps-utc_now, Keeps-next_timer_id, Keeps-next_outbox_id,
    Keeps-delay_for_attempt, Keeps-is_stop_requested, Keeps-reply_taken, Keeps-emits,
    Keeps-build_service_health_snapshot, Keeps-build_status_snapshot,
  )

  module _ {E : Type 0} where
    pub Keeps-send_to_each :
        (ids : List SubscriptionId) (e : Event) (x : Option SubscriptionId)
        → Keeps P (send_to_each {E = E} ids e x)
    unfolding send_to_each
    Keeps-send_to_each [] e x = search keeps_rules
    Keeps-send_to_each (id ∷ ids) e x =
        Keeps-if _ _ _ (λ _. Keeps-send_to_each ids e x)
          λ _.
            Keeps-bind _ _ (Keeps-try_send id e)
              λ sent. Keeps-bind _ _ (Keeps-send_to_each ids e x) λ failed. Keeps-pure _

    pub Keeps-try_send_to_subscribers :
        (e : Event) (x : Option SubscriptionId) → Keeps P (try_send_to_subscribers {E = E} e x)
    unfolding try_send_to_subscribers
    Keeps-try_send_to_subscribers e x = search (keeps_rules, Keeps-send_to_each)

    pub Keeps-remove_subscribers :
        (l : List SubscriptionId) → Keeps P (modify {E = E} (remove_subscribers l))
    unfolding remove_subscribers
    Keeps-remove_subscribers l = Keeps-modify _ (λ c h. q.subscribers c _ h)

  Keeps-set_sessions : (n : ℕ) → Keeps P (modify {E = ServiceRuntimeError} (set_sessions n))
  unfolding set_sessions
  Keeps-set_sessions n = Keeps-modify _ (λ c h. q.health c _ h)

  Keeps-reconcile_rounds : (n : ℕ) (x : Option SubscriptionId) → Keeps P (reconcile_rounds n x)
  unfolding reconcile_rounds
  Keeps-reconcile_rounds zero x = search keeps_rules
  Keeps-reconcile_rounds (suc n) x = Keeps-bind _ _ (Keeps-gets _) λ counted.
      Keeps-bind _ _ (Keeps-lift counted) λ target. Keeps-bind _ _ (Keeps-gets _) λ active.
        Keeps-if _ _ _ (λ _. Keeps-pure tt)
          λ _. Keeps-bind _ _ (Keeps-set_sessions target) λ _.
            Keeps-bind _ _ Keeps-build_service_health_snapshot λ health.
              Keeps-bind _ _ (Keeps-try_send_to_subscribers _ x) λ failed.
                Keeps-if _ _ _ (λ _. Keeps-pure tt)
                  λ _.
                    Keeps-bind _ _ (Keeps-remove_subscribers failed) λ _. Keeps-reconcile_rounds n x

  pub Keeps-reconcile_subscriber_registry :
      (x : Option SubscriptionId) → Keeps P (reconcile_subscriber_registry x)
  unfolding reconcile_subscriber_registry
  Keeps-reconcile_subscriber_registry x = search (keeps_rules, Keeps-reconcile_rounds)

  pub Keeps-emit_event : (e : Event) → Keeps P (emit_event e)
  unfolding emit_event
  Keeps-emit_event e =
      search
        (
          keeps_rules, Keeps-emits, Keeps-try_send_to_subscribers, Keeps-remove_subscribers,
          Keeps-reconcile_subscriber_registry,
        )
        depth 12

  module _ {E : Type 0} where
    Keeps-recompute_health_status : Keeps P (modify {E = E} recompute_health_status)
    unfolding recompute_health_status
    Keeps-recompute_health_status = Keeps-modify _ (λ c h. q.health c _ h)

    pub Keeps-mutate_health_and_maybe_emit :
        (f : Coordinator → Coordinator)
        → ((c : Coordinator) → P c → P (f c))
        → Keeps P (mutate_health_and_maybe_emit {E = E} f)
    unfolding mutate_health_and_maybe_emit
    Keeps-mutate_health_and_maybe_emit f h =
        search
          (
            keeps_rules,
            Keeps-modify f h,
            Keeps-recompute_health_status,
            Keeps-build_service_health_snapshot,
            Keeps-emit_event,
          )
          depth 20

    Keeps-sync_shutdown : Keeps P (modify {E = E} sync_shutdown)
    unfolding sync_shutdown
    Keeps-sync_shutdown = Keeps-modify _ (λ c h. q.shutdown c _ h)

    pub Keeps-sync_shutdown_state_local : Keeps P (sync_shutdown_state_local {E = E})
    unfolding sync_shutdown_state_local
    Keeps-sync_shutdown_state_local = search (keeps_rules, Keeps-sync_shutdown) depth 8

    pub Keeps-maybe_emit_shutdown_state_changed :
        (a b : ShutdownState) → Keeps P (maybe_emit_shutdown_state_changed {E = E} a b)
    unfolding maybe_emit_shutdown_state_changed
    Keeps-maybe_emit_shutdown_state_changed a b = search (keeps_rules, Keeps-emit_event) depth 8

    pub Keeps-maybe_emit_internet_policy_changed :
        (d : DesiredInternetState) (o : InternetState) (r : StateChangeReason)
        → Keeps P (maybe_emit_internet_policy_changed {E = E} d o r)
    unfolding maybe_emit_internet_policy_changed
    Keeps-maybe_emit_internet_policy_changed d o r = search (keeps_rules, Keeps-emit_event) depth 12

    pub Keeps-mark_persistence_failure :
        (e : StateStoreError) → Keeps P (mark_persistence_failure {E = E} e)
    unfolding mark_persistence_failure
    Keeps-mark_persistence_failure e =
        Keeps-mutate_health_and_maybe_emit _ λ c h. q.errors _ _ _ _ _ (q.health c _ h)

    pub Keeps-mark_persistence_success : Keeps P (mark_persistence_success {E = E})
    unfolding mark_persistence_success
    Keeps-mark_persistence_success =
        Keeps-mutate_health_and_maybe_emit _ (λ c h. q.errors _ _ _ _ _ (q.health c _ h))

    pub Keeps-mark_gate_failure : (m : String) → Keeps P (mark_gate_failure {E = E} m)
    unfolding mark_gate_failure
    Keeps-mark_gate_failure m =
        Keeps-mutate_health_and_maybe_emit _ (λ c h. q.errors _ _ _ _ _ (q.health c _ h))

    pub Keeps-mark_gate_success : Keeps P (mark_gate_success {E = E})
    unfolding mark_gate_success
    Keeps-mark_gate_success =
        Keeps-mutate_health_and_maybe_emit _ (λ c h. q.errors _ _ _ _ _ (q.health c _ h))

    pub Keeps-power_error :
        (w : Option String)
        → Keeps P (mutate_health_and_maybe_emit {E = E} (λ c. record c { power_error = w }))
    Keeps-power_error w =
        Keeps-mutate_health_and_maybe_emit _
          λ c h. q.errors c c.persistence_error c.internet_gate_error w c.retry_policy_error h
