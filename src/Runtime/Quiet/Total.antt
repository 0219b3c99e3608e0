-- ===== src/Runtime/Quiet/Total.antt =====
-- crates/service/src/runtime.rs: the changes of the health, the announcements and the readings of
-- the clocks and the identifiers never fail.
use palka.Base.{List, [], ◌∷◌}
use palka.Domain.{
  ShutdownState, ActionKind, block_internet, shutdown_computer, WarningThreshold, TimerId, Deadline,
  UtcDateTime, ScheduledAction,
}
use palka.Persistence.{StateStoreError}
use palka.Runtime.State.{Coordinator}
use palka.Runtime.Action.Total.{
  Total, total_rules, Total-pure, Total-gets, Total-bind, Total-ignore, Total-call,
}
use palka.Runtime.Ports.{utc_now, monotonic_now, next_timer_id, next_outbox_id}
use palka.Runtime.Health.{build_service_health_snapshot}
use palka.Runtime.Events.{
  mutate_health_and_maybe_emit, mark_persistence_failure, mark_persistence_success,
  sync_shutdown_state_local, maybe_emit_shutdown_state_changed,
}
use palka.Runtime.Timers.{due_notifications, emit_warnings, sync_if_shutdown, announce_scheduled}

module _ {E : Type 0} where
  pub Total-utc_now : Total (utc_now {E = E})
  unfolding utc_now
  Total-utc_now = Total-call _

  pub Total-monotonic_now : Total (monotonic_now {E = E})
  unfolding monotonic_now
  Total-monotonic_now = Total-call _

  pub Total-next_timer_id : Total (next_timer_id {E = E})
  unfolding next_timer_id
  Total-next_timer_id = Total-call _

  pub Total-next_outbox_id : Total (next_outbox_id {E = E})
  unfolding next_outbox_id
  Total-next_outbox_id = Total-call _

  pub Total-build_service_health_snapshot : Total (build_service_health_snapshot {E = E})
  unfolding build_service_health_snapshot
  Total-build_service_health_snapshot = search (total_rules, Total-monotonic_now) depth 12

  Total-mutate_health_and_maybe_emit :
      (f : Coordinator → Coordinator) → Total (mutate_health_and_maybe_emit {E = E} f)
  unfolding mutate_health_and_maybe_emit
  Total-mutate_health_and_maybe_emit f =
      search (total_rules, Total-build_service_health_snapshot) depth 20

  pub Total-mark_persistence_failure :
      (e : StateStoreError) → Total (mark_persistence_failure {E = E} e)
  unfolding mark_persistence_failure
  Total-mark_persistence_failure e = Total-mutate_health_and_maybe_emit _

  pub Total-mark_persistence_success : Total (mark_persistence_success {E = E})
  unfolding mark_persistence_success
  Total-mark_persistence_success = Total-mutate_health_and_maybe_emit _

  Total-sync_shutdown_state_local : Total (sync_shutdown_state_local {E = E})
  unfolding sync_shutdown_state_local
  Total-sync_shutdown_state_local = search total_rules depth 12

  Total-maybe_emit_shutdown_state_changed :
      (p t : ShutdownState) → Total (maybe_emit_shutdown_state_changed {E = E} p t)
  unfolding maybe_emit_shutdown_state_changed
  Total-maybe_emit_shutdown_state_changed p t = search total_rules depth 12

  pub Total-sync_if_shutdown : (k : ActionKind) → Total (sync_if_shutdown {E = E} k)
  unfolding sync_if_shutdown
  Total-sync_if_shutdown block_internet = Total-pure tt
  Total-sync_if_shutdown shutdown_computer =
      Total-bind _ _ Total-sync_shutdown_state_local
        λ both. Total-maybe_emit_shutdown_state_changed both.0 both.1

  pub Total-due_notifications :
      (k : ActionKind) (ds : List WarningThreshold) → Total (due_notifications {E = E} k ds)
  unfolding due_notifications
  Total-due_notifications k [] = Total-pure []
  Total-due_notifications k (d ∷ ds) =
      Total-bind _ _ Total-next_outbox_id
        λ id. Total-bind _ _ (Total-due_notifications k ds) λ rest. Total-pure _

  Total-emit_warnings :
      (id : TimerId) (k : ActionKind) (d : Deadline) (now : UtcDateTime)
      (ts : List WarningThreshold)
      → Total (emit_warnings {E = E} id k d now ts)
  unfolding emit_warnings
  Total-emit_warnings id k d now [] = Total-pure tt
  Total-emit_warnings id k d now (t ∷ ts) =
      Total-bind _ _ (Total-ignore _) λ _. Total-emit_warnings id k d now ts

pub Total-announce_scheduled :
    (a : ScheduledAction) (due : List WarningThreshold) → Total (announce_scheduled a due)
unfolding announce_scheduled
Total-announce_scheduled a due = Total-bind _ _ (Total-gets _) λ found.
    Total-bind _ _ (Total-ignore _)
      λ _. Total-bind _ _ (Total-emit_warnings _ _ _ _ due) λ _. Total-sync_if_shutdown _
