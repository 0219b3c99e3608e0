-- ===== src/Runtime/Durability/Recovery.antt =====
-- crates/service/src/runtime.rs: the recovery at the start keeps the durability invariant.
use palka.Base.{
  ◌≡◌, refl, Bool, true, false, Option, none, some, List, [], ◌∷◌, String, if◌then◌else◌,
}
use palka.Base.Int.{ℤ, wrap_i64, ◌-ℤ◌}
use palka.Domain.{
  ActionKind, block_internet, shutdown_computer, ScheduledAction, ActionExecutionState, TimerId,
  DesiredInternetState, UtcDateTime,
}
use palka.Persistence.{PersistentState}
use palka.Runtime.State.{ServiceRuntimeError, Instant}
use palka.Runtime.Action.{raise, gets, ◌>>=◌}
use palka.Runtime.Action.Keeps.{
  Keeps, Keeps-pure, Keeps-if, Keeps-bind, Keeps-gets, Keeps-lift, Keeps-raise, Keeps-map_err,
}
use palka.Runtime.Action.Triple.{Keeps-read, Keeps-after, Keeps-weaken, Triple-gets}
use palka.Runtime.Internet.{Verdict, verified, mismatch, failure}
use palka.Runtime.Candidates.{next_attempt}
use palka.Runtime.Recovery.{
  Scan, recover_pending_block, recover_overdue_block, recover_overdue_shutdown, recover_future,
  recover_overdue, recover_action, recover_actions, commit_recovery, startup_reconciled,
  commit_reconciled, fail_each, startup_degraded, conclude_startup, reconcile_at_startup,
  perform_startup_recovery,
}
use palka.Runtime.Quiet.{
  Keeps-utc_now, Keeps-monotonic_now, Keeps-next_outbox_id, Keeps-build_status_snapshot,
  Keeps-mark_gate_failure, Keeps-mark_gate_success, Keeps-sync_shutdown_state_local,
  Keeps-maybe_emit_shutdown_state_changed,
}
use palka.Runtime.Quiet.Handlers.{
  Keeps-observe, Keeps-schedule_next_internet_retry, Keeps-set_timers, Keeps-emit_missed,
}
use palka.Runtime.Durability.{
  IsSound, IsSoundAt, IsSound-Quiet, IsSoundAt-Quiet, commit_post_side_effect_candidate-IsSoundAt,
}
use palka.Runtime.Durability.Gate.{apply_policy-IsSoundAt, gate_current_state-IsSoundAt}
use palka.Runtime.Durability.Handlers.{Keeps-commit}

module _ (boot : PersistentState) where
  broken :
      {A : Type 0} (a : ScheduledAction) (s : Scan) (f : (String → String) → ServiceRuntimeError)
      → Keeps
          (IsSound boot)
          (gets (λ c. c.ports.debug_str) >>= λ debug_str. raise {A = A} (f debug_str))
  broken a s f = Keeps-bind _ _ (Keeps-gets _) λ debug_str. Keeps-raise _

  recover_pending_block-IsSound :
      (a : ScheduledAction) (s : Scan) (next : Option ActionExecutionState)
      → Keeps (IsSound boot) (recover_pending_block a s next)
  unfolding recover_pending_block
  recover_pending_block-IsSound a s (some ActionExecutionState.executing) = Keeps-pure _
  recover_pending_block-IsSound a s (some ActionExecutionState.pending) = broken a s _
  recover_pending_block-IsSound a s (some ActionExecutionState.completed) = broken a s _
  recover_pending_block-IsSound a s (some (ActionExecutionState.failed reason)) = broken a s _
  recover_pending_block-IsSound a s (some ActionExecutionState.missed) = broken a s _
  recover_pending_block-IsSound a s none = broken a s _

  recover_overdue_block-IsSound :
      (r : ℤ) (a : ScheduledAction) (s : Scan) (now : ActionExecutionState)
      → Keeps (IsSound boot) (recover_overdue_block r a s now)
  unfolding recover_overdue_block
  recover_overdue_block-IsSound r a s ActionExecutionState.pending =
      recover_pending_block-IsSound a s _
  recover_overdue_block-IsSound r a s ActionExecutionState.executing = Keeps-pure _
  recover_overdue_block-IsSound r a s ActionExecutionState.completed = Keeps-pure _
  recover_overdue_block-IsSound r a s (ActionExecutionState.failed reason) = Keeps-pure _
  recover_overdue_block-IsSound r a s ActionExecutionState.missed = Keeps-pure _

  recover_overdue_shutdown-IsSound :
      (a : ScheduledAction) (s : Scan) (next : Option ActionExecutionState)
      → Keeps (IsSound boot) (recover_overdue_shutdown a s next)
  unfolding recover_overdue_shutdown
  recover_overdue_shutdown-IsSound a s (some ActionExecutionState.missed) =
      Keeps-bind _ _ (Keeps-next_outbox_id (IsSound-Quiet boot)) λ id. Keeps-pure _
  recover_overdue_shutdown-IsSound a s (some ActionExecutionState.pending) = Keeps-pure _
  recover_overdue_shutdown-IsSound a s (some ActionExecutionState.executing) = Keeps-pure _
  recover_overdue_shutdown-IsSound a s (some ActionExecutionState.completed) = Keeps-pure _
  recover_overdue_shutdown-IsSound a s (some (ActionExecutionState.failed reason)) = Keeps-pure _
  recover_overdue_shutdown-IsSound a s none = Keeps-pure _

  recover_overdue-IsSound :
      (k : ActionKind) (r : ℤ) (a : ScheduledAction) (s : Scan)
      → Keeps (IsSound boot) (recover_overdue k r a s)
  recover_overdue-IsSound block_internet r a s =
      recover_overdue_block-IsSound r a s a.execution_state
  recover_overdue-IsSound shutdown_computer r a s = recover_overdue_shutdown-IsSound a s _

  recover_future-IsSound :
      (d r : ℤ) (now : Instant) (a : ScheduledAction) (s : Scan)
      → Keeps (IsSound boot) (recover_future d r now a s)
  unfolding recover_future
  recover_future-IsSound d r now a s =
      Keeps-bind _ _ (Keeps-set_timers (IsSound-Quiet boot) _) λ _. Keeps-pure _

  recover_action-IsSound :
      (u : UtcDateTime) (now : Instant) (a : ScheduledAction) (s : Scan)
      → Keeps (IsSound boot) (recover_action u now a s)
  unfolding recover_action
  recover_action-IsSound u now a s =
      Keeps-if _ _ _ (λ _. recover_overdue-IsSound a.action_kind _ a s)
        λ _. recover_future-IsSound (wrap_i64 (a.deadline.at.millis -ℤ u.millis)) _ now a s

  recover_actions-IsSound :
      (u : UtcDateTime) (now : Instant) (l : List ScheduledAction) (s : Scan)
      → Keeps (IsSound boot) (recover_actions u now l s)
  unfolding recover_actions
  recover_actions-IsSound u now [] s = Keeps-pure _
  recover_actions-IsSound u now (a ∷ more) s =
      Keeps-bind _ _ (recover_action-IsSound u now a s)
        λ first. Keeps-bind _ _ (recover_actions-IsSound u now more first.1) λ rest. Keeps-pure _

  commit_recovery-IsSound :
      (b : Bool) (s : PersistentState) → Keeps (IsSound boot) (commit_recovery b s)
  unfolding commit_recovery
  commit_recovery-IsSound b s = Keeps-if _ _ _ (λ _. Keeps-commit boot s) λ _. Keeps-pure tt

  module _ (d : DesiredInternetState) where
    commit_reconciled-IsSoundAt :
        (b : Bool) (s : PersistentState)
        → s.desired_internet_state ≡ d
        → Keeps (IsSoundAt boot d) (commit_reconciled (if b then some s else none))
    unfolding commit_reconciled
    commit_reconciled-IsSoundAt true s same =
        Keeps-map_err _ _ (commit_post_side_effect_candidate-IsSoundAt boot d s same)
    commit_reconciled-IsSoundAt false s same = Keeps-pure tt

    fail_each-IsSoundAt :
        (ids : List TimerId) (reason : String) (l : List ScheduledAction)
        → Keeps (IsSoundAt boot d) (fail_each ids reason l)
    unfolding fail_each
    fail_each-IsSoundAt ids reason [] = Keeps-pure []
    fail_each-IsSoundAt ids reason (a ∷ more) =
        Keeps-bind _ _ (Keeps-lift _)
          λ b. Keeps-bind _ _ (fail_each-IsSoundAt ids reason more) λ rest. Keeps-pure _

    startup_degraded-IsSoundAt :
        (ids : List TimerId) (message : String)
        → Keeps (IsSoundAt boot d) (startup_degraded ids message)
    unfolding startup_degraded
    startup_degraded-IsSoundAt ids message =
        Keeps-bind _ _ (Keeps-mark_gate_failure (IsSoundAt-Quiet boot d) message) λ _.
          Keeps-read _ _ _ λ c h.
            Keeps-bind _ _ (fail_each-IsSoundAt ids message c.state.active_actions) λ actions.
              Keeps-bind _ _ (Keeps-next_outbox_id (IsSoundAt-Quiet boot d)) λ entry_id.
                Keeps-bind _ _
                  (Keeps-map_err _ _ (commit_post_side_effect_candidate-IsSoundAt boot d _ h.1))
                  λ _.
                    Keeps-schedule_next_internet_retry (IsSoundAt-Quiet boot d)
                      (next_attempt c.state.internet_retry)

    conclude_startup-IsSoundAt :
        (ids : List TimerId) (v : Verdict) → Keeps (IsSoundAt boot d) (conclude_startup ids d v)
    unfolding conclude_startup startup_reconciled
    conclude_startup-IsSoundAt ids verified =
        Keeps-bind _ _ (Keeps-mark_gate_success (IsSoundAt-Quiet boot d))
          λ _. Keeps-read _ _ _ λ c h. commit_reconciled-IsSoundAt _ _ h.1
    conclude_startup-IsSoundAt ids (mismatch observed) = startup_degraded-IsSoundAt ids _
    conclude_startup-IsSoundAt ids (failure reason) = startup_degraded-IsSoundAt ids reason

  reconcile_at_startup-IsSound :
      (ids : List TimerId) → Keeps (IsSound boot) (reconcile_at_startup ids)
  unfolding reconcile_at_startup
  reconcile_at_startup-IsSound ids =
      Keeps-after _ (λ d. IsSoundAt boot d) _ _ (Triple-gets _ _ _ _ (λ c h. (h, refl)))
        λ d.
          Keeps-weaken _ _ _ (λ c h. h.0)
            (Keeps-bind _ _ (Keeps-gets _) λ o.
              Keeps-bind _ _ (apply_policy-IsSoundAt boot d) λ applied.
                Keeps-bind _ _ (gate_current_state-IsSoundAt boot d) λ current.
                  Keeps-bind _ _ (Keeps-observe (IsSoundAt-Quiet boot d) (λ c o h. h) d o _ current)
                    λ _. conclude_startup-IsSoundAt d ids _)

  pub perform_startup_recovery-IsSound : Keeps (IsSound boot) perform_startup_recovery
  unfolding perform_startup_recovery
  perform_startup_recovery-IsSound = Keeps-bind _ _ (Keeps-utc_now (IsSound-Quiet boot)) λ u.
      Keeps-bind _ _ (Keeps-monotonic_now (IsSound-Quiet boot)) λ now.
        Keeps-bind _ _ (Keeps-gets _) λ state.
          Keeps-bind _ _ (recover_actions-IsSound u now _ _) λ scanned.
            Keeps-bind _ _ (commit_recovery-IsSound _ _) λ _.
              Keeps-bind _ _ (Keeps-emit_missed (IsSound-Quiet boot) scanned.1.missed) λ _.
                Keeps-bind _ _ (Keeps-sync_shutdown_state_local (IsSound-Quiet boot)) λ both.
                  Keeps-bind _ _
                    (Keeps-maybe_emit_shutdown_state_changed (IsSound-Quiet boot) both.0 both.1)
                    λ _. Keeps-bind _ _ (reconcile_at_startup-IsSound _) λ _.
                      Keeps-bind _ _ (Keeps-build_status_snapshot (IsSound-Quiet boot))
                        λ snapshot. Keeps-lift _
