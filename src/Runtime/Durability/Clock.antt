-- ===== src/Runtime/Durability/Clock.antt =====
-- crates/service/src/runtime.rs: the evaluation of the timers keeps the durability invariant.
use palka.Base.{ℕ, true, false, Option, none, some, List, [], ◌∷◌, Result, ok, err}
use palka.Domain.{
  ActionKind, block_internet, shutdown_computer, ScheduledAction, TimerId, WarningThreshold,
}
use palka.Persistence.{PersistentState, StateStoreError}
use palka.Runtime.State.{MonotonicTimerAnchor, Instant}
use palka.Runtime.Action.Keeps.{Keeps, Keeps-pure, Keeps-if, Keeps-bind, Keeps-gets, Keeps-try}
use palka.Runtime.Clock.{
  after_warning_save, warn, evaluate_anchor, evaluate_timers, execute_deadline, process_expired,
  process_retry, process_clock_and_events,
}
use palka.Runtime.Quiet.{Keeps-is_stop_requested, Keeps-monotonic_now, Keeps-utc_now}
use palka.Runtime.Quiet.Handlers.{
  Keeps-advance_cursor, Keeps-emit_warnings, Keeps-warning_notifications, Keeps-set_retry,
}
use palka.Runtime.Durability.{IsSound, IsSound-Quiet, commit_authoritative_state-IsSound}
use palka.Runtime.Durability.Policy.{process_internet_reconciliation_retry-IsSound}
use palka.Runtime.Durability.Deadlines.{execute_scheduled_internet_deadline-IsSound}
use palka.Runtime.Durability.Shutdown.{execute_scheduled_shutdown_deadline-IsSound}

module _ (boot : PersistentState) {E : Type 0} where
  after_warning_save-IsSound :
      (anchor : MonotonicTimerAnchor) (id : TimerId) (n : ℕ) (ts : List WarningThreshold)
      (r : Result (Unit {0}) StateStoreError)
      → Keeps (IsSound boot) (after_warning_save {E = E} anchor id n ts r)
  unfolding after_warning_save
  after_warning_save-IsSound anchor id n ts (err e) = Keeps-pure tt
  after_warning_save-IsSound anchor id n ts (ok _) =
      Keeps-bind _ _ (Keeps-advance_cursor (IsSound-Quiet boot) id n) λ _.
        Keeps-bind _ _ (Keeps-utc_now (IsSound-Quiet boot))
          λ now. Keeps-emit_warnings (IsSound-Quiet boot) id _ _ now ts

  warn-IsSound :
      (anchor : MonotonicTimerAnchor) (id : TimerId) (n : ℕ) (ts : List WarningThreshold)
      (found : Option ScheduledAction)
      → Keeps (IsSound boot) (warn {E = E} anchor id n ts found)
  unfolding warn
  warn-IsSound anchor id n ts none = Keeps-pure tt
  warn-IsSound anchor id n ts (some a) =
      Keeps-bind _ _ (Keeps-warning_notifications (IsSound-Quiet boot) _ n ts) λ entries.
        Keeps-bind _ _ (Keeps-gets _) λ state.
          Keeps-bind _ _ (Keeps-try _ (commit_authoritative_state-IsSound boot _))
            λ saved. after_warning_save-IsSound anchor id n ts saved

  evaluate_anchor-IsSound :
      (now : Instant) (id : TimerId) (anchor : Option MonotonicTimerAnchor)
      → Keeps (IsSound boot) (evaluate_anchor {E = E} now id anchor)
  unfolding evaluate_anchor
  evaluate_anchor-IsSound now id none = Keeps-pure []
  evaluate_anchor-IsSound now id (some anchor) =
      Keeps-if _ _ _ (λ _. Keeps-pure _)
        λ _. Keeps-bind _ _ (Keeps-gets _) λ found.
          Keeps-bind _ _
            (Keeps-if _ _ _ (λ _. warn-IsSound anchor id _ _ found)
              λ _.
                Keeps-if _ _ _ (λ _. Keeps-advance_cursor (IsSound-Quiet boot) id _)
                  λ _. Keeps-pure tt)
            λ _. Keeps-pure []

  evaluate_timers-IsSound :
      (now : Instant) (ids : List TimerId) → Keeps (IsSound boot) (evaluate_timers {E = E} now ids)
  unfolding evaluate_timers
  evaluate_timers-IsSound now [] = Keeps-pure []
  evaluate_timers-IsSound now (id ∷ ids) = Keeps-bind _ _ (Keeps-gets _) λ anchor.
      Keeps-bind _ _ (evaluate_anchor-IsSound now id anchor)
        λ expired. Keeps-bind _ _ (evaluate_timers-IsSound now ids) λ rest. Keeps-pure _

  execute_deadline-IsSound :
      (id : TimerId) (k : ActionKind) → Keeps (IsSound boot) (execute_deadline {E = E} id k)
  execute_deadline-IsSound id block_internet = execute_scheduled_internet_deadline-IsSound boot id
  execute_deadline-IsSound id shutdown_computer =
      execute_scheduled_shutdown_deadline-IsSound boot id

  process_expired-IsSound :
      (l : List (TimerId × ActionKind)) → Keeps (IsSound boot) (process_expired {E = E} l)
  unfolding process_expired
  process_expired-IsSound [] = Keeps-pure true
  process_expired-IsSound ((id, k) ∷ more) =
      Keeps-bind _ _ (Keeps-is_stop_requested (IsSound-Quiet boot)) λ stop.
        Keeps-if _ _ _ (λ _. Keeps-pure false)
          λ _. Keeps-bind _ _ (execute_deadline-IsSound id k) λ _. process_expired-IsSound more

  process_retry-IsSound : (now : Instant) → Keeps (IsSound boot) (process_retry {E = E} now)
  unfolding process_retry
  process_retry-IsSound now = Keeps-bind _ _ (Keeps-gets _) λ due.
      Keeps-if _ _ _ (λ _. Keeps-pure tt)
        λ _.
          Keeps-bind _ _ (Keeps-set_retry (IsSound-Quiet boot) none)
            λ _. process_internet_reconciliation_retry-IsSound boot

  pub process_clock_and_events-IsSound : Keeps (IsSound boot) (process_clock_and_events {E = E})
  unfolding process_clock_and_events
  process_clock_and_events-IsSound =
      Keeps-bind _ _ (Keeps-is_stop_requested (IsSound-Quiet boot)) λ stop.
        Keeps-if _ _ _ (λ _. Keeps-pure tt)
          λ _. Keeps-bind _ _ (Keeps-monotonic_now (IsSound-Quiet boot)) λ now.
            Keeps-bind _ _ (Keeps-gets _) λ ids.
              Keeps-bind _ _ (evaluate_timers-IsSound now ids) λ expired.
                Keeps-bind _ _ (process_expired-IsSound expired)
                  λ going. Keeps-if _ _ _ (λ _. process_retry-IsSound now) λ _. Keeps-pure tt
