-- ===== src/Runtime/Durability/Shutdown.antt =====
-- crates/service/src/runtime.rs: the execution of a scheduled shutdown keeps the durability
-- invariant.
use palka.Base.{
  ◌≡◌, refl, Option, none, some, List, [], ◌∷◌, Result, ok, err, Bool, true, false, any, String,
  if◌then◌else◌, ap, ◌∙◌, arith,
}
use palka.Domain.{
  TimerId, ScheduledAction, DesiredInternetState, ShutdownState, executing, in_progress,
}
use palka.Domain.Transitions.{is_executing}
use palka.Persistence.{PersistentState, StateStoreError}
use palka.Runtime.State.{Coordinator, PlatformError}
use palka.Runtime.Action.{gets, modify, ◌>>=◌}
use palka.Runtime.Action.Keeps.{
  Keeps, Keeps-pure, Keeps-if, Keeps-bind, Keeps-gets, Keeps-ignore, Keeps-try,
}
use palka.Runtime.Action.Triple.{
  Keeps-read, Keeps-try_then, Triple, Triple-bind, Triple-if, Keeps-between, Keeps-ends, from_Post,
}
use palka.Runtime.Ports.{power_initiate_shutdown}
use palka.Runtime.Candidates.{find_action, update_action, with_execution}
use palka.Runtime.Deadlines.{
  may_start, start_action, shutdown_succeeded, announce_if_saved, shutdown_failed,
  conclude_shutdown, carry_out_shutdown, start_shutdown, execute_scheduled_shutdown_deadline,
}
use palka.Runtime.Quiet.{
  Keeps-emit_event, Keeps-is_stop_requested, Keeps-power_error, Keeps-next_outbox_id,
  Keeps-maybe_emit_shutdown_state_changed, Keeps-modify,
}
use palka.Runtime.Quiet.Handlers.{Keeps-set_timers}
use palka.Runtime.Durability.{
  IsSound, IsSoundAt, HasSaved, has_executing, IsSound-Quiet, IsSoundAt-Quiet, HasSaved-Quiet,
  commit_authoritative_state-HasSaved, commit_post_side_effect_candidate-IsSoundAt,
}

-- An action that may start is executing afterwards.
started-any :
    (id : TimerId) (actions : List ScheduledAction)
    → may_start (find_action id actions) ≡ true
    → any
        (λ a. is_executing a.execution_state)
        (update_action id (with_execution executing) actions)
      ≡ true
unfolding find_action update_action any
started-any id [] h = ground arith
started-any id (a ∷ more) h = ground (arith, started-any id more)

module _ (boot : PersistentState) {E : Type 0} where
  announce_if_saved-IsSoundAt :
      (d : DesiredInternetState) (p t : ShutdownState) (r : Result (Unit {0}) StateStoreError)
      → Keeps (IsSoundAt boot d) (announce_if_saved {E = E} p t r)
  announce_if_saved-IsSoundAt d p t (ok _) =
      Keeps-maybe_emit_shutdown_state_changed (IsSoundAt-Quiet boot d) p t
  announce_if_saved-IsSoundAt d p t (err e) = Keeps-pure tt

  module _ (d : DesiredInternetState) where
    Keeps-shutdown_state :
        (t : ShutdownState)
        → Keeps (IsSoundAt boot d) (modify {E = E} (λ c. record c { shutdown_state = t }))
    Keeps-shutdown_state t =
        Keeps-modify (IsSoundAt-Quiet boot d) _ (λ c h. (IsSoundAt-Quiet boot d).shutdown c t h)

    shutdown_succeeded-IsSoundAt :
        (id : TimerId) → Keeps (IsSoundAt boot d) (shutdown_succeeded {E = E} id)
    unfolding shutdown_succeeded
    shutdown_succeeded-IsSoundAt id = Keeps-read _ _ _ λ c h.
        Keeps-bind _ _ (Keeps-power_error (IsSoundAt-Quiet boot d) none) λ _.
          Keeps-bind _ _ (Keeps-gets _) λ previous.
            Keeps-bind _ _ (Keeps-shutdown_state in_progress) λ _.
              Keeps-bind _ _ (Keeps-maybe_emit_shutdown_state_changed (IsSoundAt-Quiet boot d) _ _)
                λ _. Keeps-ignore _ (commit_post_side_effect_candidate-IsSoundAt boot d _ h.1)

    shutdown_failed-IsSoundAt :
        (id : TimerId) (reason : String)
        → Keeps (IsSoundAt boot d) (shutdown_failed {E = E} id reason)
    unfolding shutdown_failed
    shutdown_failed-IsSoundAt id reason = Keeps-read _ _ _ λ c h.
        Keeps-bind _ _ (Keeps-power_error (IsSoundAt-Quiet boot d) (some reason)) λ _.
          Keeps-bind _ _ (Keeps-next_outbox_id (IsSoundAt-Quiet boot d)) λ entry_id.
            Keeps-bind _ _ (Keeps-gets _) λ previous. Keeps-bind _ _ (Keeps-shutdown_state _) λ _.
              Keeps-bind _ _
                (Keeps-try _ (commit_post_side_effect_candidate-IsSoundAt boot d _ h.1))
                λ saved. announce_if_saved-IsSoundAt d _ _ saved

    conclude_shutdown-IsSoundAt :
        (id : TimerId) (found : Option ScheduledAction) (r : Result (Unit {0}) PlatformError)
        → Keeps (IsSoundAt boot d) (conclude_shutdown {E = E} id found r)
    unfolding conclude_shutdown
    conclude_shutdown-IsSoundAt id none r = Keeps-pure tt
    conclude_shutdown-IsSoundAt id (some a) (ok _) = shutdown_succeeded-IsSoundAt id
    conclude_shutdown-IsSoundAt id (some a) (err e) = shutdown_failed-IsSoundAt id e.reason

  module _ (s : PersistentState) (starts : has_executing s ≡ true) where
    -- The saved state has an executing action, so the shutdown is justified.
    power_initiate_shutdown-HasSaved : Keeps (HasSaved boot s) (power_initiate_shutdown {E = E})
    unfolding power_initiate_shutdown ◌>>=◌
    power_initiate_shutdown-HasSaved = record {
      at = λ c h. ((h.0.0, h.0.1, (ap has_executing h.2 ∙ starts, h.0.2)), h.1, h.2);
    }

    concluded :
        (id : TimerId) (r : Result (Unit {0}) PlatformError)
        → Triple
            (HasSaved boot s)
            (gets (λ c. find_action id c.state.active_actions) >>= λ found.
              conclude_shutdown {E = E} id found r)
            (λ _. IsSound boot)
            (IsSound boot)
    concluded id r =
        Keeps-between _ (IsSoundAt boot s.desired_internet_state) _ _
          (λ c h. (h.0, ap (λ (x : PersistentState). x.desired_internet_state) h.1)) (λ c h. h.0)
          (Keeps-bind _ _ (Keeps-gets _) λ found. conclude_shutdown-IsSoundAt _ id found r)

    carried_out :
        (id : TimerId) (u : Unit {0})
        → Triple
            (HasSaved boot s)
            (carry_out_shutdown {E = E} id (ok u))
            (λ _. IsSound boot)
            (IsSound boot)
    unfolding carry_out_shutdown
    carried_out id u =
        Triple-bind _ _ (λ _. HasSaved boot s) _ _ _
          (Keeps-ends _ _ _ _ (λ c h. h) (λ c h. h.0) (Keeps-set_timers (HasSaved-Quiet boot s) _))
          λ _.
            Triple-bind _ _ (λ _. HasSaved boot s) _ _ _
              (Keeps-ends _ _ _ _ (λ c h. h) (λ c h. h.0)
                (Keeps-ignore _ (Keeps-emit_event (HasSaved-Quiet boot s) _)))
              λ _.
                Triple-bind _ _ (λ _. HasSaved boot s) _ _ _
                  (Keeps-ends _ _ _ _ (λ c h. h) (λ c h. h.0)
                    (Keeps-is_stop_requested (HasSaved-Quiet boot s)))
                  λ stop.
                    Triple-if _ _ _ _ _ _
                      (Keeps-between _ (IsSound boot) _ _ (λ c h. h.0) (λ c h. h) (Keeps-pure tt))
                      (Triple-bind _ _ (λ _. HasSaved boot s) _ _ _
                        (Keeps-ends _ _ _ _ (λ c h. h) (λ c h. h.0)
                          power_initiate_shutdown-HasSaved)
                        λ r. concluded id r)

  not_carried_out :
      (id : TimerId) (e : StateStoreError)
      → Keeps (IsSound boot) (carry_out_shutdown {E = E} id (err e))
  unfolding carry_out_shutdown
  not_carried_out id e = Keeps-pure tt

  starting :
      (id : TimerId) (b : Bool) (c : Coordinator)
      → (b ≡ true
          → any
              (λ a. is_executing a.execution_state)
              (update_action id (with_execution executing) c.state.active_actions)
            ≡ true)
      → Keeps (IsSound boot) (
          start_shutdown {E = E} id (
            if b
            then some (update_action id (with_execution executing) c.state.active_actions)
            else none))
  unfolding start_shutdown
  starting id false c h = Keeps-pure tt
  starting id true c h = Keeps-bind _ _ (Keeps-gets _) λ state.
      Keeps-try_then _ _ _ _ _ (commit_authoritative_state-HasSaved boot _)
        (λ u d k. from_Post ((carried_out _ (h refl) id u).at d k))
        λ e d k. (not_carried_out id e).at d k

  pub execute_scheduled_shutdown_deadline-IsSound :
      (id : TimerId) → Keeps (IsSound boot) (execute_scheduled_shutdown_deadline {E = E} id)
  unfolding execute_scheduled_shutdown_deadline start_action
  execute_scheduled_shutdown_deadline-IsSound id =
      Keeps-bind _ _ (Keeps-is_stop_requested (IsSound-Quiet boot)) λ stop.
        Keeps-if _ _ _ (λ _. Keeps-pure tt)
          λ _. Keeps-read _ _ _ λ c h. starting id _ c (started-any id c.state.active_actions)
