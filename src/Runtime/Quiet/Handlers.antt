-- ===== src/Runtime/Quiet/Handlers.antt =====
-- The parts of the handlers that keep every predicate which does not depend on the health, the
-- subscribers and the timers.
use palka.Base.{ℕ, Option, none, some, List, [], ◌∷◌, String, Result}
use palka.Domain.{
  InternetState, DesiredInternetState, StateChangeReason, WarningThreshold, TimerId, ActionKind,
  block_internet, shutdown_computer, Deadline, UtcDateTime, ScheduledAction,
}
use palka.Runtime.State.{Coordinator, PlatformError, MonotonicTimerAnchor, Instant}
use palka.Runtime.Action.{modify}
use palka.Runtime.Action.Keeps.{
  Keeps, keeps_rules, Keeps-pure, Keeps-if, Keeps-bind, Keeps-gets, Keeps-ignore,
}
use palka.Runtime.Events.{mutate_health_and_maybe_emit}
use palka.Runtime.Timers.{
  emit_warnings, sync_if_shutdown, due_notifications, announce_scheduled, check_boundary,
  check_anchor,
}
use palka.Runtime.Internet.{observe, schedule_next_internet_retry}
use palka.Runtime.Clock.{warning_notifications, advance_cursor}
use palka.Runtime.Recovery.{emit_missed}
use palka.Runtime.Quiet.{
  Quiet, Keeps-modify, Keeps-next_outbox_id, Keeps-monotonic_now, Keeps-delay_for_attempt,
  Keeps-emit_event, Keeps-mutate_health_and_maybe_emit, Keeps-sync_shutdown_state_local,
  Keeps-maybe_emit_shutdown_state_changed, Keeps-maybe_emit_internet_policy_changed,
}

module _ {P : Coordinator → Type 0} (q : Quiet P) where
  module _ {E : Type 0} where
    pub Keeps-due_notifications :
        (k : ActionKind) (ds : List WarningThreshold) → Keeps P (due_notifications {E = E} k ds)
    unfolding due_notifications
    Keeps-due_notifications k [] = Keeps-pure []
    Keeps-due_notifications k (d ∷ ds) =
        Keeps-bind _ _ (Keeps-next_outbox_id q)
          λ id. Keeps-bind _ _ (Keeps-due_notifications k ds) λ rest. Keeps-pure _

    pub Keeps-warning_notifications :
        (k : ActionKind) (n : ℕ) (ts : List WarningThreshold)
        → Keeps P (warning_notifications {E = E} k n ts)
    unfolding warning_notifications
    Keeps-warning_notifications k n [] = Keeps-pure []
    Keeps-warning_notifications k n (t ∷ ts) =
        Keeps-bind _ _ (Keeps-next_outbox_id q)
          λ id. Keeps-bind _ _ (Keeps-warning_notifications k n ts) λ rest. Keeps-pure _

    pub Keeps-emit_warnings :
        (id : TimerId) (k : ActionKind) (d : Deadline) (now : UtcDateTime)
        (ts : List WarningThreshold)
        → Keeps P (emit_warnings {E = E} id k d now ts)
    unfolding emit_warnings
    Keeps-emit_warnings id k d now [] = Keeps-pure tt
    Keeps-emit_warnings id k d now (t ∷ ts) =
        Keeps-bind _ _ (Keeps-ignore _ (Keeps-emit_event q _))
          λ _. Keeps-emit_warnings id k d now ts

    pub Keeps-sync_if_shutdown : (k : ActionKind) → Keeps P (sync_if_shutdown {E = E} k)
    unfolding sync_if_shutdown
    Keeps-sync_if_shutdown block_internet = Keeps-pure tt
    Keeps-sync_if_shutdown shutdown_computer =
        Keeps-bind _ _ (Keeps-sync_shutdown_state_local q)
          λ both. Keeps-maybe_emit_shutdown_state_changed q both.0 both.1

    Keeps-set_observed :
        ((c : Coordinator) (o : InternetState) → P c → P (record c { observed_internet_state = o }))
        → (r : Result InternetState PlatformError)
        → Keeps P (
            modify {E = E}
              (λ c. record c { observed_internet_state = palka.Runtime.Internet.observed_of r }))
    Keeps-set_observed f r = Keeps-modify q _ (λ c h. f c _ h)

    -- For a predicate that does not depend on the observed state either.
    pub Keeps-observe :
        ((c : Coordinator) (o : InternetState) → P c → P (record c { observed_internet_state = o }))
        → (d : DesiredInternetState) (o : InternetState) (reason : StateChangeReason)
          (r : Result InternetState PlatformError)
        → Keeps P (observe {E = E} d o reason r)
    unfolding observe
    Keeps-observe f d o reason r =
        Keeps-bind _ _ (Keeps-set_observed f r)
          λ _. Keeps-maybe_emit_internet_policy_changed q d o reason

    Keeps-retry_error :
        (r : Option String)
        → Keeps P (mutate_health_and_maybe_emit {E = E} (λ c. record c { retry_policy_error = r }))
    Keeps-retry_error r =
        Keeps-mutate_health_and_maybe_emit q _
          λ c h. q.errors c c.persistence_error c.internet_gate_error c.power_error r h

    pub Keeps-set_retry :
        (t : Option Instant) → Keeps P (modify {E = E} (λ c. record c { next_retry_at = t }))
    Keeps-set_retry t = Keeps-modify q _ (λ c h. q.retry c t h)

    pub Keeps-schedule_next_internet_retry :
        (n : ℕ) → Keeps P (schedule_next_internet_retry {E = E} n)
    unfolding schedule_next_internet_retry
    Keeps-schedule_next_internet_retry n = Keeps-bind _ _ (Keeps-delay_for_attempt q n) λ delay.
        Keeps-if _ _ _ (λ _. Keeps-bind _ _ (Keeps-retry_error _) λ _. Keeps-set_retry none)
          λ _.
            Keeps-bind _ _ (Keeps-retry_error none)
              λ _. Keeps-bind _ _ (Keeps-monotonic_now q) λ now. Keeps-set_retry _

    pub Keeps-set_timers :
        (f : Coordinator → List (TimerId × MonotonicTimerAnchor))
        → Keeps P (modify {E = E} (λ c. record c { monotonic_timers = f c }))
    Keeps-set_timers f = Keeps-modify q _ (λ c h. q.timers c (f c) h)

    pub Keeps-advance_cursor :
        (id : TimerId) (n : ℕ) → Keeps P (modify {E = E} (advance_cursor id n))
    unfolding advance_cursor
    Keeps-advance_cursor id n = Keeps-modify q _ (λ c h. q.timers c _ h)

  pub Keeps-announce_scheduled :
      (a : ScheduledAction) (due : List WarningThreshold) → Keeps P (announce_scheduled a due)
  unfolding announce_scheduled
  Keeps-announce_scheduled a due = Keeps-bind _ _ (Keeps-gets _) λ found.
      Keeps-bind _ _ (Keeps-ignore _ (Keeps-emit_event q _)) λ _.
        Keeps-bind _ _ (Keeps-emit_warnings _ _ _ _ due) λ _. Keeps-sync_if_shutdown a.action_kind

  Keeps-check_anchor :
      (k : ActionKind) (anchor : Option MonotonicTimerAnchor) → Keeps P (check_anchor k anchor)
  unfolding check_anchor
  Keeps-check_anchor k none = search keeps_rules
  Keeps-check_anchor k (some anchor) = search (keeps_rules, Keeps-monotonic_now q) depth 8

  pub Keeps-check_boundary : (id : TimerId) (e k : ActionKind) → Keeps P (check_boundary id e k)
  unfolding check_boundary
  Keeps-check_boundary id block_internet k = Keeps-pure tt
  Keeps-check_boundary id shutdown_computer k =
      Keeps-bind _ _ (Keeps-gets _) λ anchor. Keeps-check_anchor k anchor

  pub Keeps-emit_missed : (l : List ScheduledAction) → Keeps P (emit_missed l)
  unfolding emit_missed
  Keeps-emit_missed [] = Keeps-pure tt
  Keeps-emit_missed (a ∷ more) =
      Keeps-bind _ _ (Keeps-ignore _ (Keeps-emit_event q _)) λ _. Keeps-emit_missed more
