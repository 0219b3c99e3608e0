-- ===== src/Runtime/Clock.antt =====
-- crates/service/src/runtime.rs: process_clock_and_events and next_wake_timeout.
pub mod Wake
use palka.Base.{
  ℕ, suc, ◌+◌, ◌-◌, ◌*◌, ◌/◌, ◌≡◌, refl, Bool, true, false, not, ◌&&◌, Option, none, some, List, [],
  ◌∷◌, ◌++◌, Result, ok, err, if◌then◌else◌, ltb, leb, min, is_empty,
}
use palka.Base.Int.{ℤ, pos, wrap_i64}
use palka.Domain.{
  ActionKind, block_internet, shutdown_computer, ScheduledAction, TimerId, WarningThreshold,
  ThresholdSet,
}
use palka.Domain.Thresholds.{all, seconds, contains, crossed_warning_thresholds}
use palka.Persistence.{PersistentState, TelegramOutboxEntry, StateStoreError}
use palka.Runtime.State.{Coordinator, MonotonicTimerAnchor, Instant, Duration}
use palka.Runtime.Action.{when◌then◌else◌, Action, pure, gets, modify, try, ◌>>=◌, ◌>>◌}
use palka.Runtime.Ports.{is_stop_requested, monotonic_now, utc_now, next_outbox_id}
use palka.Runtime.Commit.{commit_authoritative_state}
use palka.Runtime.Candidates.{
  warning_text, notification, find_action, update_action, with_emitted, lookup, insert, keys,
}
use palka.Runtime.Timers.{emit_warnings}
use palka.Runtime.Internet.{process_internet_reconciliation_retry}
use palka.Runtime.Deadlines.{
  execute_scheduled_internet_deadline, execute_scheduled_shutdown_deadline,
}

-- `x as i64` of a `u64`.
abbrev pub as_i64 : ℕ → ℤ
as_i64 n = wrap_i64 (pos n)

unfoldable pub remaining_at : MonotonicTimerAnchor → Instant → ℕ
remaining_at anchor now =
    anchor.original_duration_seconds - (now - anchor.monotonic_start) / 1000000000

abbrev pub crossed_by : ℕ → ℕ → Option ScheduledAction → List WarningThreshold
crossed_by previous current none = []
crossed_by previous current (some a) =
    crossed_warning_thresholds (as_i64 previous) (as_i64 current) a.emitted_thresholds

unfoldable pub crossed_now :
    MonotonicTimerAnchor → ℕ → Option ScheduledAction → List WarningThreshold
crossed_now anchor current found =
    if ltb current anchor.last_evaluated_remaining_seconds
    then crossed_by anchor.last_evaluated_remaining_seconds current found
    else []

-- `if let Some(anchor) = timers.get_mut(&id) { anchor.last_evaluated… = current; }`
abbrev pub cursor_at : ℕ → MonotonicTimerAnchor → MonotonicTimerAnchor
cursor_at current anchor = record anchor { last_evaluated_remaining_seconds = current }

abbrev pub moved_cursor :
    TimerId
    → ℕ
    → Option MonotonicTimerAnchor
    → List (TimerId × MonotonicTimerAnchor)
    → List (TimerId × MonotonicTimerAnchor)
moved_cursor id current none timers = timers
moved_cursor id current (some anchor) timers = insert id (cursor_at current anchor) timers

unfoldable pub advance_cursor : TimerId → ℕ → Coordinator → Coordinator
advance_cursor id current c = record c {
  monotonic_timers = moved_cursor id current (lookup id c.monotonic_timers) c.monotonic_timers;
}

abbrev pub retry_due : Option Instant → Instant → Bool
retry_due none now = false
retry_due (some at) now = leb at now

module _ {E : Type 0} where
  unfoldable pub warning_notifications :
      ActionKind → ℕ → List WarningThreshold → Action E (List TelegramOutboxEntry)
  warning_notifications kind current [] = pure []
  warning_notifications kind current (t ∷ ts) = do
    entry_id ← next_outbox_id
    rest ← warning_notifications kind current ts
    pure (notification entry_id (warning_text kind current) ∷ rest)

  -- The cursor of the anchor moves, and the events are emitted, only once the marks are saved.
  unfoldable pub after_warning_save :
      MonotonicTimerAnchor
      → TimerId
      → ℕ
      → List WarningThreshold
      → Result (Unit {0}) StateStoreError
      → Action E (Unit {0})
  after_warning_save anchor id current crossed (err e) = pure tt
  after_warning_save anchor id current crossed (ok _) = do
    modify (advance_cursor id current)
    now ← utc_now
    emit_warnings id anchor.action_kind anchor.utc_deadline now crossed

  unfoldable pub warn :
      MonotonicTimerAnchor
      → TimerId
      → ℕ
      → List WarningThreshold
      → Option ScheduledAction
      → Action E (Unit {0})
  unfolding after_warning_save
  warn anchor id current crossed none = pure tt
  warn anchor id current crossed (some action) = do
    entries ← warning_notifications action.action_kind current crossed
    state ← gets (λ c. c.state)
    saved ← try (
        commit_authoritative_state (record state {
          active_actions = update_action id (with_emitted crossed) state.active_actions;
          telegram_outbox = state.telegram_outbox ++ entries;
        }))
    after_warning_save anchor id current crossed saved

  -- One timer: whether its deadline has arrived.
  unfoldable pub evaluate_anchor :
      Instant → TimerId → Option MonotonicTimerAnchor → Action E (List (TimerId × ActionKind))
  unfolding warn
  evaluate_anchor now id none = pure []
  evaluate_anchor now id (some anchor) =
      when leb anchor.monotonic_target now then pure ((id, anchor.action_kind) ∷ []) else do
        let current = remaining_at anchor now
        found ← gets (λ c. find_action id c.state.active_actions)
        let crossed = crossed_now anchor current found
        when not (is_empty crossed)
            then warn anchor id current crossed found
            else (when ltb current anchor.last_evaluated_remaining_seconds
                then modify (advance_cursor id current)
                else pure tt)
        pure []

  unfoldable pub evaluate_timers : Instant → List TimerId → Action E (List (TimerId × ActionKind))
  unfolding evaluate_anchor
  evaluate_timers now [] = pure []
  evaluate_timers now (id ∷ ids) = do
    anchor ← gets (λ c. lookup id c.monotonic_timers)
    expired ← evaluate_anchor now id anchor
    rest ← evaluate_timers now ids
    pure (expired ++ rest)

  abbrev pub execute_deadline : TimerId → ActionKind → Action E (Unit {0})
  execute_deadline id block_internet = execute_scheduled_internet_deadline id
  execute_deadline id shutdown_computer = execute_scheduled_shutdown_deadline id

  -- `false` if a stop was requested, which ends the whole evaluation.
  unfoldable pub process_expired : List (TimerId × ActionKind) → Action E Bool
  process_expired [] = pure true
  process_expired ((id, kind) ∷ expired) = do
    stop ← is_stop_requested
    let rest : Action E Bool = process_expired expired
    when stop then pure false else do execute_deadline id kind; rest

  -- A retry that is due waits while the persistence has failed.
  unfoldable pub process_retry : Instant → Action E (Unit {0})
  process_retry now = do
    due ← gets (λ c. retry_due c.next_retry_at now && c.health.persistence_healthy)
    when not due then pure tt else do
      modify (λ c. record c { next_retry_at = none })
      process_internet_reconciliation_retry

  unfoldable pub process_clock_and_events : Action E (Unit {0})
  unfolding process_retry
  process_clock_and_events = do
    stop ← is_stop_requested
    when stop then pure tt else do
      now ← monotonic_now
      ids ← gets (λ c. keys c.monotonic_timers)
      expired ← evaluate_timers now ids
      going ← process_expired expired
      when going then process_retry now else pure tt

-- `earliest = Some(match earliest { Some(e) => e.min(t), None => t })`
abbrev pub earlier : Option Instant → Instant → Option Instant
earlier none t = some t
earlier (some e) t = some (min e t)

unfoldable pub earliest_threshold :
    MonotonicTimerAnchor → ThresholdSet → List WarningThreshold → Option Instant → Option Instant
earliest_threshold anchor emitted [] earliest = earliest
earliest_threshold anchor emitted (t ∷ ts) earliest = earliest_threshold anchor emitted ts (
    if ltb (seconds t) anchor.original_duration_seconds && not (contains emitted t)
    then earlier earliest
        (anchor.monotonic_start + (anchor.original_duration_seconds - seconds t) * 1000000000)
    else earliest)

abbrev pub earliest_warning :
    MonotonicTimerAnchor → Option ScheduledAction → Option Instant → Option Instant
earliest_warning anchor none earliest = earliest
earliest_warning anchor (some a) earliest =
    earliest_threshold anchor a.emitted_thresholds all earliest

unfoldable pub earliest_timer :
    List ScheduledAction → List (TimerId × MonotonicTimerAnchor) → Option Instant → Option Instant
unfolding earliest_threshold
earliest_timer actions [] earliest = earliest
earliest_timer actions ((id, anchor) ∷ timers) earliest =
    earliest_timer actions timers
      (earliest_warning anchor (find_action id actions) (earlier earliest anchor.monotonic_target))

abbrev pub earlier_retry : Option Instant → Option Instant → Option Instant
earlier_retry earliest none = earliest
earlier_retry earliest (some at) = earlier earliest at

abbrev pub timeout_until : Instant → Option Instant → Option Duration
timeout_until now none = none
timeout_until now (some target) = some (if leb target now then 0 else target - now)

-- At the moment `now` of the monotonic clock.
unfoldable pub next_wake_timeout : Coordinator → Instant → Option Duration
unfolding earliest_timer
next_wake_timeout c now =
    if not c.health.persistence_healthy
    then none
    else timeout_until now (
        earlier_retry (earliest_timer c.state.active_actions c.monotonic_timers none)
          c.next_retry_at)
