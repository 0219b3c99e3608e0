-- ===== src/Runtime/Clock/Wake.antt =====
-- crates/service/src/runtime.rs: the worker wakes up in time.
use palka.Base.{
  ◌+◌, ◌≤◌, ◌≡◌, Bool, true, false, not, ◌&&◌, Option, none, some, List, [], ◌∷◌, ltb, max, All,
  arith, if◌then◌else◌, subst, sym,
}
use palka.Domain.{ScheduledAction, TimerId, ThresholdSet, WarningThreshold}
use palka.Domain.Thresholds.{all, seconds, contains}
use palka.Runtime.State.{Coordinator, MonotonicTimerAnchor, Instant, Duration}
use palka.Runtime.Candidates.{find_action}
use palka.Runtime.Clock.{
  earlier, earliest_threshold, earliest_warning, earliest_timer, earlier_retry, timeout_until,
  next_wake_timeout,
}

-- There is an earliest moment, and it is not after `t`.
abbrev pub NotAfter : Option Instant → Instant → Type 0
NotAfter none t = ⊥
NotAfter (some e) t = e ≤ t

-- The worker waits no longer than to `t`, or does not wait if `t` has passed.
abbrev pub WakesBy : Option Duration → Instant → Instant → Type 0
WakesBy none now t = ⊥
WakesBy (some d) now t = now + d ≤ max now t

earlier-new : (e : Option Instant) (t : Instant) → NotAfter (earlier e t) t
earlier-new none t = omega arith
earlier-new (some e) t = omega arith

earlier-old : (e : Option Instant) (t u : Instant) → NotAfter e u → NotAfter (earlier e t) u
earlier-old none t u h = elim h [ ]
earlier-old (some e) t u h = omega arith

earliest_threshold-old :
    (anchor : MonotonicTimerAnchor) (s : ThresholdSet) (ts : List WarningThreshold)
    (e : Option Instant) (u : Instant)
    → NotAfter e u
    → NotAfter (earliest_threshold anchor s ts e) u
unfolding earliest_threshold
earliest_threshold-old anchor s [] e u h = h
earliest_threshold-old anchor s (t ∷ ts) e u h =
    earliest_threshold-old anchor s ts _ u
      (chosen (ltb (seconds t) anchor.original_duration_seconds && not (contains s t)) _ h)
  where
    chosen : (b : Bool) (v : Instant) → NotAfter e u → NotAfter (if b then earlier e v else e) u
    chosen true v k = earlier-old e v u k
    chosen false v k = k

earliest_warning-old :
    (anchor : MonotonicTimerAnchor) (found : Option ScheduledAction) (e : Option Instant)
    (u : Instant)
    → NotAfter e u
    → NotAfter (earliest_warning anchor found e) u
earliest_warning-old anchor none e u h = h
earliest_warning-old anchor (some a) e u h =
    earliest_threshold-old anchor a.emitted_thresholds all e u h

abbrev Timers : Type 0
Timers = List (TimerId × MonotonicTimerAnchor)

earliest_timer-old :
    (actions : List ScheduledAction) (l : Timers) (e : Option Instant) (u : Instant)
    → NotAfter e u
    → NotAfter (earliest_timer actions l e) u
unfolding earliest_timer
earliest_timer-old actions [] e u h = h
earliest_timer-old actions ((id, anchor) ∷ l) e u h =
    earliest_timer-old actions l _ u
      (earliest_warning-old anchor (find_action id actions) _ u (earlier-old e _ u h))

-- The earliest moment is not after any deadline.
earliest_timer-All :
    (actions : List ScheduledAction) (l : Timers) (e : Option Instant)
    → All
        (λ (t : TimerId × MonotonicTimerAnchor).
          NotAfter (earliest_timer actions l e) t.1.monotonic_target)
        l
unfolding earliest_timer
earliest_timer-All actions [] e = tt
earliest_timer-All actions ((id, anchor) ∷ l) e = (
  earliest_timer-old actions l _ anchor.monotonic_target (
      earliest_warning-old anchor (find_action id actions) _ anchor.monotonic_target
        (earlier-new e anchor.monotonic_target)),
  earliest_timer-All actions l _,
)

earlier_retry-old :
    (e : Option Instant) (r : Option Instant) (u : Instant)
    → NotAfter e u
    → NotAfter (earlier_retry e r) u
earlier_retry-old e none u h = h
earlier_retry-old e (some t) u h = earlier-old e t u h

timeout_until-WakesBy :
    (now : Instant) (e : Option Instant) (u : Instant)
    → NotAfter e u
    → WakesBy (timeout_until now e) now u
timeout_until-WakesBy now none u h = elim h [ ]
timeout_until-WakesBy now (some e) u h = ground arith

wakes :
    (now : Instant) (e r : Option Instant) (l : Timers)
    → All (λ (t : TimerId × MonotonicTimerAnchor). NotAfter e t.1.monotonic_target) l
    → All
        (λ (t : TimerId × MonotonicTimerAnchor).
          WakesBy (timeout_until now (earlier_retry e r)) now t.1.monotonic_target)
        l
wakes now e r [] h = tt
wakes now e r (t ∷ l) h = (
  timeout_until-WakesBy now (earlier_retry e r) t.1.monotonic_target
      (earlier_retry-old e r t.1.monotonic_target h.0),
  wakes now e r l h.1,
)

abbrev pub RetryBy : Option Duration → Instant → Option Instant → Type 0
RetryBy d now none = Unit
RetryBy d now (some at) = WakesBy d now at

retry_wakes :
    (now : Instant) (e r : Option Instant) → RetryBy (timeout_until now (earlier_retry e r)) now r
retry_wakes now e none = tt
retry_wakes now e (some t) = timeout_until-WakesBy now (earlier e t) t (earlier-new e t)

-- While the persistence is healthy, the timeout that the worker waits with ends no later than the
-- deadline of any timer and no later than the retry of the reconciliation, if one is set; it is
-- zero if such a moment has passed.
pub next_wake_timeout-WakesBy :
    (c : Coordinator) (now : Instant)
    → c.health.persistence_healthy ≡ true
    → All
        (λ (t : TimerId × MonotonicTimerAnchor).
          WakesBy (next_wake_timeout c now) now t.1.monotonic_target)
        c.monotonic_timers
      × RetryBy (next_wake_timeout c now) now c.next_retry_at
unfolding next_wake_timeout
next_wake_timeout-WakesBy c now healthy =
    subst
      (λ b.
        All
          (λ (t : TimerId × MonotonicTimerAnchor).
            WakesBy (if not b then none else waits) now t.1.monotonic_target)
          c.monotonic_timers
        × RetryBy (if not b then none else waits) now c.next_retry_at)
      (sym healthy)
      (
        wakes now earliest c.next_retry_at c.monotonic_timers
            (earliest_timer-All c.state.active_actions c.monotonic_timers none),
        retry_wakes now earliest c.next_retry_at,
      )
  where
    earliest : Option Instant
    earliest = earliest_timer c.state.active_actions c.monotonic_timers none

    waits : Option Duration
    waits = timeout_until now (earlier_retry earliest c.next_retry_at)
