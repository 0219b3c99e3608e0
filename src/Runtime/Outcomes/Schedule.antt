-- ===== src/Runtime/Outcomes/Schedule.antt =====
-- crates/service/src/runtime.rs: what handle_schedule_action does to the state.
use palka.Base.{
  ℕ, suc, ◌*◌, ◌≤◌, ◌≡◌, refl, ap, ◌∙◌, Option, none, List, [], ◌∷◌, ◌++◌, String, All, length, leb,
  ◌==◌, arith,
}
use palka.Base.Int.{pos, ◌+ℤ◌, wrap_i64}
use palka.Base.Text.{◌<>◌, show_ℕ}
use palka.Domain.{
  ActionKind, block_internet, shutdown_computer, Initiator, WarningThreshold, m60, m30, m20, m10,
  m3, ThresholdSet, TimerId, UtcDateTime, ScheduledAction, ActionExecutionState,
}
use palka.Domain.Thresholds.{seconds, contains, creation_due_thresholds}
use palka.Domain.Thresholds.Coverage.{
  occurs, occurs-creation_due, emitted_at_creation, contains-emitted_at_creation,
}
use palka.Persistence.{PersistentState, TelegramOutboxEntry, service_notification}
use palka.Runtime.State.{Coordinator, ServiceRuntimeError, MonotonicTimerAnchor}
use palka.Runtime.Action.{pure, modify, ◌>>=◌}
use palka.Runtime.Action.Triple.{
  Post, Triple, Triple-bind, Triple-read, Triple-pure, Triple-ends, Triple-pre, Keeps-Triple,
}
use palka.Runtime.Action.Calls.{Triple-given, Triple-call}
use palka.Runtime.Action.Total.{Total-Triple, Total-modify}
use palka.Runtime.Candidates.{debug_kind, warning_text}
use palka.Runtime.Ports.{utc_now, monotonic_now, next_timer_id}
use palka.Runtime.Timers.{due_notifications, new_action, announce_scheduled, handle_schedule_action}
use palka.Runtime.Quiet.{Keeps-next_outbox_id}
use palka.Runtime.Quiet.Handlers.{Keeps-set_timers, Keeps-announce_scheduled}
use palka.Runtime.Quiet.Total.{Total-announce_scheduled}
use palka.Runtime.Outcomes.{Holds, Holds-Quiet, commit-Holds}

-- `{:?}` of a kind.
abbrev kind_word : ActionKind → String
kind_word block_internet = "BlockInternet"
kind_word shutdown_computer = "ShutdownComputer"

-- One notification for each threshold, in order, that was not yet tried and tells what is left.
abbrev pub Announces : ActionKind → List WarningThreshold → List TelegramOutboxEntry → Type 0
Announces k [] [] = Unit
Announces k (d ∷ ds) (e ∷ es) =
    (e.payload
      ≡ service_notification (
          "Warning: Action "
          <> kind_word k
          <> " has "
          <> show_ℕ (seconds d)
          <> " seconds remaining"))
    × (e.attempt_count ≡ 0)
    × (e.last_error ≡ none)
    × Announces k ds es
Announces k _ _ = ⊥

same_word : (k : ActionKind) → debug_kind k ≡ kind_word k
same_word block_internet = refl
same_word shutdown_computer = refl

due_notifications-Announces :
    (x : PersistentState) (p : Option PersistentState) (k : ActionKind) (ds : List WarningThreshold)
    → Triple
        (Holds x p)
        (due_notifications {E = ServiceRuntimeError} k ds)
        (λ entries c. Announces k ds entries × Holds x p c)
        (Holds x p)
unfolding due_notifications
due_notifications-Announces x p k [] = Triple-pure _ _ _ _ (λ c h. (tt, h))
due_notifications-Announces x p k (d ∷ ds) =
    Triple-bind _ _ (λ _. Holds x p) _ _ _
      (Keeps-Triple (Holds x p) _ (Keeps-next_outbox_id (Holds-Quiet x p)))
      λ id.
        Triple-bind _ _ _ _ _ _ (due_notifications-Announces x p k ds)
          λ rest. Triple-pure _ _ _ _ (λ c h. ((worded, refl, refl, h.0), h.1))
  where
    worded :
        service_notification (warning_text k (seconds d))
        ≡ service_notification (
            "Warning: Action "
            <> kind_word k
            <> " has "
            <> show_ℕ (seconds d)
            <> " seconds remaining")
    worded =
        ap
          (λ w.
            service_notification
              ("Warning: Action " <> w <> " has " <> show_ℕ (seconds d) <> " seconds remaining"))
          (same_word k)

-- The action that is added, when the clock shows `now`.
abbrev pub scheduled_action :
    ActionKind → ℕ → Initiator → UtcDateTime → TimerId → ThresholdSet → ScheduledAction
scheduled_action k n i now id marks = record {
  id = id;
  action_kind = k;
  deadline = record { at = record { millis = wrap_i64 (now.millis +ℤ pos (n * 1000)) } };
  created_at = now;
  created_by = i;
  emitted_thresholds = marks;
  execution_state = ActionExecutionState.pending;
}

abbrev each_threshold : List WarningThreshold
each_threshold = m60 ∷ m30 ∷ m20 ∷ m10 ∷ m3 ∷ []

each : (P : WarningThreshold → Type 0) → ((t : WarningThreshold) → P t) → All P each_threshold
each P f = (f m60, (f m30, (f m20, (f m10, (f m3, tt)))))

-- The marks are the thresholds at or above the duration.
abbrev pub AreMarks : ℕ → ThresholdSet → Type 0
AreMarks n marks = All (λ t. contains marks t ≡ leb n (seconds t)) each_threshold

-- The threshold that is exactly the duration, if there is one.
abbrev pub AreDue : ℕ → List WarningThreshold → Type 0
AreDue n due = All (λ t. occurs t due ≡ (n == seconds t)) each_threshold × (length due ≤ 1)

creation-AreMarks : (n : ℕ) → AreMarks n (emitted_at_creation n)
creation-AreMarks n =
    each (λ t. contains (emitted_at_creation n) t ≡ leb n (seconds t))
      (contains-emitted_at_creation n)

creation-AreDue : (n : ℕ) → AreDue n (creation_due_thresholds n)
unfolding creation_due_thresholds
creation-AreDue n = (
  each (λ t. occurs t (creation_due_thresholds n) ≡ (n == seconds t)) (occurs-creation_due n),
  ground arith,
)

-- The coordinator after the action `id` was scheduled in `c`.
abbrev pub Scheduled : ActionKind → ℕ → Initiator → Coordinator → TimerId → Coordinator → Type 0
Scheduled k n i c id d =
    (id ≡ c.ports.next_timer_id (suc (suc c.calls)))
    × (marks : ThresholdSet) × (due : List WarningThreshold) × (entries : List TelegramOutboxEntry)
    × AreMarks n marks
    × AreDue n due
    × Announces k due entries
    × (d.state ≡ record c.state {
      active_actions =
          c.state.active_actions ++ scheduled_action k n i (c.ports.utc_now c.calls) id marks ∷ [];
      telegram_outbox = c.state.telegram_outbox ++ entries;
    })
    × (d.pending_durable_candidate ≡ none)

module _ (k : ActionKind) (n : ℕ) (i : Initiator) (c : Coordinator) where
  abbrev Unchanged : Coordinator → Type 0
  Unchanged = Holds c.state c.pending_durable_candidate

  set_up :
      (s : PersistentState) (id : TimerId) (a : ScheduledAction) (due : List WarningThreshold)
      (f : Coordinator → List (TimerId × MonotonicTimerAnchor))
      → Triple
          (Holds s none)
          (modify {E = ServiceRuntimeError} (λ d. record d { monotonic_timers = f d }) >>= λ _.
            announce_scheduled a due >>= λ _. pure id)
          (λ r d. (r ≡ id) × Holds s none d)
          Unchanged
  set_up s id a due f =
      Triple-bind _ _ (λ _. Holds s none) _ _ _
        (Total-Triple _ _ _ (Total-modify _) (Keeps-set_timers (Holds-Quiet s none) f))
        λ _.
          Triple-bind _ _ (λ _. Holds s none) _ _ _
            (Total-Triple _ _ _ (Total-announce_scheduled a due)
              (Keeps-announce_scheduled (Holds-Quiet s none) a due))
            λ _. Triple-pure _ _ _ _ (λ d h. (refl, h))

  -- The state that is committed, from the state that was read.
  extended :
      (now : UtcDateTime) (id : TimerId) (entries : List TelegramOutboxEntry) (b : Coordinator)
      → b.state ≡ c.state
      → now ≡ c.ports.utc_now c.calls
      → (r : TimerId) → r ≡ id
      → record b.state {
        active_actions = b.state.active_actions ++ new_action id k now n i ∷ [];
        telegram_outbox = b.state.telegram_outbox ++ entries;
      }
        ≡ record c.state {
          active_actions =
              c.state.active_actions
              ++ scheduled_action k n i (c.ports.utc_now c.calls) r (emitted_at_creation n) ∷ [];
          telegram_outbox = c.state.telegram_outbox ++ entries;
        }
  unfolding new_action
  extended now id entries b h e r q = cc (h, e, q)

  scheduled : Triple (λ d. d ≡ c) (handle_schedule_action k n i) (Scheduled k n i c) Unchanged
  unfolding handle_schedule_action utc_now monotonic_now next_timer_id
  scheduled = Triple-bind _ _ _ _ _ _ (Triple-call c _ _) λ now. Triple-given _ _ _ _ _ λ clock.
      Triple-bind _ _ _ _ _ _ (Triple-call _ _ _) λ mono. Triple-given _ _ _ _ _ λ _.
        Triple-bind _ _ _ _ _ _ (Triple-call _ _ _) λ id. Triple-given _ _ _ _ _ λ drawn.
          Triple-pre _ _ _ _ _
            (λ d h. (
              ap (λ (b : Coordinator). b.state) h,
              ap (λ (b : Coordinator). b.pending_durable_candidate) h,
            ))
            (Triple-bind _ _ _ _ _ _ (due_notifications-Announces _ _ k _) λ entries.
              Triple-read _ _ _ _ _ λ b h.
                Triple-pre _ _ _ _ _ (λ d g. g.1)
                  (Triple-bind _ _ _ _ _ _ (commit-Holds _ _ _) λ _.
                    Triple-ends _ _ _ _ _
                      (λ r d g. (
                        g.0 ∙ drawn,
                        emitted_at_creation n,
                        creation_due_thresholds n,
                        entries,
                        creation-AreMarks n,
                        creation-AreDue n,
                        h.0,
                        g.1.0 ∙ extended now id entries b h.1.0 clock r g.0,
                        g.1.1,
                      ))
                      (set_up _ id _ _ _)))

-- Scheduling an action, from every state and for every answers of the ports. If it returns an
-- identifier, that is the one drawn, and the actions end with one new, pending action with that
-- identifier and the given kind and initiator: it was created at the reading of the clock, its
-- deadline is that reading plus 1000 milliseconds for each second of the duration, wrapped to
-- `i64`, and its marks are the thresholds at or above the duration. The outbox ends with one
-- notification, with its text, if a threshold equals the duration, and with none otherwise. Nothing
-- else is changed, and nothing is left to save. If it fails, the state and what is left to save are
-- as they were.
pub handle_schedule_action-outcome :
    (k : ActionKind) (n : ℕ) (i : Initiator) (c : Coordinator)
    → Post
        (Scheduled k n i c)
        (Holds c.state c.pending_durable_candidate)
        (handle_schedule_action k n i c).0
        (handle_schedule_action k n i c).1
handle_schedule_action-outcome k n i c = (scheduled k n i c).at c refl
