-- ===== src/Runtime/Outcomes/Cancel.antt =====
-- crates/service/src/runtime.rs: what handle_cancel_exact_timer does to the state.
use palka.Base.{
  ℕ, ◌+◌, ◌≤◌, ◌≡◌, ◌≢◌, List, [], ◌∷◌, ◌++◌, All, length-append, retain, Bool-cases, inl, inr,
  refl, sym, ap, ◌∙◌, Bool, true, false, not, Option, none, some, length, ◌==◌, arith, subst,
}
use palka.Domain.{
  ActionKind, action_kind_eq, Initiator, TimerId, timer_id_eq, ScheduledAction,
  ActionExecutionState,
}
use palka.Domain.Transitions.{is_pending}
use palka.Persistence.{PersistentState}
use palka.Runtime.State.{
  Coordinator, ServiceRuntimeError, TimerCancellationResult, cancelled, already_absent,
  timer_kind_mismatch,
}
use palka.Runtime.Action.{when◌then◌else◌, Action}
use palka.Runtime.Action.Keeps.{Keeps-ignore}
use palka.Runtime.Action.Triple.{
  Post, Triple, Triple-bind, Triple-read, Triple-pure, Triple-raise, Keeps-Triple,
}
use palka.Runtime.Action.Total.{Total-Triple, Total-modify, Total-ignore}
use palka.Runtime.Candidates.{find_action, without_action}
use palka.Runtime.Timers.{
  commit_cancellation, refuse_cancelling, cancel_found, handle_cancel_exact_timer,
}
use palka.Runtime.Quiet.{Keeps-emit_event}
use palka.Runtime.Quiet.Handlers.{Keeps-set_timers, Keeps-check_boundary, Keeps-sync_if_shutdown}
use palka.Runtime.Quiet.Total.{Total-sync_if_shutdown}
use palka.Runtime.Outcomes.{Holds, Holds-Quiet, commit-Holds}

-- None of the actions has the identifier.
abbrev pub HasNone : TimerId → List ScheduledAction → Type 0
HasNone id = All (λ a. timer_id_eq a.id id ≡ false)

-- `a` is the first action with the identifier, and stands between the two lists.
abbrev pub IsFirst :
    TimerId
    → List ScheduledAction
    → List ScheduledAction
    → ScheduledAction
    → List ScheduledAction
    → Type 0
IsFirst id l before a after =
    (l ≡ before ++ a ∷ after) × (timer_id_eq a.id id ≡ true) × HasNone id before

-- What each answer means, when the state was `x` before.
abbrev pub Cancelled :
    TimerId
    → ActionKind
    → PersistentState
    → Option PersistentState
    → TimerCancellationResult
    → Coordinator
    → Type 0
Cancelled id k x p cancelled c =
    (before after : List ScheduledAction) × (a : ScheduledAction) × IsFirst id x.active_actions
      before a after
    × (a.action_kind ≡ k)
    × (a.execution_state ≡ ActionExecutionState.pending)
    × HasNone id after
    × Holds (record x { active_actions = before ++ after }) none c
Cancelled id k x p already_absent c = HasNone id x.active_actions × Holds x p c
Cancelled id k x p timer_kind_mismatch c =
    ((before after : List ScheduledAction) × (a : ScheduledAction) × IsFirst id x.active_actions
        before a after
      × (a.action_kind ≢ k))
    × Holds x p c

-- What `find_action` finds.
find_action-eq-none :
    (id : TimerId) (l : List ScheduledAction) → find_action id l ≡ none → HasNone id l
unfolding find_action
find_action-eq-none id [] h = tt
find_action-eq-none id (b ∷ l) h =
    let parts : (timer_id_eq b.id id ≡ false) × (find_action id l ≡ none) = ground (arith, h) in
    (parts.0, find_action-eq-none id l parts.1)

find_action-eq-some :
    (id : TimerId) (l : List ScheduledAction) (a : ScheduledAction)
    → find_action id l ≡ some a
    → (before after : List ScheduledAction) × IsFirst id l before a after
unfolding find_action
find_action-eq-some id [] a h = absurd (ground (arith, h))
find_action-eq-some id (b ∷ l) a h = elim (Bool-cases (timer_id_eq b.id id)) [
  | inl same ↦
      let e : b ≡ a = ground (arith, h, same) in
      ([], l, (ap (λ (d : ScheduledAction). d ∷ l) e, cc (same, e), tt))
  | inr other ↦
      let (before, after, (whole, same, none_before)) =
        find_action-eq-some id l a (ground (arith, h, other)) in
      (
        b ∷ before,
        after,
        (ap (λ (t : List ScheduledAction). b ∷ t) whole, same, (other, none_before)),
      )
]

-- What `without_action` leaves: all but the actions with the identifier.
without_action-length :
    (id : TimerId) (l : List ScheduledAction) → length (without_action id l) ≤ length l
unfolding without_action retain
without_action-length id [] = omega arith
without_action-length id (b ∷ l) = ground (arith, without_action-length id l)

without_action-all :
    (id : TimerId) (l : List ScheduledAction)
    → length (without_action id l) ≡ length l
    → HasNone id l × (without_action id l ≡ l)
unfolding without_action retain
without_action-all id [] h = (tt, refl)
without_action-all id (b ∷ l) h = elim (Bool-cases (timer_id_eq b.id id)) [
  | inl same ↦ absurd (ground (arith, h, same, without_action-length id l))
  | inr other ↦
      let (absent, whole) = without_action-all id l (ground (arith, h, other)) in
      ((other, absent), ground (arith, other, whole))
]

without_action-append :
    (id : TimerId) (before : List ScheduledAction) (a : ScheduledAction)
    (after : List ScheduledAction)
    → HasNone id before
    → timer_id_eq a.id id ≡ true
    → without_action id (before ++ a ∷ after) ≡ before ++ without_action id after
unfolding without_action retain
without_action-append id [] a after absent same = ground (arith, same)
without_action-append id (b ∷ before) a after absent same =
    let ih = without_action-append id before a after absent.1 same in ground (arith, absent.0, ih)

-- The removal of exactly one action removes the first, and there is no other.
without_action-one :
    (id : TimerId) (l before : List ScheduledAction) (a : ScheduledAction)
    (after : List ScheduledAction)
    → IsFirst id l before a after
    → length (without_action id l) + 1 ≡ length l
    → HasNone id after × (without_action id l ≡ before ++ after)
without_action-one id l before a after (whole, same, absent) one =
    let split : without_action id l ≡ before ++ without_action id after =
      ap (without_action id) whole ∙ without_action-append id before a after absent same in
    let count : length (without_action id after) ≡ length after = omega (
      arith,
      one,
      ap length split,
      ap length whole,
      length-append before (without_action id after),
      length-append before (a ∷ after),
    ) in
    let (none_after, left) = without_action-all id after count in
    (none_after, split ∙ ap (λ (t : List ScheduledAction). before ++ t) left)

action_kind_eq_sound : (k l : ActionKind) → action_kind_eq k l ≡ true → k ≡ l
action_kind_eq_sound k l h = ground arith

action_kind_eq_complete : (k l : ActionKind) → action_kind_eq k l ≡ false → k ≢ l
action_kind_eq_complete k l h = ground arith

is_pending_sound :
    (s : ActionExecutionState) → is_pending s ≡ true → s ≡ ActionExecutionState.pending
is_pending_sound s h = ground arith

equal : (m n : ℕ) → (m == n) ≡ true → m ≡ n
equal m n h = ground arith

-- The conditional on a test, with its outcome known in the branches.
module _ (x : PersistentState) (p : Option PersistentState) (id : TimerId) (k : ActionKind) where
  abbrev Outcome : Action ServiceRuntimeError TimerCancellationResult → Type 0
  Outcome m = Triple (Holds x p) m (Cancelled id k x p) (Holds x p)

  tested :
      (b : Bool) (m n : Action ServiceRuntimeError TimerCancellationResult)
      → (b ≡ false → Outcome m)
      → (b ≡ true → Outcome n)
      → Outcome (when not b then m else n)
  unfolding when◌then◌else◌
  tested true m n tm tn = record { at = λ c h. (tn refl).at c h }
  tested false m n tm tn = record { at = λ c h. (tm refl).at c h }

  removed :
      (a : ScheduledAction)
      → find_action id x.active_actions ≡ some a
      → action_kind_eq a.action_kind k ≡ true
      → is_pending a.execution_state ≡ true
      → (d : Coordinator)
      → length (without_action id x.active_actions) + 1 ≡ length x.active_actions
      → Holds (record x { active_actions = without_action id x.active_actions }) none d
      → Cancelled id k x p cancelled d
  removed a found kind waits d one g =
      let (before, after, first) = find_action-eq-some id x.active_actions a found in
      let (none_after, kept) = without_action-one id x.active_actions before a after first one in
      (
        before,
        after,
        a,
        first,
        action_kind_eq_sound a.action_kind k kind,
        is_pending_sound a.execution_state waits,
        none_after,
        (g.0 ∙ ap (λ (l : List ScheduledAction). record x { active_actions = l }) kept, g.1),
      )

  -- A removal of one element, by the code's test.
  committed :
      (a : ScheduledAction)
      → find_action id x.active_actions ≡ some a
      → action_kind_eq a.action_kind k ≡ true
      → is_pending a.execution_state ≡ true
      → Outcome (commit_cancellation id k)
  unfolding commit_cancellation
  committed a found kind waits = Triple-read _ _ _ _ _ λ c h.
      tested
        (length (without_action id c.state.active_actions) + 1 == length c.state.active_actions) _ _
        (λ _. Triple-raise _ _ _)
        λ one.
          Triple-bind _ _ (λ _. Holds (left c.state) none) _ _ _ (commit-Holds x p _)
            λ _.
              Triple-bind _ _ (λ _. Holds (left c.state) none) _ _ _
                (Total-Triple _ _ _ (Total-modify _) (Keeps-set_timers (Holds-Quiet _ none) _))
                λ _.
                  Triple-bind _ _ (λ _. Holds (left c.state) none) _ _ _
                    (Total-Triple _ _ _ (Total-ignore _)
                      (Keeps-ignore _ (Keeps-emit_event (Holds-Quiet _ none) _)))
                    λ _.
                      Triple-bind _ _ (λ _. Holds (left c.state) none) _ _ _
                        (Total-Triple _ _ _ (Total-sync_if_shutdown k)
                          (Keeps-sync_if_shutdown (Holds-Quiet _ none) k))
                        λ _. Triple-pure _ _ _ _ λ d g.
                          removed a found kind waits d (counted c.state h.0 one)
                            (g.0 ∙ ap left h.0, g.1)
    where
      left : PersistentState → PersistentState
      left s = record s { active_actions = without_action id s.active_actions }

      counted :
          (s : PersistentState)
          → s ≡ x
          → (length (without_action id s.active_actions) + 1 == length s.active_actions) ≡ true
          → length (without_action id x.active_actions) + 1 ≡ length x.active_actions
      counted s q one =
          subst
            (λ (y : PersistentState).
              length (without_action id y.active_actions) + 1 ≡ length y.active_actions)
            q (equal _ _ one)

  cancel_found-Outcome :
      (found : Option ScheduledAction)
      → find_action id x.active_actions ≡ found
      → Outcome (cancel_found id k found)
  unfolding cancel_found refuse_cancelling
  cancel_found-Outcome none absent =
      Triple-pure _ _ _ _ (λ c h. (find_action-eq-none id x.active_actions absent, h))
  cancel_found-Outcome (some a) found =
      tested (action_kind_eq a.action_kind k) _ _
        (λ other. Triple-pure _ _ _ _ λ c h.
          let (before, after, first) = find_action-eq-some id x.active_actions a found in
          ((before, after, a, first, action_kind_eq_complete a.action_kind k other), h))
        λ kind.
          tested (is_pending a.execution_state) _ _
            (λ _. Triple-read _ _ _ _ _ (λ c h. Triple-raise _ _ _))
            λ waits.
              Triple-bind _ _ (λ _. Holds x p) _ _ _
                (Keeps-Triple (Holds x p) _
                  (Keeps-check_boundary (Holds-Quiet x p) id k a.action_kind))
                λ _. committed a found kind waits

  cancel-Outcome : (i : Initiator) → Outcome (handle_cancel_exact_timer id k i)
  unfolding handle_cancel_exact_timer
  cancel-Outcome i = Triple-read _ _ _ _ _ λ c h.
      cancel_found-Outcome (find_action id c.state.active_actions)
        (ap (λ (s : PersistentState). find_action id s.active_actions) (sym h.0))

-- Cancelling the timer `id` of the kind `k`, from every state and for every answers of the ports.
-- The answer `cancelled` means that exactly one action had the identifier, that it had the kind `k`
-- and was pending, that it was removed while all the others stay in their places, and that nothing
-- else of the state was changed. The other two answers mean that no action has the identifier, or
-- that the first one with it is of another kind. With them, and if it fails, the state and what is
-- left to save are as they were.
pub handle_cancel_exact_timer-outcome :
    (id : TimerId) (k : ActionKind) (i : Initiator) (c : Coordinator)
    → Post
        (Cancelled id k c.state c.pending_durable_candidate)
        (Holds c.state c.pending_durable_candidate)
        (handle_cancel_exact_timer id k i c).0
        (handle_cancel_exact_timer id k i c).1
handle_cancel_exact_timer-outcome id k i c =
    (cancel-Outcome c.state c.pending_durable_candidate id k i).at c (refl, refl)
