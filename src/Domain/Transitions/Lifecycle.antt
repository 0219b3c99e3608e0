-- ===== src/Domain/Transitions/Lifecycle.antt =====
-- crates/core/src/lib.rs: the transition functions against the life cycle of an action as a
-- relation, and any sequence of their calls.
use palka.Base.{
  ℕ, suc, ◌≤◌, ◌<◌, ◌≡◌, ◌⊎◌, inl, inr, ◌↔◌, refl, Bool, true, false, Option, none, some, List, [],
  ◌∷◌, String, any, arith, Option-cases, Bool-cases,
}
use palka.Base.Int.{ℤ, pos, ◌≤ℤ◌, leb_ℤ}
use palka.Domain.{
  ActionKind, block_internet, shutdown_computer, ActionExecutionState, executing, completed, missed,
}
use palka.Domain.Transitions.{
  runtime_deadline_transition, execution_success_transition, execution_failure_transition,
  recovery_overdue_transition, action_state_is_terminal,
}

-- Which of the four functions is asked.
pub data Cause : Type 0 where
  at_deadline on_success on_recovery : Cause
  on_failure : String → Cause

-- Its answer for an action with `remaining` seconds to its deadline.
abbrev pub transition : Cause → ActionKind → ActionExecutionState → ℤ → Option ActionExecutionState
transition at_deadline k s remaining = runtime_deadline_transition s remaining
transition on_success k s remaining = execution_success_transition s
transition (on_failure reason) k s remaining = execution_failure_transition s reason
transition on_recovery k s remaining = recovery_overdue_transition k s remaining

-- What may happen to an action with `remaining` seconds to its deadline. Nothing is started or
-- missed before the deadline, and a shutdown is never carried out after its deadline has passed
-- while the service was down.
pub data Step (remaining : ℤ)
    : Cause → ActionKind → ActionExecutionState → ActionExecutionState → Type 0 where
  start :
      {k : ActionKind}
      → remaining ≤ℤ pos 0
      → Step remaining at_deadline k ActionExecutionState.pending executing
  complete : {k : ActionKind} → Step remaining on_success k executing completed
  fail :
      {k : ActionKind} (reason : String)
      → Step remaining (on_failure reason) k executing (ActionExecutionState.failed reason)
  resume :
      remaining ≤ℤ pos 0
      → Step remaining on_recovery block_internet ActionExecutionState.pending executing
  miss_pending :
      remaining ≤ℤ pos 0
      → Step remaining on_recovery shutdown_computer ActionExecutionState.pending missed
  miss_executing :
      remaining ≤ℤ pos 0 → Step remaining on_recovery shutdown_computer executing missed
  miss_failed :
      (reason : String)
      → remaining ≤ℤ pos 0
      → Step remaining on_recovery shutdown_computer (ActionExecutionState.failed reason) missed

-- Steps that an action may still take.
abbrev rank : ActionExecutionState → ℕ
rank ActionExecutionState.pending = 3
rank ActionExecutionState.executing = 2
rank (ActionExecutionState.failed reason) = 1
rank ActionExecutionState.completed = 0
rank ActionExecutionState.missed = 0

module _ (r : ℤ) where
  Step-transition :
      {cause : Cause} {k : ActionKind} {s t : ActionExecutionState}
      → Step r cause k s t
      → transition cause k s r ≡ some t
  unfolding runtime_deadline_transition execution_success_transition execution_failure_transition
      recovery_overdue_transition
  Step-transition (start due) = ground arith
  Step-transition complete = refl
  Step-transition (fail reason) = refl
  Step-transition (resume due) = ground arith
  Step-transition (miss_pending due) = ground arith
  Step-transition (miss_executing due) = ground arith
  Step-transition (miss_failed reason due) = ground arith

  -- A step whose ends are known up to an equation.
  along :
      {cause : Cause} {k : ActionKind} {s s' t t' : ActionExecutionState}
      → Step r cause k s t
      → s' ≡ s
      → t' ≡ t
      → Step r cause k s' t'
  along {cause} {k} st e f = rw (e, f) st

  deadline-Step :
      (k : ActionKind) (s t : ActionExecutionState)
      → runtime_deadline_transition s r ≡ some t
      → Step r at_deadline k s t
  unfolding runtime_deadline_transition
  deadline-Step k s t h =
      let (due, e, f) : (r ≤ℤ pos 0) × (s ≡ ActionExecutionState.pending) × (t ≡ executing) =
        ground arith in
      along (start due) e f

  success-Step :
      (k : ActionKind) (s t : ActionExecutionState)
      → execution_success_transition s ≡ some t
      → Step r on_success k s t
  unfolding execution_success_transition
  success-Step k s t h =
      let (e, f) : (s ≡ executing) × (t ≡ completed) = ground arith in along complete e f

  failure-Step :
      (k : ActionKind) (s t : ActionExecutionState) (reason : String)
      → execution_failure_transition s reason ≡ some t
      → Step r (on_failure reason) k s t
  unfolding execution_failure_transition
  failure-Step k s t reason h =
      let (e, f) : (s ≡ executing) × (t ≡ ActionExecutionState.failed reason) = ground arith in
      along (fail reason) e f

  recovery-Step :
      (k : ActionKind) (s t : ActionExecutionState)
      → recovery_overdue_transition k s r ≡ some t
      → Step r on_recovery k s t
  unfolding recovery_overdue_transition
  recovery-Step block_internet ActionExecutionState.pending t h =
      along (resume (ground arith)) refl (ground arith)
  recovery-Step block_internet _ t h = absurd (ground arith)
  recovery-Step shutdown_computer ActionExecutionState.pending t h =
      along (miss_pending (ground arith)) refl (ground arith)
  recovery-Step shutdown_computer ActionExecutionState.executing t h =
      along (miss_executing (ground arith)) refl (ground arith)
  recovery-Step shutdown_computer (ActionExecutionState.failed reason) t h =
      along (miss_failed reason (ground arith)) refl (ground arith)
  recovery-Step shutdown_computer _ t h = absurd (ground arith)

  transition-Step :
      (cause : Cause) (k : ActionKind) (s t : ActionExecutionState)
      → transition cause k s r ≡ some t
      → Step r cause k s t
  transition-Step at_deadline k s t h = deadline-Step k s t h
  transition-Step on_success k s t h = success-Step k s t h
  transition-Step (on_failure reason) k s t h = failure-Step k s t reason h
  transition-Step on_recovery k s t h = recovery-Step k s t h

  rank-Step :
      {cause : Cause} {k : ActionKind} {s t : ActionExecutionState}
      → Step r cause k s t
      → rank t < rank s
  rank-Step (start due) = omega arith
  rank-Step complete = omega arith
  rank-Step (fail reason) = omega arith
  rank-Step (resume due) = omega arith
  rank-Step (miss_pending due) = omega arith
  rank-Step (miss_executing due) = omega arith
  rank-Step (miss_failed reason due) = omega arith

  pending-Step :
      {cause : Cause} {k : ActionKind} {t : ActionExecutionState}
      → Step r cause k ActionExecutionState.pending t
      → r ≤ℤ pos 0
  pending-Step (start due) = due
  pending-Step (resume due) = due
  pending-Step (miss_pending due) = due

-- Each of the four functions, for every kind, state and remaining time, answers with a new state
-- exactly when the life cycle has that step for it; before the deadline nothing is started and
-- nothing is missed.
pub transition-eq-some_iff :
    (cause : Cause) (k : ActionKind) (s t : ActionExecutionState) (remaining : ℤ)
    → (transition cause k s remaining ≡ some t) ↔ Step remaining cause k s t
transition-eq-some_iff cause k s t remaining =
    (transition-Step remaining cause k s t, Step-transition remaining)

-- How many of a sequence of calls of the functions, each at its remaining time, answer with a new
-- state, which the action then takes.
abbrev pub taken : ActionKind → ActionExecutionState → List (Cause × ℤ) → ℕ
taken k s [] = 0
taken k s (call ∷ calls) = elim (transition call.0 k s call.1) [
  | none ↦ taken k s calls
  | some t ↦ suc (taken k t calls)
]

abbrev pub is_due_at : Cause × ℤ → Bool
is_due_at call = leb_ℤ call.1 (pos 0)

taken-rank :
    (k : ActionKind) (s : ActionExecutionState) (calls : List (Cause × ℤ))
    → taken k s calls ≤ rank s
taken-rank k s [] = omega arith
taken-rank k s (call ∷ calls) = elim (Option-cases (transition call.0 k s call.1)) [
  | inl refused ↦ ground (arith, refused, taken-rank k s calls)
  | inr (t, answer) ↦
      let less = rank-Step call.1 (transition-Step call.1 call.0 k s t answer) in
      ground (arith, answer, less, taken-rank k t calls)
]

rank-le : (s : ActionExecutionState) → rank s ≤ 3
rank-le s = ground arith

terminal_takes_none :
    (k : ActionKind) (s : ActionExecutionState) (n : ℕ)
    → n ≤ rank s
    → (action_state_is_terminal s ≡ false) ⊎ (n ≡ 0)
unfolding action_state_is_terminal
terminal_takes_none k s n h = ground (arith, h)

taken-pending :
    (k : ActionKind) (calls : List (Cause × ℤ))
    → any is_due_at calls ≡ false
    → taken k ActionExecutionState.pending calls ≡ 0
unfolding any
taken-pending k [] h = refl
taken-pending k (call ∷ calls) h =
    elim (Option-cases (transition call.0 k ActionExecutionState.pending call.1)) [
      | inl refused ↦ ground (arith, refused, taken-pending k calls, h)
      | inr (t, answer) ↦
          let due = pending-Step call.1 (transition-Step call.1 call.0 k _ t answer) in
          absurd (ground (arith, due, h))
    ]

-- Whatever the order in which the four functions are asked, and at whatever remaining times, an
-- action takes at most three new states, none if it starts in a terminal one, and none if it
-- starts pending and no call comes at or after the deadline.
pub taken-bounded :
    (k : ActionKind) (s : ActionExecutionState) (calls : List (Cause × ℤ))
    → (taken k s calls ≤ 3)
      × ((action_state_is_terminal s ≡ false) ⊎ (taken k s calls ≡ 0))
      × ((any is_due_at calls ≡ true) ⊎ (taken k ActionExecutionState.pending calls ≡ 0))
taken-bounded k s calls = (
  omega (arith, taken-rank k s calls, rank-le s),
  terminal_takes_none k s (taken k s calls) (taken-rank k s calls),
  elim (Bool-cases (any is_due_at calls)) [
    | inl due ↦ inl due
    | inr early ↦ inr (taken-pending k calls early)
  ],
)
