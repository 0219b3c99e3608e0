-- ===== src/Runtime/Outcomes.antt =====
-- crates/service/src/runtime.rs: what a command does to the state, by how it ended. A command that
-- fails before its save leaves the state as it was.
pub mod Schedule
pub mod Cancel
pub mod Outbox
pub mod Policy
use palka.Base.{ℕ, ◌≡◌, refl, sym, ap, Option, none, some, List, [], ◌∷◌, Result, ok, err}
use palka.Domain.{Event}
use palka.Persistence.{PersistentState, StateStoreError}
use palka.Runtime.State.{Coordinator, Effect, ServiceRuntimeError, persistence}
use palka.Runtime.Action.{Action, modify, map_err, ◌>>=◌}
use palka.Runtime.Action.Keeps.{Keeps, Keeps-bind, Keeps-raise}
use palka.Runtime.Action.Triple.{
  Post, Triple, Triple-bind, Triple-map_err, Triple-raise, Keeps-Triple, Keeps-ends, returned,
  Triple-ends, Triple-fails,
}
use palka.Runtime.Action.Calls.{Triple-given}
use palka.Runtime.Ports.{store_save, saving}
use palka.Runtime.Commit.{after_save, adopt, commit_authoritative_state}
use palka.Runtime.Quiet.{
  Quiet, Keeps-modify, Keeps-mark_persistence_failure, Keeps-mark_persistence_success,
}
use palka.Runtime.Durability.{Quiet_view}
use palka.Runtime.Action.Total.{Total-Triple}
use palka.Runtime.Quiet.Total.{Total-mark_persistence_success}

-- The state is `x`, and `p` is left to save.
abbrev pub Holds : PersistentState → Option PersistentState → Coordinator → Type 0
Holds x p c = (c.state ≡ x) × (c.pending_durable_candidate ≡ p)

pub Holds-Quiet : (x : PersistentState) (p : Option PersistentState) → Quiet (Holds x p)
Holds-Quiet x p = Quiet_view (λ s q t. (s ≡ x) × (q ≡ p)) (λ s q t e h. h)

module _ (x : PersistentState) (p : Option PersistentState) (s : PersistentState) where
  store_save-Holds : Keeps (Holds x p) (store_save {E = StateStoreError} s)
  unfolding store_save ◌>>=◌
  store_save-Holds = record { at = λ c h. h }

  adopt-Holds :
      (R : Coordinator → Type 0)
      → Triple (Holds x p) (modify {E = StateStoreError} (adopt s)) (λ _. Holds s none) R
  unfolding modify
  adopt-Holds R = record { at = λ c h. returned (refl, refl) }

  -- The save succeeded.
  saved-Holds :
      (R : Coordinator → Type 0) (u : Unit {0})
      → Triple (Holds x p) (after_save (adopt s) (λ c. c) (ok u)) (λ _. Holds s none) R
  unfolding after_save
  saved-Holds R u =
      Triple-bind _ _ (λ _. Holds s none) _ _ _ (adopt-Holds R)
        λ _.
          Total-Triple _ _ _ Total-mark_persistence_success
            (Keeps-mark_persistence_success (Holds-Quiet s none))

  -- It failed.
  unsaved-Holds :
      (Q : Unit {0} → Coordinator → Type 0) (e : StateStoreError)
      → Triple (Holds x p) (after_save (adopt s) (λ c. c) (err e)) Q (Holds x p)
  unfolding after_save
  unsaved-Holds Q e =
      Triple-bind _ _ (λ _. Holds x p) _ _ _
        (Keeps-Triple (Holds x p) _ (Keeps-modify (Holds-Quiet x p) (λ c. c) (λ c h. h)))
        λ _.
          Triple-bind _ _ (λ _. Holds x p) _ _ _
            (Keeps-Triple (Holds x p) _ (Keeps-mark_persistence_failure (Holds-Quiet x p) e))
            λ _. Triple-raise (Holds x p) _ e

  adopted :
      (r : Result (Unit {0}) StateStoreError)
      → Triple (Holds x p) (after_save (adopt s) (λ c. c) r) (λ _. Holds s none) (Holds x p)
  adopted (ok u) = saved-Holds (Holds x p) u
  adopted (err e) = unsaved-Holds (λ _. Holds s none) e

  pub commit-Holds :
      Triple
        (Holds x p)
        (map_err persistence (commit_authoritative_state s))
        (λ _. Holds s none)
        (Holds x p)
  unfolding commit_authoritative_state
  commit-Holds =
      Triple-map_err _ _ _ _ _
        (Triple-bind _ _ _ _ _ _ (Keeps-Triple (Holds x p) _ store_save-Holds) λ r. adopted r)

-- The store took the candidate `s`, and it is the state, with nothing left to save.
abbrev pub Adopted :
    Result (Unit {0}) StateStoreError → PersistentState → Unit {0} → Coordinator → Type 0
Adopted answer s u c = (answer ≡ ok tt) × Holds s none c

-- The store refused, and the state is `x` and `p` is left to save.
abbrev pub Refused :
    Result (Unit {0}) StateStoreError
    → PersistentState
    → Option PersistentState
    → Coordinator
    → Type 0
Refused answer x p c = ((e : StateStoreError) × (answer ≡ err e)) × Holds x p c

module _ (s : PersistentState) (c : Coordinator) where
  abbrev answer : Result (Unit {0}) StateStoreError
  answer = c.ports.save c.calls s

  abbrev Unchanged : Coordinator → Type 0
  Unchanged = Holds c.state c.pending_durable_candidate

  abbrev Kept : Coordinator → Type 0
  Kept = Refused answer c.state c.pending_durable_candidate

  store_save-answer :
      Triple
        (λ d. d ≡ c)
        (store_save {E = StateStoreError} s)
        (λ r d. (answer ≡ r) × Unchanged d)
        Kept
  unfolding store_save ◌>>=◌
  store_save-answer = record {
    at = λ d h. returned (
      ap (λ (b : Coordinator). b.ports.save b.calls s) (sym h),
      (
        ap (λ (b : Coordinator). b.state) h,
        ap (λ (b : Coordinator). b.pending_durable_candidate) h,
      ),
    );
  }

  answered :
      (r : Result (Unit {0}) StateStoreError)
      → answer ≡ r
      → Triple Unchanged (after_save (adopt s) (λ d. d) r) (Adopted answer s) Kept
  answered (ok u) q =
      Triple-ends _ _ _ _ _ (λ _ d g. (q, g))
        (saved-Holds c.state c.pending_durable_candidate s _ u)
  answered (err e) q =
      Triple-fails _ _ _ _ _ (λ d g. ((e, q), g))
        (unsaved-Holds c.state c.pending_durable_candidate s _ e)

  commit-answer :
      Triple
        (λ d. d ≡ c)
        (map_err persistence (commit_authoritative_state s))
        (Adopted answer s)
        Kept
  unfolding commit_authoritative_state
  commit-answer =
      Triple-map_err _ _ _ _ _
        (Triple-bind _ _ _ _ _ _ store_save-answer λ r. Triple-given _ _ _ _ _ (λ q. answered r q))

-- A commit before the side effects, from every state: if it returns, the store answered the save
-- of the candidate with success, the candidate is the state and nothing is left to save; if it
-- fails, the store answered with an error, and the state and what is left to save are as they were.
pub commit_authoritative_state-outcome :
    (s : PersistentState) (c : Coordinator)
    → Post
        (Adopted (c.ports.save c.calls s) s)
        (Refused (c.ports.save c.calls s) c.state c.pending_durable_candidate)
        (map_err persistence (commit_authoritative_state s) c).0
        (map_err persistence (commit_authoritative_state s) c).1
commit_authoritative_state-outcome s c = (commit-answer s c).at c refl
