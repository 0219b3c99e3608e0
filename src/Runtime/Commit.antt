-- ===== src/Runtime/Commit.antt =====
-- crates/service/src/runtime.rs: the ways in which a candidate state becomes the state.
use palka.Base.{Option, none, some, Result, ok, err}
use palka.Persistence.{PersistentState, StateStoreError}
use palka.Runtime.State.{Coordinator}
use palka.Runtime.Action.{Action, pure, raise, gets, modify, ◌>>=◌, ◌>>◌}
use palka.Runtime.Ports.{store_save}
use palka.Runtime.Events.{mark_persistence_failure, mark_persistence_success}

-- What follows a save that succeeded, and one that failed, with the changes made at once.
unfoldable pub after_save :
    (Coordinator → Coordinator)
    → (Coordinator → Coordinator)
    → Result (Unit {0}) StateStoreError
    → Action StateStoreError (Unit {0})
after_save on_ok on_err (ok _) = do modify on_ok; mark_persistence_success
after_save on_ok on_err (err e) = do modify on_err; mark_persistence_failure e; raise e

-- The state is the candidate, and nothing is left to save.
abbrev pub adopt : PersistentState → Coordinator → Coordinator
adopt s c = record c { state = s; pending_durable_candidate = none }

-- Save first: only a candidate that was saved becomes the state.
unfoldable pub commit_authoritative_state : PersistentState → Action StateStoreError (Unit {0})
unfolding after_save
commit_authoritative_state candidate = do
  r ← store_save candidate
  after_save (adopt candidate) (λ c. c) r

-- After a side effect the candidate is the state at once, and is kept for a later save if this one
-- fails.
unfoldable pub commit_post_side_effect_candidate :
    PersistentState → Action StateStoreError (Unit {0})
unfolding after_save
commit_post_side_effect_candidate candidate = do
  modify (λ c. record c { state = candidate })
  r ← store_save candidate
  after_save (λ c. record c { pending_durable_candidate = none })
      (λ c. record c { pending_durable_candidate = some candidate }) r

unfoldable pub flush_pending : Option PersistentState → Action StateStoreError (Unit {0})
unfolding after_save
flush_pending none = pure tt
flush_pending (some pending) = do r ← store_save pending; after_save (adopt pending) (λ c. c) r

unfoldable pub flush_pending_durable_candidate : Action StateStoreError (Unit {0})
unfolding flush_pending
flush_pending_durable_candidate = do
  pending ← gets (λ c. c.pending_durable_candidate)
  flush_pending pending
