-- ===== src/Runtime/Durability.antt =====
-- crates/service/src/runtime.rs: what the coordinator knows is durable, and the order of saves and
-- side effects. The predicates are about the state, the candidate that is still to be saved and
-- the trace; `boot` is the state that was loaded at the start.
pub mod Handlers
pub mod Gate
pub mod Policy
pub mod Shutdown
pub mod Clock
pub mod Recovery
pub mod Deadlines
pub mod Runs
use palka.Base.{
  ℕ, suc, ◌≡◌, refl, sym, ap, ◌∙◌, Bool, true, Option, none, some, List, [], ◌∷◌, Result, ok, err,
  any, arith,
}
use palka.Domain.{ScheduledAction, DesiredInternetState, Event}
use palka.Domain.Transitions.{is_executing}
use palka.Persistence.{PersistentState, StateStoreError}
use palka.Runtime.State.{
  Coordinator, Effect, saved, save_failed, blocks_internet, unblocks_internet, reads_internet,
  initiates_shutdown, emits,
}
use palka.Runtime.Action.{Action, pure, raise, gets, call, modify, note, ◌>>=◌, ◌>>◌}
use palka.Runtime.Action.Keeps.{Keeps, keeps_rules, Keeps-bind, Keeps-raise}
use palka.Runtime.Action.Triple.{
  Post, returned, raised, Triple, Keeps-Triple, Triple-Keeps, Triple-bind, Keeps-weaken, Keeps-ends,
  Triple-raise, Triple-ends,
}
use palka.Runtime.Ports.{store_save, saving}
use palka.Runtime.Commit.{
  after_save, adopt, commit_authoritative_state, commit_post_side_effect_candidate, flush_pending,
  flush_pending_durable_candidate,
}
use palka.Runtime.Quiet.{
  Quiet, Keeps-modify, Keeps-mark_persistence_failure, Keeps-mark_persistence_success,
}

-- The last state that was saved.
abbrev pub last_saved : PersistentState → List Effect → PersistentState
last_saved boot [] = boot
last_saved boot (saved s ∷ t) = s
last_saved boot (save_failed s ∷ t) = last_saved boot t
last_saved boot (blocks_internet ∷ t) = last_saved boot t
last_saved boot (unblocks_internet ∷ t) = last_saved boot t
last_saved boot (reads_internet ∷ t) = last_saved boot t
last_saved boot (initiates_shutdown ∷ t) = last_saved boot t
last_saved boot (emits e ∷ t) = last_saved boot t

abbrev pub has_executing : PersistentState → Bool
has_executing s = any (λ a. is_executing a.execution_state) s.active_actions

-- Each change of the gate carries out the policy that was saved last before it, and each shutdown
-- an action that was saved as executing.
abbrev pub Justified : PersistentState → List Effect → Type 0
Justified boot [] = Unit
Justified boot (blocks_internet ∷ t) =
    ((last_saved boot t).desired_internet_state ≡ DesiredInternetState.blocked) × Justified boot t
Justified boot (unblocks_internet ∷ t) =
    ((last_saved boot t).desired_internet_state ≡ DesiredInternetState.unrestricted)
    × Justified boot t
Justified boot (initiates_shutdown ∷ t) =
    (has_executing (last_saved boot t) ≡ true) × Justified boot t
Justified boot (saved s ∷ t) = Justified boot t
Justified boot (save_failed s ∷ t) = Justified boot t
Justified boot (reads_internet ∷ t) = Justified boot t
Justified boot (emits e ∷ t) = Justified boot t

-- With nothing left to save the state is the one saved last; otherwise it is what is left to save.
abbrev pub Kept : Option PersistentState → PersistentState → PersistentState → Type 0
Kept none s last = s ≡ last
Kept (some p) s last = s ≡ p

abbrev pub Sound : PersistentState → PersistentState → Option PersistentState → List Effect → Type 0
Sound boot s p t =
    (s.desired_internet_state ≡ (last_saved boot t).desired_internet_state)
    × Kept p s (last_saved boot t)
    × Justified boot t

abbrev pub IsSound : PersistentState → Coordinator → Type 0
IsSound boot c = Sound boot c.state c.pending_durable_candidate c.trace

-- With a known policy.
abbrev pub IsSoundAt : PersistentState → DesiredInternetState → Coordinator → Type 0
IsSoundAt boot d c = IsSound boot c × (c.state.desired_internet_state ≡ d)

-- With a state that is saved.
abbrev pub HasSaved : PersistentState → PersistentState → Coordinator → Type 0
HasSaved boot s c = IsSound boot c × (c.state ≡ s) × (last_saved boot c.trace ≡ s)

-- Predicates of the state, the candidate left to save and the trace, but for the events.
pub Quiet_view :
    (V : PersistentState → Option PersistentState → List Effect → Type 0)
    → ((s : PersistentState) (p : Option PersistentState) (t : List Effect) (e : Event)
        → V s p t
        → V s p (emits e ∷ t))
    → Quiet (λ c. V c.state c.pending_durable_candidate c.trace)
Quiet_view V h = record {
  calls = λ c n p. p;
  emitted = λ c e p. h c.state c.pending_durable_candidate c.trace e p;
  health = λ c x p. p;
  subscribers = λ c l p. p;
  errors = λ c p g w r x. x;
  shutdown = λ c s p. p;
  retry = λ c t p. p;
  timers = λ c m p. p;
}

module _ (boot : PersistentState) where
  pub IsSound-Quiet : Quiet (IsSound boot)
  IsSound-Quiet = Quiet_view (Sound boot) (λ s p t e h. h)

  pub IsSoundAt-Quiet : (d : DesiredInternetState) → Quiet (IsSoundAt boot d)
  IsSoundAt-Quiet d =
      Quiet_view (λ s p t. Sound boot s p t × (s.desired_internet_state ≡ d)) (λ s p t e h. h)

  pub HasSaved-Quiet : (x : PersistentState) → Quiet (HasSaved boot x)
  HasSaved-Quiet x =
      Quiet_view (λ s p t. Sound boot s p t × (s ≡ x) × (last_saved boot t ≡ x)) (λ s p t e h. h)

  -- After a save of `s`: on success it is the last saved one, and what held of the state alone
  -- still holds; on failure nothing that matters has changed.
  abbrev AfterSave :
      PersistentState
      → (PersistentState → Type 0)
      → (PersistentState → Option PersistentState → List Effect → Type 0)
      → Result (Unit {0}) StateStoreError
      → Coordinator
      → Type 0
  AfterSave s W V (ok _) c = Justified boot c.trace × (last_saved boot c.trace ≡ s) × W c.state
  AfterSave s W V (err e) c = V c.state c.pending_durable_candidate c.trace

  -- What a predicate gives before the effect of the save is noted.
  abbrev Survives :
      PersistentState
      → (PersistentState → Type 0)
      → (PersistentState → Option PersistentState → List Effect → Type 0)
      → Type 0
  Survives s W V =
      (x : PersistentState) (p : Option PersistentState) (t : List Effect)
      → V x p t
      → Justified boot t × W x × V x p (save_failed s ∷ t)

  module _ (s : PersistentState) (W : PersistentState → Type 0)
      (V : PersistentState → Option PersistentState → List Effect → Type 0)
      (w : Survives s W V) where
    saving-AfterSave :
        (r : Result (Unit {0}) StateStoreError) (c : Coordinator)
        → V c.state c.pending_durable_candidate c.trace
        → AfterSave s W V r (record c { calls = suc c.calls; trace = saving s r ∷ c.trace })
    saving-AfterSave (ok _) c h =
        let k = w c.state c.pending_durable_candidate c.trace h in (k.0, refl, k.1)
    saving-AfterSave (err e) c h = (w c.state c.pending_durable_candidate c.trace h).2

    store_save-AfterSave :
        {E : Type 0} (R : Coordinator → Type 0)
        → Triple
            (λ c. V c.state c.pending_durable_candidate c.trace)
            (store_save {E = E} s)
            (AfterSave s W V)
            R
    unfolding store_save ◌>>=◌
    store_save-AfterSave R = record {
      at = λ c h. returned (saving-AfterSave (c.ports.save c.calls s) c h);
    }

  module _ {E : Type 0} where
    Keeps-marked :
        (x : PersistentState)
        → Keeps (HasSaved boot x) (palka.Runtime.Events.mark_persistence_success {E = E})
    Keeps-marked x = Keeps-mark_persistence_success (HasSaved-Quiet x)

    -- A candidate that was saved is the state, and nothing is left to save.
    adopt-HasSaved :
        (s : PersistentState)
        → Triple
            (λ c. Justified boot c.trace × (last_saved boot c.trace ≡ s) × Unit {0})
            (modify {E = E} (adopt s))
            (λ _. HasSaved boot s)
            (IsSound boot)
    unfolding modify
    adopt-HasSaved s = record {
      at = λ c h. returned (
        (ap (λ (x : PersistentState). x.desired_internet_state) (sym h.1), sym h.1, h.0),
        refl,
        h.1,
      );
    }

  adopted :
      (s : PersistentState) (r : Result (Unit {0}) StateStoreError)
      → Triple
          (AfterSave s (λ _. Unit {0}) (Sound boot) r)
          (after_save (adopt s) (λ c. c) r)
          (λ _. HasSaved boot s)
          (IsSound boot)
  unfolding after_save
  adopted s (ok _) =
      Triple-bind _ _ _ _ _ _ (adopt-HasSaved s)
        λ _. Keeps-ends _ _ _ _ (λ c h. h) (λ c h. h.0) (Keeps-marked s)
  adopted s (err e) =
      Triple-bind _ _ (λ _. IsSound boot) _ _ _
        (Keeps-Triple (IsSound boot) _ (Keeps-modify IsSound-Quiet (λ c. c) (λ c h. h)))
        λ _.
          Triple-bind _ _ (λ _. IsSound boot) _ _ _
            (Keeps-Triple (IsSound boot) _ (Keeps-mark_persistence_failure IsSound-Quiet e))
            λ _. Triple-raise (IsSound boot) _ e

  -- A commit before the side effect: the candidate is the state and is durable, or nothing that
  -- matters has changed.
  pub commit_authoritative_state-HasSaved :
      (s : PersistentState)
      → Triple (IsSound boot) (commit_authoritative_state s) (λ _. HasSaved boot s) (IsSound boot)
  unfolding commit_authoritative_state
  commit_authoritative_state-HasSaved s =
      Triple-bind _ _ _ _ _ _
        (store_save-AfterSave s (λ _. Unit {0}) (Sound boot) (λ x p t h. (h.2, tt, h))
          (IsSound boot))
        λ r. adopted s r

  pub commit_authoritative_state-IsSound :
      (s : PersistentState) → Keeps (IsSound boot) (commit_authoritative_state s)
  commit_authoritative_state-IsSound s =
      Triple-Keeps (IsSound boot) _
        (Triple-ends _ _ _ _ _ (λ _ c h. h.0) (commit_authoritative_state-HasSaved s))

  flushed : (p : Option PersistentState) → Keeps (IsSound boot) (flush_pending p)
  unfolding flush_pending
  flushed none = search keeps_rules
  flushed (some s) = Triple-Keeps (IsSound boot) _ (
      Triple-ends _ _ _ _ _ (λ _ c h. h.0)
        (Triple-bind _ _ _ _ _ _
          (store_save-AfterSave s (λ _. Unit {0}) (Sound boot) (λ x p t h. (h.2, tt, h))
            (IsSound boot))
          λ r. adopted s r))

  pub flush-IsSound : Keeps (IsSound boot) flush_pending_durable_candidate
  unfolding flush_pending_durable_candidate
  flush-IsSound = search (keeps_rules, flushed)

  -- The state is the candidate, and its policy is durable, whatever else is saved.
  abbrev Loose :
      DesiredInternetState
      → PersistentState
      → PersistentState
      → Option PersistentState
      → List Effect
      → Type 0
  Loose d s x p t = (x ≡ s) × ((last_saved boot t).desired_internet_state ≡ d) × Justified boot t

  module _ (d : DesiredInternetState) (s : PersistentState)
      (same : s.desired_internet_state ≡ d) where
    abbrev IsLoose : Coordinator → Type 0
    IsLoose c = Loose d s c.state c.pending_durable_candidate c.trace

    loosened :
        {E : Type 0} (R : Coordinator → Type 0)
        → Triple (IsSoundAt boot d) (modify {E = E} (λ c. record c { state = s })) (λ _. IsLoose) R
    unfolding modify
    loosened R = record { at = λ c h. returned (refl, sym h.0.0 ∙ h.1, h.0.2) }

    cleared :
        Triple
          (λ c. Justified boot c.trace × (last_saved boot c.trace ≡ s) × (c.state ≡ s))
          (modify {E = StateStoreError} (λ c. record c { pending_durable_candidate = none }))
          (λ _. IsSoundAt boot d)
          (IsSoundAt boot d)
    unfolding modify
    cleared = record {
      at = λ c h. returned (
        (
          ap (λ (x : PersistentState). x.desired_internet_state) (h.2 ∙ sym h.1),
          h.2 ∙ sym h.1,
          h.0,
        ),
        ap (λ (x : PersistentState). x.desired_internet_state) h.2 ∙ same,
      );
    }

    waiting :
        Triple IsLoose
          (modify {E = StateStoreError} (λ c. record c { pending_durable_candidate = some s }))
          (λ _. IsSoundAt boot d)
          (IsSoundAt boot d)
    unfolding modify
    waiting = record {
      at = λ c h. returned (
        (ap (λ (x : PersistentState). x.desired_internet_state) h.0 ∙ same ∙ sym h.1, h.0, h.2),
        ap (λ (x : PersistentState). x.desired_internet_state) h.0 ∙ same,
      );
    }

    settled :
        (r : Result (Unit {0}) StateStoreError)
        → Triple
            (AfterSave s (λ x. x ≡ s) (Loose d s) r)
            (after_save
              (λ c. record c { pending_durable_candidate = none })
              (λ c. record c { pending_durable_candidate = some s })
              r)
            (λ _. IsSoundAt boot d)
            (IsSoundAt boot d)
    unfolding after_save
    settled (ok _) =
        Triple-bind _ (IsSoundAt boot d) (λ _. IsSoundAt boot d) _ _ _ cleared
          λ _.
            Keeps-Triple (IsSoundAt boot d) _ (Keeps-mark_persistence_success (IsSoundAt-Quiet d))
    settled (err e) =
        Triple-bind _ (IsSoundAt boot d) (λ _. IsSoundAt boot d) _ _ _ waiting
          λ _. Keeps-Triple (IsSoundAt boot d) _ (
            Keeps-bind _ _ (Keeps-mark_persistence_failure (IsSoundAt-Quiet d) e)
              λ _. Keeps-raise e)

    -- A commit after a side effect keeps the policy that is durable, also when the save fails.
    pub commit_post_side_effect_candidate-IsSoundAt :
        Keeps (IsSoundAt boot d) (commit_post_side_effect_candidate s)
    unfolding commit_post_side_effect_candidate
    commit_post_side_effect_candidate-IsSoundAt = Triple-Keeps (IsSoundAt boot d) _ (
        Triple-bind _ _ (λ _. IsLoose) _ _ _ (loosened (IsSoundAt boot d))
          λ _.
            Triple-bind _ _ _ _ _ _
              (store_save-AfterSave s (λ x. x ≡ s) (Loose d s) (λ x p t h. (h.2, h.0, h))
                (IsSoundAt boot d))
              λ r. settled r)
