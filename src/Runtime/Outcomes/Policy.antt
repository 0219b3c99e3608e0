-- ===== src/Runtime/Outcomes/Policy.antt =====
-- crates/service/src/runtime.rs: what handle_immediate_block and handle_restore_internet promise.
use palka.Base.{
  ◌≡◌, refl, ap, ◌∙◌, Bool, true, false, Option, none, some, Result, ok, err, String, ◌⊎◌, inl, inr,
  is_some, if◌then◌else◌, arith,
}
use palka.Domain.{DesiredInternetState, InternetState, StateChangeReason}
use palka.Persistence.{PersistentState, StateStoreError}
use palka.Runtime.State.{Coordinator, ServiceRuntimeError, PlatformError}
use palka.Runtime.Action.{lift, modify, ◌>>=◌}
use palka.Runtime.Action.Keeps.{
  Keeps, Keeps-pure, Keeps-if, Keeps-bind, Keeps-raise, Keeps-map_err, Keeps-try,
}
use palka.Runtime.Action.Triple.{
  Post, Triple, Triple-bind, Triple-read, Triple-pre, Triple-raise, Keeps-Triple, Keeps-read,
  Keeps-ends, raised, returned, Triple-fails,
}
use palka.Runtime.Ports.{store_save, gate_block, gate_unblock, gate_current_state}
use palka.Runtime.Commit.{after_save, commit_post_side_effect_candidate}
use palka.Runtime.Candidates.{clear_retry, next_attempt}
use palka.Runtime.Internet.{
  expected, GateResults, Verdict, verified, mismatch, failure, judge, observed_of, apply_policy,
  enter_gate, observe, record_internet_failure, failed_command, handle_internet_failure,
  clear_retry_if, conclude_command, after_gate, change_policy,
}
use palka.Runtime.Quiet.{
  Quiet, Keeps-modify, Keeps-mark_persistence_failure, Keeps-mark_persistence_success,
  Keeps-is_stop_requested, Keeps-mark_gate_failure, Keeps-mark_gate_success, Keeps-next_outbox_id,
  Keeps-maybe_emit_internet_policy_changed,
}
use palka.Runtime.Quiet.Handlers.{Keeps-schedule_next_internet_retry}
use palka.Runtime.Outcomes.{Holds, commit-Holds}

-- Predicates of the policy and of the observed state.
pub Quiet_policy :
    (V : DesiredInternetState → InternetState → Type 0)
    → Quiet (λ c. V c.state.desired_internet_state c.observed_internet_state)
Quiet_policy V = record {
  calls = λ c n p. p;
  emitted = λ c e p. p;
  health = λ c h p. p;
  subscribers = λ c l p. p;
  errors = λ c p g w r h. h;
  shutdown = λ c s p. p;
  retry = λ c t p. p;
  timers = λ c m p. p;
}

module _ (d : DesiredInternetState) (W : InternetState → Type 0) where
  -- The policy is `d`, and `W` holds of the observed state.
  abbrev Applies : Coordinator → Type 0
  Applies c = (c.state.desired_internet_state ≡ d) × W c.observed_internet_state

  Applies-Quiet : Quiet Applies
  Applies-Quiet = Quiet_policy (λ x o. (x ≡ d) × W o)

  store_save-Applies : (s : PersistentState) → Keeps Applies (store_save {E = StateStoreError} s)
  unfolding store_save ◌>>=◌
  store_save-Applies s = record { at = λ c h. h }

  after_save-Applies :
      (s : PersistentState) (r : Result (Unit {0}) StateStoreError)
      → Keeps Applies (
          after_save
            (λ c. record c { pending_durable_candidate = none })
            (λ c. record c { pending_durable_candidate = some s })
            r)
  unfolding after_save
  after_save-Applies s (ok _) =
      Keeps-bind _ _ (Keeps-modify Applies-Quiet _ (λ c h. h))
        λ _. Keeps-mark_persistence_success Applies-Quiet
  after_save-Applies s (err e) =
      Keeps-bind _ _ (Keeps-modify Applies-Quiet _ (λ c h. h))
        λ _. Keeps-bind _ _ (Keeps-mark_persistence_failure Applies-Quiet e) λ _. Keeps-raise e

  post_commit-Applies :
      (s : PersistentState)
      → s.desired_internet_state ≡ d
      → Keeps Applies (commit_post_side_effect_candidate s)
  unfolding commit_post_side_effect_candidate
  post_commit-Applies s same =
      Keeps-bind _ _ (Keeps-modify Applies-Quiet _ (λ c h. (same, h.1)))
        λ _. Keeps-bind _ _ (store_save-Applies s) λ r. after_save-Applies s r

  clear_retry_if-Applies :
      (has : Bool) (s : PersistentState)
      → s.desired_internet_state ≡ d
      → Keeps Applies (clear_retry_if (if has then some (clear_retry s) else none))
  unfolding clear_retry_if
  clear_retry_if-Applies true s same = Keeps-map_err _ _ (post_commit-Applies (clear_retry s) same)
  clear_retry_if-Applies false s same = Keeps-pure tt

  verified-Applies : Keeps Applies (conclude_command d verified)
  unfolding conclude_command
  verified-Applies = Keeps-bind _ _ (Keeps-mark_gate_success Applies-Quiet) λ _.
      Keeps-read _ _ _ λ c h. clear_retry_if-Applies (is_some c.state.internet_retry) c.state h.0

  record_internet_failure-Applies :
      (prefix message : String)
      → Keeps Applies (record_internet_failure {E = ServiceRuntimeError} (λ s. s) prefix message)
  unfolding record_internet_failure
  record_internet_failure-Applies prefix message =
      Keeps-bind _ _ (Keeps-mark_gate_failure Applies-Quiet message) λ _. Keeps-read _ _ _ λ c h.
        Keeps-bind _ _ (Keeps-next_outbox_id Applies-Quiet) λ id.
          Keeps-bind _ _ (Keeps-try _ (post_commit-Applies _ h.0)) λ saved.
            Keeps-bind _ _
              (Keeps-schedule_next_internet_retry Applies-Quiet
                (next_attempt c.state.internet_retry))
              λ _. Keeps-pure saved

  always_fails :
      (Q : Unit {0} → Coordinator → Type 0) (message : String)
      (r : Result (Unit {0}) StateStoreError)
      → Triple Applies (lift (failed_command message r)) Q Applies
  unfolding lift
  always_fails Q message (ok _) = record { at = λ c h. raised h }
  always_fails Q message (err e) = record { at = λ c h. raised h }

  -- The command fails, and the policy is not rolled back.
  handle_internet_failure-Applies :
      (Q : Unit {0} → Coordinator → Type 0) (prefix message : String)
      → Triple Applies (handle_internet_failure prefix message) Q Applies
  unfolding handle_internet_failure
  handle_internet_failure-Applies Q prefix message =
      Triple-bind _ _ (λ _. Applies) _ _ _
        (Keeps-Triple Applies _ (record_internet_failure-Applies prefix message))
        λ saved. always_fails Q message saved

abbrev Any : InternetState → Type 0
Any o = Unit {0}

-- The verdict is good only if the gate answered without an error and showed what the policy expects.
judge-verified :
    (d : DesiredInternetState) (results : GateResults)
    → judge d results ≡ verified
    → observed_of results.1 ≡ expected d
unfolding judge
judge-verified d (ok _, ok o) h = ground arith
judge-verified d (ok _, err e) h = ground arith
judge-verified d (err e, r) h = ground arith

-- What a command that succeeded leaves, and one that failed after the commit of the policy.
abbrev pub Verified : DesiredInternetState → Coordinator → Type 0
Verified d c = (c.state.desired_internet_state ≡ d) × (c.observed_internet_state ≡ expected d)

abbrev pub NotRolledBack :
    DesiredInternetState → PersistentState → Option PersistentState → Coordinator → Type 0
NotRolledBack d x p c = (c.state.desired_internet_state ≡ d) ⊎ Holds x p c

module _ (d : DesiredInternetState) (x : PersistentState) (p : Option PersistentState) where
  gate_block-Applies : {E : Type 0} → Keeps (Applies d Any) (gate_block {E = E})
  unfolding gate_block ◌>>=◌
  gate_block-Applies = record { at = λ c h. h }

  gate_unblock-Applies : {E : Type 0} → Keeps (Applies d Any) (gate_unblock {E = E})
  unfolding gate_unblock ◌>>=◌
  gate_unblock-Applies = record { at = λ c h. h }

  gate_current_state-Applies : {E : Type 0} → Keeps (Applies d Any) (gate_current_state {E = E})
  unfolding gate_current_state ◌>>=◌
  gate_current_state-Applies = record { at = λ c h. h }

  apply_policy-Applies :
      {E : Type 0} (k : DesiredInternetState) → Keeps (Applies d Any) (apply_policy {E = E} k)
  unfolding apply_policy
  apply_policy-Applies DesiredInternetState.unrestricted = gate_unblock-Applies
  apply_policy-Applies DesiredInternetState.blocked = gate_block-Applies

  enter_gate-Applies : Keeps (Applies d Any) (enter_gate {E = ServiceRuntimeError} d)
  unfolding enter_gate
  enter_gate-Applies = Keeps-bind _ _ (Keeps-is_stop_requested (Applies-Quiet d Any)) λ stop.
      Keeps-if _ _ _ (λ _. Keeps-pure none)
        λ _.
          Keeps-bind _ _ (apply_policy-Applies d)
            λ applied. Keeps-bind _ _ gate_current_state-Applies λ current. Keeps-pure _

  conclude_command-Verified :
      (results : GateResults) (v : Verdict)
      → judge d results ≡ v
      → Triple
          (Applies d (λ o. o ≡ observed_of results.1))
          (conclude_command d v)
          (λ _. Verified d)
          (NotRolledBack d x p)
  unfolding conclude_command
  conclude_command-Verified results verified good =
      Keeps-ends _ _ _ _ (λ c h. (h.0, h.1 ∙ judge-verified d results good)) (λ c h. inl h.0)
        (verified-Applies d _)
  conclude_command-Verified results (mismatch o) bad =
      Triple-fails _ _ _ _ _ (λ c h. inl h.0) (handle_internet_failure-Applies d _ _ _ _)
  conclude_command-Verified results (failure reason) bad =
      Triple-fails _ _ _ _ _ (λ c h. inl h.0) (handle_internet_failure-Applies d _ _ _ _)

  set_observed :
      (current : Result InternetState PlatformError)
      → Triple
          (Applies d Any)
          (modify {E = ServiceRuntimeError}
            (λ c. record c { observed_internet_state = observed_of current }))
          (λ _. Applies d (λ o. o ≡ observed_of current))
          (NotRolledBack d x p)
  unfolding modify
  set_observed current = record { at = λ c h. returned (h.0, refl) }

  observe-Applies :
      (k : DesiredInternetState) (o : InternetState) (reason : StateChangeReason)
      (current : Result InternetState PlatformError)
      → Triple
          (Applies d Any)
          (observe {E = ServiceRuntimeError} k o reason current)
          (λ _. Applies d (λ q. q ≡ observed_of current))
          (NotRolledBack d x p)
  unfolding observe
  observe-Applies k o reason current = Triple-bind _ _ _ _ _ _ (set_observed current) λ _.
      Keeps-ends _ _ _ _ (λ c h. h) (λ c h. inl h.0)
        (Keeps-maybe_emit_internet_policy_changed (Applies-Quiet d _) k o reason)

  after_gate-Verified :
      (k : DesiredInternetState) (o : InternetState) (reason : StateChangeReason)
      (results : Option GateResults)
      → Triple
          (Applies d Any)
          (after_gate d k o reason results)
          (λ _. Verified d)
          (NotRolledBack d x p)
  unfolding after_gate
  after_gate-Verified k o reason none =
      Triple-fails _ _ _ _ _ (λ c h. inl h.0) (Triple-raise (Applies d Any) _ _)
  after_gate-Verified k o reason (some results) =
      Triple-bind _ _ _ _ _ _ (observe-Applies k o reason results.1)
        λ _. conclude_command-Verified results _ refl

  change_policy-Verified :
      (reason : StateChangeReason)
      → Triple (Holds x p) (change_policy d reason) (λ _. Verified d) (NotRolledBack d x p)
  unfolding change_policy
  change_policy-Verified reason = Triple-read _ _ _ _ _ λ c h. Triple-read _ _ _ _ _ λ e k.
      Triple-read _ _ _ _ _ λ f g.
        Triple-bind _ _ _ _ _ _ (Triple-fails _ _ _ _ _ (λ a b. inr b) (commit-Holds x p _)) λ _.
          Triple-pre _ (Applies d Any) _ _ _
            (λ a b. (ap (λ (s : PersistentState). s.desired_internet_state) b.0, tt))
            (Triple-bind _ _ (λ _. Applies d Any) _ _ _
              (Keeps-ends _ _ _ _ (λ a b. b) (λ a b. inl b.0) enter_gate-Applies)
              λ results. after_gate-Verified _ _ reason results)

-- Blocking or restoring the internet, from every state and for every answers of the ports. If the
-- command returns, the policy is the one that was asked for and the gate was observed to be in the
-- state that it expects. If it fails, either the policy is nevertheless the one that was asked for,
-- and is not rolled back, or the state and what is left to save are as they were.
pub change_policy-outcome :
    (d : DesiredInternetState) (reason : StateChangeReason) (c : Coordinator)
    → Post
        (λ _. Verified d)
        (NotRolledBack d c.state c.pending_durable_candidate)
        (change_policy d reason c).0
        (change_policy d reason c).1
change_policy-outcome d reason c =
    (change_policy-Verified d c.state c.pending_durable_candidate reason).at c (refl, refl)
