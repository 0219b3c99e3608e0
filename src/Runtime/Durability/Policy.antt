-- ===== src/Runtime/Durability/Policy.antt =====
-- crates/service/src/runtime.rs: the commands and the retry that apply the policy keep the
-- durability invariant.
use palka.Runtime.Durability.Gate.{
  enter_gate-IsSoundAt, record_internet_failure-IsSoundAt, Keeps-post_commit,
}
use palka.Base.{
  ap, is_some, if◌then◌else◌, ◌≡◌, refl, ◌∙◌, Bool, true, false, Option, none, some, String,
}
use palka.Domain.{DesiredInternetState, InternetState, StateChangeReason, Initiator}
use palka.Persistence.{PersistentState}
use palka.Runtime.Action.Keeps.{
  Keeps, Keeps-pure, Keeps-bind, Keeps-lift, Keeps-gets, Keeps-ignore, Keeps-raise, Keeps-map_err,
}
use palka.Runtime.Action.Triple.{
  Triple, Keeps-read, Keeps-after, Keeps-weaken, Triple-map_err, Triple-ends, Triple-gets,
}
use palka.Runtime.Commit.{commit_authoritative_state}
use palka.Runtime.Candidates.{clear_retry}
use palka.Runtime.Internet.{
  Verdict, verified, mismatch, failure, GateResults, judge, handle_internet_failure, clear_retry_if,
  conclude_command, after_gate, change_policy, reconciled, record_retry_failure, conclude_retry,
  after_retry, process_internet_reconciliation_retry, handle_immediate_block,
  handle_restore_internet,
}
use palka.Runtime.Events.{mark_gate_success}
use palka.Runtime.Quiet.{Keeps-mark_gate_success}
use palka.Runtime.Quiet.Handlers.{Keeps-observe}
use palka.Runtime.Durability.{
  IsSound, IsSoundAt, IsSoundAt-Quiet, commit_authoritative_state-HasSaved,
  commit_post_side_effect_candidate-IsSoundAt,
}

module _ (boot : PersistentState) where
  module _ (d : DesiredInternetState) where
    handle_internet_failure-IsSoundAt :
        (prefix message : String)
        → Keeps (IsSoundAt boot d) (handle_internet_failure prefix message)
    unfolding handle_internet_failure
    handle_internet_failure-IsSoundAt prefix message =
        Keeps-bind _ _
          (record_internet_failure-IsSoundAt boot d (λ s. s) prefix message (λ s. refl))
          λ saved. Keeps-lift _

    clear_retry_if-IsSoundAt :
        (has : Bool) (s : PersistentState)
        → s.desired_internet_state ≡ d
        → Keeps (IsSoundAt boot d) (clear_retry_if (if has then some (clear_retry s) else none))
    unfolding clear_retry_if
    clear_retry_if-IsSoundAt true s same =
        Keeps-map_err _ _ (commit_post_side_effect_candidate-IsSoundAt boot d (clear_retry s) same)
    clear_retry_if-IsSoundAt false s same = Keeps-pure tt

    conclude_command-IsSoundAt : (v : Verdict) → Keeps (IsSoundAt boot d) (conclude_command d v)
    unfolding conclude_command
    conclude_command-IsSoundAt verified =
        Keeps-bind _ _ (Keeps-mark_gate_success (IsSoundAt-Quiet boot d)) λ _.
          Keeps-read _ _ _
            λ c h. clear_retry_if-IsSoundAt (is_some c.state.internet_retry) c.state h.1
    conclude_command-IsSoundAt (mismatch observed) = handle_internet_failure-IsSoundAt _ _
    conclude_command-IsSoundAt (failure reason) = handle_internet_failure-IsSoundAt _ _

    after_gate-IsSoundAt :
        (p : DesiredInternetState) (o : InternetState) (reason : StateChangeReason)
        (results : Option GateResults)
        → Keeps (IsSoundAt boot d) (after_gate d p o reason results)
    unfolding after_gate
    after_gate-IsSoundAt p o reason none = Keeps-raise _
    after_gate-IsSoundAt p o reason (some results) =
        Keeps-bind _ _ (Keeps-observe (IsSoundAt-Quiet boot d) (λ c o h. h) p o reason results.1)
          λ _. conclude_command-IsSoundAt (judge d results)

    -- The candidate is durable, so its policy is.
    pub commit_keeps_policy :
        (s : PersistentState)
        → s.desired_internet_state ≡ d
        → Triple
            (IsSound boot)
            (commit_authoritative_state s)
            (λ _. IsSoundAt boot d)
            (IsSound boot)
    commit_keeps_policy s same =
        Triple-ends _ _ _ _ _
          (λ _ c h. (h.0, ap (λ (x : PersistentState). x.desired_internet_state) h.1 ∙ same))
          (commit_authoritative_state-HasSaved boot s)

    change_policy-IsSound :
        (reason : StateChangeReason) → Keeps (IsSound boot) (change_policy d reason)
    unfolding change_policy
    change_policy-IsSound reason = Keeps-bind _ _ (Keeps-gets _) λ p.
        Keeps-bind _ _ (Keeps-gets _) λ o. Keeps-bind _ _ (Keeps-gets _) λ state.
          Keeps-after _ _ _ _ (Triple-map_err _ _ _ _ _ (commit_keeps_policy _ refl)) λ _.
            Keeps-weaken _ _ _ (λ c h. h.0)
              (Keeps-bind _ _ (enter_gate-IsSoundAt boot d)
                λ results. after_gate-IsSoundAt p o reason results)

  pub handle_immediate_block-IsSound :
      (i : Initiator) → Keeps (IsSound boot) (handle_immediate_block i)
  unfolding handle_immediate_block
  handle_immediate_block-IsSound i = change_policy-IsSound _ _

  pub handle_restore_internet-IsSound :
      (i : Initiator) → Keeps (IsSound boot) (handle_restore_internet i)
  unfolding handle_restore_internet
  handle_restore_internet-IsSound i = change_policy-IsSound _ _

  module _ {E : Type 0} where
    record_retry_failure-IsSoundAt :
        (d : DesiredInternetState) (message : String)
        → Keeps (IsSoundAt boot d) (record_retry_failure {E = E} message)
    unfolding record_retry_failure
    record_retry_failure-IsSoundAt d message =
        Keeps-ignore _ (record_internet_failure-IsSoundAt boot d (λ s. s) _ message (λ s. refl))

    conclude_retry-IsSoundAt :
        (d : DesiredInternetState) (v : Verdict)
        → Keeps (IsSoundAt boot d) (conclude_retry {E = E} d v)
    unfolding conclude_retry reconciled
    conclude_retry-IsSoundAt d verified =
        Keeps-post_commit boot d reconciled mark_gate_success (λ s. refl)
          (Keeps-mark_gate_success (IsSoundAt-Quiet boot d))
    conclude_retry-IsSoundAt d (mismatch observed) = record_retry_failure-IsSoundAt d _
    conclude_retry-IsSoundAt d (failure reason) = record_retry_failure-IsSoundAt d _

    after_retry-IsSoundAt :
        (d : DesiredInternetState) (o : InternetState) (results : Option GateResults)
        → Keeps (IsSoundAt boot d) (after_retry {E = E} d o results)
    unfolding after_retry
    after_retry-IsSoundAt d o none = Keeps-pure tt
    after_retry-IsSoundAt d o (some results) =
        Keeps-bind _ _ (Keeps-observe (IsSoundAt-Quiet boot d) (λ c o h. h) d o _ results.1)
          λ _. conclude_retry-IsSoundAt d (judge d results)

    pub process_internet_reconciliation_retry-IsSound :
        Keeps (IsSound boot) (process_internet_reconciliation_retry {E = E})
    unfolding process_internet_reconciliation_retry
    process_internet_reconciliation_retry-IsSound =
        Keeps-after _ (λ d. IsSoundAt boot d) _ _ (Triple-gets _ _ _ _ (λ c h. (h, refl)))
          λ d.
            Keeps-weaken _ _ _ (λ c h. h.0)
              (Keeps-bind _ _ (Keeps-gets _) λ o.
                Keeps-bind _ _ (enter_gate-IsSoundAt boot d)
                  λ results. after_retry-IsSoundAt d o results)
