-- ===== src/Runtime/Durability/Gate.antt =====
-- crates/service/src/runtime.rs: the gate carries out the policy that is durable.
use palka.Base.{◌≡◌, sym, ◌∙◌, none, String}
use palka.Domain.{DesiredInternetState}
use palka.Persistence.{PersistentState}
use palka.Runtime.Action.{Action, gets, ignore, ◌>>=◌}
use palka.Runtime.Action.Keeps.{Keeps, Keeps-pure, Keeps-if, Keeps-bind, Keeps-ignore, Keeps-try}
use palka.Runtime.Action.Triple.{Keeps-read}
use palka.Runtime.Ports.{gate_block, gate_unblock, gate_current_state}
use palka.Runtime.Commit.{commit_post_side_effect_candidate}
use palka.Runtime.Candidates.{next_attempt}
use palka.Runtime.Internet.{apply_policy, enter_gate, record_internet_failure}
use palka.Runtime.Quiet.{Keeps-next_outbox_id, Keeps-is_stop_requested, Keeps-mark_gate_failure}
use palka.Runtime.Quiet.Handlers.{Keeps-schedule_next_internet_retry}
use palka.Runtime.Durability.{
  IsSoundAt, IsSoundAt-Quiet, commit_post_side_effect_candidate-IsSoundAt,
}

module _ (boot : PersistentState) where
  -- What a known policy allows the gate to do.
  gate_block-IsSoundAt :
      {E : Type 0} → Keeps (IsSoundAt boot DesiredInternetState.blocked) (gate_block {E = E})
  unfolding gate_block ◌>>=◌
  gate_block-IsSoundAt = record { at = λ c h. ((h.0.0, h.0.1, (sym h.0.0 ∙ h.1, h.0.2)), h.1) }

  gate_unblock-IsSoundAt :
      {E : Type 0} → Keeps (IsSoundAt boot DesiredInternetState.unrestricted) (gate_unblock {E = E})
  unfolding gate_unblock ◌>>=◌
  gate_unblock-IsSoundAt = record { at = λ c h. ((h.0.0, h.0.1, (sym h.0.0 ∙ h.1, h.0.2)), h.1) }

  pub gate_current_state-IsSoundAt :
      {E : Type 0} (d : DesiredInternetState)
      → Keeps (IsSoundAt boot d) (gate_current_state {E = E})
  unfolding gate_current_state ◌>>=◌
  gate_current_state-IsSoundAt d = record { at = λ c h. h }

  pub apply_policy-IsSoundAt :
      {E : Type 0} (d : DesiredInternetState) → Keeps (IsSoundAt boot d) (apply_policy {E = E} d)
  unfolding apply_policy
  apply_policy-IsSoundAt DesiredInternetState.unrestricted = gate_unblock-IsSoundAt
  apply_policy-IsSoundAt DesiredInternetState.blocked = gate_block-IsSoundAt

  pub enter_gate-IsSoundAt :
      {E : Type 0} (d : DesiredInternetState) → Keeps (IsSoundAt boot d) (enter_gate {E = E} d)
  unfolding enter_gate
  enter_gate-IsSoundAt d = Keeps-bind _ _ (Keeps-is_stop_requested (IsSoundAt-Quiet boot d)) λ stop.
      Keeps-if _ _ _ (λ _. Keeps-pure none)
        λ _.
          Keeps-bind _ _ (apply_policy-IsSoundAt d)
            λ applied. Keeps-bind _ _ (gate_current_state-IsSoundAt d) λ current. Keeps-pure _

  -- A change of the candidate that keeps the policy.
  pub record_internet_failure-IsSoundAt :
      {E : Type 0} (d : DesiredInternetState) (change : PersistentState → PersistentState)
      (prefix message : String)
      → ((s : PersistentState) → (change s).desired_internet_state ≡ s.desired_internet_state)
      → Keeps (IsSoundAt boot d) (record_internet_failure {E = E} change prefix message)
  unfolding record_internet_failure
  record_internet_failure-IsSoundAt d change prefix message same =
      Keeps-bind _ _ (Keeps-mark_gate_failure (IsSoundAt-Quiet boot d) message) λ _.
        Keeps-read _ _ _ λ c h.
          Keeps-bind _ _ (Keeps-next_outbox_id (IsSoundAt-Quiet boot d)) λ entry_id.
            Keeps-bind _ _
              (Keeps-try _
                (commit_post_side_effect_candidate-IsSoundAt boot d _ (same c.state ∙ h.1)))
              λ saved.
                Keeps-bind _ _
                  (Keeps-schedule_next_internet_retry (IsSoundAt-Quiet boot d)
                    (next_attempt c.state.internet_retry))
                  λ _. Keeps-pure saved

  -- A commit of a candidate that keeps the policy, made from the state that is read.
  pub Keeps-post_commit :
      {E : Type 0} (d : DesiredInternetState) (change : PersistentState → PersistentState)
      (k : Action E (Unit {0}))
      → ((s : PersistentState) → (change s).desired_internet_state ≡ s.desired_internet_state)
      → Keeps (IsSoundAt boot d) k
      → Keeps (IsSoundAt boot d) (
          gets (λ c. change c.state) >>= λ candidate.
          k >>= λ _. ignore (commit_post_side_effect_candidate candidate))
  Keeps-post_commit d change k same kk = Keeps-read _ _ _ λ c h. Keeps-bind _ _ kk λ _.
      Keeps-ignore _ (commit_post_side_effect_candidate-IsSoundAt boot d _ (same c.state ∙ h.1))
