-- ===== src/Runtime/Durability/Deadlines.antt =====
-- crates/service/src/runtime.rs: the execution of a scheduled block keeps the durability invariant.
use palka.Base.{
  ◌≡◌, refl, Option, none, some, List, Result, ok, err, Bool, true, false, if◌then◌else◌,
}
use palka.Domain.{TimerId, ScheduledAction, DesiredInternetState, InternetState}
use palka.Persistence.{PersistentState}
use palka.Runtime.Action.{ignore}
use palka.Runtime.Action.Keeps.{Keeps, Keeps-pure, Keeps-if, Keeps-bind, Keeps-gets, Keeps-ignore}
use palka.Runtime.Action.Triple.{Keeps-try_then}
use palka.Runtime.Events.{mark_gate_success}
use palka.Runtime.Internet.{Verdict, verified, mismatch, failure, GateResults, judge}
use palka.Runtime.Deadlines.{
  completed_internet, failed_internet, conclude_internet_deadline, after_internet_deadline,
  carry_out_block, start_block, execute_scheduled_internet_deadline,
}
use palka.Runtime.Quiet.{Keeps-emit_event, Keeps-is_stop_requested, Keeps-mark_gate_success}
use palka.Runtime.Quiet.Handlers.{Keeps-observe, Keeps-set_timers}
use palka.Runtime.Durability.{IsSound, IsSoundAt, IsSound-Quiet, IsSoundAt-Quiet}
use palka.Runtime.Durability.Gate.{
  enter_gate-IsSoundAt, record_internet_failure-IsSoundAt, Keeps-post_commit,
}
use palka.Runtime.Durability.Policy.{commit_keeps_policy}

module _ (boot : PersistentState) {E : Type 0} where
  failed_internet-IsSoundAt :
      (d : DesiredInternetState) (id : TimerId) (message : palka.Base.String)
      → Keeps (IsSoundAt boot d) (
          ignore {F = E} (
            palka.Runtime.Internet.record_internet_failure {E = E}
              (failed_internet id message)
              "Scheduled internet block failed: "
              message))
  failed_internet-IsSoundAt d id message =
      Keeps-ignore _ (
        record_internet_failure-IsSoundAt boot d (failed_internet id message) _ message (λ s. refl))

  conclude_internet_deadline-IsSoundAt :
      (d : DesiredInternetState) (id : TimerId) (v : Verdict)
      → Keeps (IsSoundAt boot d) (conclude_internet_deadline {E = E} id v)
  unfolding conclude_internet_deadline
  conclude_internet_deadline-IsSoundAt d id verified =
      Keeps-post_commit boot d (completed_internet id) mark_gate_success (λ s. refl)
        (Keeps-mark_gate_success (IsSoundAt-Quiet boot d))
  conclude_internet_deadline-IsSoundAt d id (mismatch observed) = failed_internet-IsSoundAt d id _
  conclude_internet_deadline-IsSoundAt d id (failure reason) = failed_internet-IsSoundAt d id reason

  after_internet_deadline-IsSoundAt :
      (d : DesiredInternetState) (id : TimerId) (p : DesiredInternetState) (o : InternetState)
      (results : Option GateResults)
      → Keeps (IsSoundAt boot d) (after_internet_deadline {E = E} id p o results)
  unfolding after_internet_deadline
  after_internet_deadline-IsSoundAt d id p o none = Keeps-pure tt
  after_internet_deadline-IsSoundAt d id p o (some results) =
      Keeps-bind _ _ (Keeps-observe (IsSoundAt-Quiet boot d) (λ c o h. h) p o _ results.1)
        λ _. conclude_internet_deadline-IsSoundAt d id _

  carry_out_block-IsSoundAt :
      (id : TimerId) (p : DesiredInternetState) (o : InternetState) (u : Unit {0})
      → Keeps (IsSoundAt boot DesiredInternetState.blocked) (carry_out_block {E = E} id p o (ok u))
  unfolding carry_out_block
  carry_out_block-IsSoundAt id p o u =
      Keeps-bind _ _ (Keeps-set_timers (IsSoundAt-Quiet boot _) _) λ _.
        Keeps-bind _ _ (Keeps-ignore _ (Keeps-emit_event (IsSoundAt-Quiet boot _) _)) λ _.
          Keeps-bind _ _ (enter_gate-IsSoundAt boot _)
            λ results. after_internet_deadline-IsSoundAt _ id p o results

  not_carried_out :
      (id : TimerId) (p : DesiredInternetState) (o : InternetState)
      (e : palka.Persistence.StateStoreError)
      → Keeps (IsSound boot) (carry_out_block {E = E} id p o (err e))
  unfolding carry_out_block
  not_carried_out id p o e = Keeps-pure tt

  start_block-IsSound :
      (id : TimerId) (started : Option (List ScheduledAction))
      → Keeps (IsSound boot) (start_block {E = E} id started)
  unfolding start_block
  start_block-IsSound id none = Keeps-pure tt
  start_block-IsSound id (some actions) = Keeps-bind _ _ (Keeps-gets _) λ p.
      Keeps-bind _ _ (Keeps-gets _) λ o. Keeps-bind _ _ (Keeps-gets _) λ state.
        Keeps-try_then _ (λ _. IsSoundAt boot DesiredInternetState.blocked) (IsSound boot) _ _
          (commit_keeps_policy boot _ _ refl)
          (λ u c h. ((carry_out_block-IsSoundAt id p o u).at c h).0)
          λ e c h. (not_carried_out id p o e).at c h

  pub execute_scheduled_internet_deadline-IsSound :
      (id : TimerId) → Keeps (IsSound boot) (execute_scheduled_internet_deadline {E = E} id)
  unfolding execute_scheduled_internet_deadline
  execute_scheduled_internet_deadline-IsSound id =
      Keeps-bind _ _ (Keeps-is_stop_requested (IsSound-Quiet boot)) λ stop.
        Keeps-if _ _ _ (λ _. Keeps-pure tt)
          λ _. Keeps-bind _ _ (Keeps-gets _) λ started. start_block-IsSound id started
