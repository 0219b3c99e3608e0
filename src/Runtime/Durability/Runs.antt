-- ===== src/Runtime/Durability/Runs.antt =====
-- crates/service/src/runtime.rs: every run of the worker keeps the durability invariant.
use palka.Base.{
  ℕ, refl, Bool, true, false, Option, none, some, List, [], ◌∷◌, String, Result, ok, err,
  if◌then◌else◌,
}
use palka.Persistence.{PersistentState}
use palka.Runtime.State.{
  Coordinator, Ports, ServiceRuntimeError, SubscriptionId, RuntimeCommand, schedule_action,
  cancel_exact_timer, immediate_internet_block, restore_internet, ack_telegram, query_status,
  subscribe_events, unsubscribe_events, send_child_message, publish_parent_message, tick, stop,
}
use palka.Runtime.Action.{Action, modify}
use palka.Runtime.Action.Keeps.{
  Keeps, Keeps-pure, Keeps-if, Keeps-bind, Keeps-gets, Keeps-lift, Keeps-raise, Keeps-map_err,
  Keeps-try, Keeps-ignore,
}
use palka.Runtime.Commands.{
  initial, new, register, roll_back, after_registration, subscribe_as, handle_subscribe_events,
  handle_unsubscribe_events, flush_on_stop, answer_status, begin_stop, handle_running,
  handle_stopping, handle_command, Input, command, timeout, work, run,
}
use palka.Runtime.Quiet.{
  Keeps-modify, Keeps-remove_subscribers, Keeps-reconcile_subscriber_registry, Keeps-reply_taken,
  Keeps-build_status_snapshot,
}
use palka.Runtime.Durability.{IsSound, IsSound-Quiet, flush-IsSound}
use palka.Runtime.Durability.Handlers.{
  handle_schedule_action-IsSound, handle_cancel_exact_timer-IsSound, handle_ack_telegram-IsSound,
  handle_send_child_message-IsSound, handle_publish_parent_message-IsSound,
}
use palka.Runtime.Durability.Policy.{
  handle_immediate_block-IsSound, handle_restore_internet-IsSound,
}
use palka.Runtime.Durability.Clock.{process_clock_and_events-IsSound}
use palka.Runtime.Durability.Recovery.{perform_startup_recovery-IsSound}

module _ (boot : PersistentState) where
  roll_back-IsSound : (id : SubscriptionId) → Keeps (IsSound boot) (roll_back id)
  unfolding roll_back
  roll_back-IsSound id =
      Keeps-bind _ _ (Keeps-remove_subscribers (IsSound-Quiet boot) _)
        λ _. Keeps-ignore _ (Keeps-reconcile_subscriber_registry (IsSound-Quiet boot) none)

  after_registration-IsSound :
      (id : SubscriptionId) (r : Result (Unit {0}) ServiceRuntimeError)
      → Keeps (IsSound boot) (after_registration id r)
  unfolding after_registration
  after_registration-IsSound id (err e) = Keeps-bind _ _ (roll_back-IsSound id) λ _. Keeps-raise e
  after_registration-IsSound id (ok _) =
      Keeps-bind _ _ (Keeps-build_status_snapshot (IsSound-Quiet boot)) λ snapshot.
        Keeps-bind _ _ (Keeps-reply_taken (IsSound-Quiet boot)) λ taken.
          Keeps-bind _ _ (Keeps-if _ _ _ (λ _. Keeps-pure tt) λ _. roll_back-IsSound id)
            λ _. Keeps-pure _

  register-IsSound :
      (id : SubscriptionId) → Keeps (IsSound boot) (modify {E = ServiceRuntimeError} (register id))
  unfolding register
  register-IsSound id = Keeps-modify (IsSound-Quiet boot) _ (λ c h. h)

  subscribe_as-IsSound : (o : Option ℕ) → Keeps (IsSound boot) (subscribe_as o)
  unfolding subscribe_as
  subscribe_as-IsSound none = Keeps-raise _
  subscribe_as-IsSound (some id) = Keeps-bind _ _ (Keeps-gets _) λ ids.
      Keeps-if _ _ _ (λ _. Keeps-raise _)
        λ _. Keeps-bind _ _ (Keeps-lift _) λ _. Keeps-bind _ _ (register-IsSound id) λ _.
          Keeps-bind _ _
            (Keeps-try _ (Keeps-reconcile_subscriber_registry (IsSound-Quiet boot) (some id)))
            λ counted. after_registration-IsSound id counted

  handle_subscribe_events-IsSound : Keeps (IsSound boot) handle_subscribe_events
  unfolding handle_subscribe_events
  handle_subscribe_events-IsSound =
      Keeps-bind _ _ (Keeps-gets _) λ candidate. subscribe_as-IsSound candidate

  handle_unsubscribe_events-IsSound :
      (id : SubscriptionId) → Keeps (IsSound boot) (handle_unsubscribe_events id)
  unfolding handle_unsubscribe_events
  handle_unsubscribe_events-IsSound id = Keeps-bind _ _ (Keeps-gets _) λ existed.
      Keeps-bind _ _ (Keeps-remove_subscribers (IsSound-Quiet boot) _) λ _.
        Keeps-bind _ _
          (Keeps-if _ _ _ (λ _. Keeps-reconcile_subscriber_registry (IsSound-Quiet boot) none)
            λ _. Keeps-pure tt)
          λ _. Keeps-pure existed

  flush_on_stop-IsSound : Keeps (IsSound boot) flush_on_stop
  unfolding flush_on_stop
  flush_on_stop-IsSound = Keeps-bind _ _ (Keeps-map_err _ _ (flush-IsSound boot)) λ _. Keeps-pure _

  answer_status-IsSound : Keeps (IsSound boot) answer_status
  unfolding answer_status
  answer_status-IsSound =
      Keeps-bind _ _ (Keeps-build_status_snapshot (IsSound-Quiet boot)) λ snapshot. Keeps-pure _

  begin_stop-IsSound : Keeps (IsSound boot) (modify {E = ServiceRuntimeError} begin_stop)
  unfolding begin_stop
  begin_stop-IsSound = Keeps-modify (IsSound-Quiet boot) _ (λ c h. h)

  handle_running-IsSound : (cmd : RuntimeCommand) → Keeps (IsSound boot) (handle_running cmd)
  unfolding handle_running
  handle_running-IsSound (schedule_action k n i) =
      Keeps-bind _ _ (handle_schedule_action-IsSound boot k n i) λ id. Keeps-pure _
  handle_running-IsSound (cancel_exact_timer id k i) =
      Keeps-bind _ _ (handle_cancel_exact_timer-IsSound boot id k i) λ r. Keeps-pure _
  handle_running-IsSound (immediate_internet_block i) =
      Keeps-bind _ _ (handle_immediate_block-IsSound boot i) λ _. Keeps-pure _
  handle_running-IsSound (restore_internet i) =
      Keeps-bind _ _ (handle_restore_internet-IsSound boot i) λ _. Keeps-pure _
  handle_running-IsSound (ack_telegram id) =
      Keeps-bind _ _ (handle_ack_telegram-IsSound boot id) λ r. Keeps-pure _
  handle_running-IsSound query_status = answer_status-IsSound
  handle_running-IsSound subscribe_events =
      Keeps-bind _ _ handle_subscribe_events-IsSound λ s. Keeps-pure _
  handle_running-IsSound (unsubscribe_events id) =
      Keeps-bind _ _ (handle_unsubscribe_events-IsSound id) λ r. Keeps-pure _
  handle_running-IsSound (send_child_message text) =
      Keeps-bind _ _ (handle_send_child_message-IsSound boot text) λ id. Keeps-pure _
  handle_running-IsSound (publish_parent_message m) =
      Keeps-bind _ _ (handle_publish_parent_message-IsSound boot m) λ _. Keeps-pure _
  handle_running-IsSound tick =
      Keeps-bind _ _ (process_clock_and_events-IsSound boot) λ _. Keeps-pure _
  handle_running-IsSound stop = Keeps-bind _ _ begin_stop-IsSound λ _. flush_on_stop-IsSound

  handle_stopping-IsSound : (cmd : RuntimeCommand) → Keeps (IsSound boot) (handle_stopping cmd)
  unfolding handle_stopping
  handle_stopping-IsSound (schedule_action k n i) = Keeps-raise _
  handle_stopping-IsSound (cancel_exact_timer id k i) = Keeps-raise _
  handle_stopping-IsSound (immediate_internet_block i) = Keeps-raise _
  handle_stopping-IsSound (restore_internet i) = Keeps-raise _
  handle_stopping-IsSound (ack_telegram id) = Keeps-raise _
  handle_stopping-IsSound query_status = answer_status-IsSound
  handle_stopping-IsSound subscribe_events = Keeps-raise _
  handle_stopping-IsSound (unsubscribe_events id) = Keeps-raise _
  handle_stopping-IsSound (send_child_message text) = Keeps-raise _
  handle_stopping-IsSound (publish_parent_message m) = Keeps-raise _
  handle_stopping-IsSound tick = Keeps-pure _
  handle_stopping-IsSound stop = flush_on_stop-IsSound

  chosen :
      {A : Type 0} (b : Bool) (m n : Action ServiceRuntimeError A) (c : Coordinator)
      → Keeps (IsSound boot) m
      → Keeps (IsSound boot) n
      → IsSound boot c
      → IsSound boot ((if b then m c else n c).1)
  chosen true m n c km kn h = km.at c h
  chosen false m n c km kn h = kn.at c h

  -- One input.
  pub work-IsSound : (i : Input) (c : Coordinator) → IsSound boot c → IsSound boot (work i c)
  unfolding work handle_command
  work-IsSound (command cmd) c h =
      chosen c.is_stopping _ _ c (handle_stopping-IsSound cmd) (handle_running-IsSound cmd) h
  work-IsSound timeout c h = (process_clock_and_events-IsSound boot).at c h

  run-IsSound : (is : List Input) (c : Coordinator) → IsSound boot c → IsSound boot (run is c)
  unfolding run
  run-IsSound [] c h = h
  run-IsSound (i ∷ more) c h = run-IsSound more (work i c) (work-IsSound i c h)

  new-IsSound : (ports : Ports) (child : String) → IsSound boot (new ports child boot).1
  unfolding new
  new-IsSound ports child =
      (perform_startup_recovery-IsSound boot).at (initial ports child boot) (refl, refl, tt)

-- For every answers of the ports, every loaded state and every sequence of commands and wake-ups,
-- whether or not the recovery at the start succeeds: the policy of the state is the one that was
-- saved last; the state is the one that was saved last, or is kept as the candidate that is still
-- to be saved; each change of the gate carried out the policy that was saved last before it; and
-- each shutdown was begun when the state saved last had an executing action.
pub run-new-IsSound :
    (ports : Ports) (child : String) (boot : PersistentState) (is : List Input)
    → IsSound boot (run is (new ports child boot).1)
run-new-IsSound ports child boot is = run-IsSound boot is _ (new-IsSound boot ports child)
