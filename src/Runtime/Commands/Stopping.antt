-- ===== src/Runtime/Commands/Stopping.antt =====
-- crates/service/src/runtime.rs: after a `Stop` nothing is changed any more by a command.
use palka.Base.{
  ◌≡◌, refl, Bool, true, false, Option, none, some, Result, ok, err, if◌then◌else◌, arith,
}
use palka.Persistence.{PersistentState, StateStoreError}
use palka.Runtime.State.{
  Coordinator, stopping, RuntimeCommand, schedule_action, cancel_exact_timer,
  immediate_internet_block, restore_internet, ack_telegram, query_status, subscribe_events,
  unsubscribe_events, send_child_message, publish_parent_message, tick, stop,
}
use palka.Runtime.Action.{raise, ◌>>=◌}
use palka.Runtime.Action.Keeps.{
  Keeps, Keeps-bind, Keeps-pure, Keeps-raise, Keeps-gets, Keeps-map_err,
}
use palka.Runtime.Ports.{store_save}
use palka.Runtime.Commit.{adopt, after_save, flush_pending, flush_pending_durable_candidate}
use palka.Runtime.Commands.{
  begin_stop, flush_on_stop, handle_running, handle_stopping, handle_command,
}
use palka.Runtime.Quiet.{
  Quiet, Keeps-modify, Keeps-mark_persistence_failure, Keeps-mark_persistence_success,
}

-- The commands that ask for a change, by the names of the protocol.
abbrev pub asks_change : RuntimeCommand → Bool
asks_change query_status = false
asks_change tick = false
asks_change stop = false
asks_change _ = true

abbrev IsStopping : Coordinator → Type 0
IsStopping c = c.is_stopping ≡ true

IsStopping-Quiet : Quiet IsStopping
IsStopping-Quiet = record {
  calls = λ c n p. p;
  emitted = λ c e p. p;
  health = λ c h p. p;
  subscribers = λ c l p. p;
  errors = λ c p g w r h. h;
  shutdown = λ c s p. p;
  retry = λ c t p. p;
  timers = λ c m p. p;
}

store_save-IsStopping :
    (s : PersistentState) → Keeps IsStopping (store_save {E = StateStoreError} s)
unfolding store_save ◌>>=◌
store_save-IsStopping s = record { at = λ c h. h }

after_save-IsStopping :
    (s : PersistentState) (r : Result (Unit {0}) StateStoreError)
    → Keeps IsStopping (after_save (adopt s) (λ c. c) r)
unfolding after_save
after_save-IsStopping s (ok _) =
    Keeps-bind _ _ (Keeps-modify IsStopping-Quiet (adopt s) (λ c h. h))
      λ _. Keeps-mark_persistence_success IsStopping-Quiet
after_save-IsStopping s (err e) =
    Keeps-bind _ _ (Keeps-modify IsStopping-Quiet (λ c. c) (λ c h. h))
      λ _. Keeps-bind _ _ (Keeps-mark_persistence_failure IsStopping-Quiet e) λ _. Keeps-raise e

flush_pending-IsStopping : (p : Option PersistentState) → Keeps IsStopping (flush_pending p)
unfolding flush_pending
flush_pending-IsStopping none = Keeps-pure tt
flush_pending-IsStopping (some s) =
    Keeps-bind _ _ (store_save-IsStopping s) λ r. after_save-IsStopping s r

flush_on_stop-IsStopping : Keeps IsStopping flush_on_stop
unfolding flush_on_stop flush_pending_durable_candidate
flush_on_stop-IsStopping =
    Keeps-bind _ _
      (Keeps-map_err _ _ (Keeps-bind _ _ (Keeps-gets _) λ p. flush_pending-IsStopping p))
      λ _. Keeps-pure _

running_stop-IsStopping : (c : Coordinator) → IsStopping (handle_running stop c).1
unfolding handle_running begin_stop ◌>>=◌
running_stop-IsStopping c = flush_on_stop-IsStopping.at (begin_stop c) refl

stop-IsStopping : (c : Coordinator) → IsStopping c → IsStopping (handle_stopping stop c).1
unfolding handle_stopping
stop-IsStopping c h = flush_on_stop-IsStopping.at c h

stops :
    (b : Bool) (c : Coordinator)
    → c.is_stopping ≡ b
    → IsStopping (if b then handle_stopping stop c else handle_running stop c).1
stops true c h = stop-IsStopping c h
stops false c h = running_stop-IsStopping c

refused :
    (cmd : RuntimeCommand) (c : Coordinator)
    → asks_change cmd ≡ true
    → handle_stopping cmd c ≡ (err stopping, c)
unfolding handle_stopping raise
refused (schedule_action k n i) c h = refl
refused (cancel_exact_timer id k i) c h = refl
refused (immediate_internet_block i) c h = refl
refused (restore_internet i) c h = refl
refused (ack_telegram id) c h = refl
refused query_status c h = ground arith
refused subscribe_events c h = refl
refused (unsubscribe_events id) c h = refl
refused (send_child_message text) c h = refl
refused (publish_parent_message m) c h = refl
refused tick c h = ground arith
refused stop c h = ground arith

refuses :
    (b : Bool) (cmd : RuntimeCommand) (c : Coordinator)
    → b ≡ true
    → asks_change cmd ≡ true
    → (if b then handle_stopping cmd c else handle_running cmd c) ≡ (err stopping, c)
refuses true cmd c q h = refused cmd c h
refuses false cmd c q h = ground arith

-- After a `Stop`, whether or not its last save succeeds, each command that asks for a change is
-- refused with `Stopping` and leaves the whole state of the coordinator as it is.
pub handle_command-stop_refuses :
    (cmd : RuntimeCommand) (c : Coordinator)
    → asks_change cmd ≡ true
    → handle_command cmd (handle_command stop c).1 ≡ (err stopping, (handle_command stop c).1)
unfolding handle_command
handle_command-stop_refuses cmd c h = refuses _ cmd _ (stops c.is_stopping c refl) h
