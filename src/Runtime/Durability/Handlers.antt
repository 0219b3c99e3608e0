-- ===== src/Runtime/Durability/Handlers.antt =====
-- crates/service/src/runtime.rs: every command keeps the durability invariant.
use palka.Base.{ℕ, Option, none, some, String}
use palka.Domain.{ActionKind, Initiator, TimerId, ScheduledAction, ChatMessage}
use palka.Persistence.{PersistentState, OutboxEntryId}
use palka.Runtime.State.{persistence}
use palka.Runtime.Action.{map_err}
use palka.Runtime.Action.Keeps.{
  Keeps, keeps_rules, Keeps-pure, Keeps-if, Keeps-bind, Keeps-gets, Keeps-ignore, Keeps-raise,
  Keeps-map_err,
}
use palka.Runtime.Commit.{commit_authoritative_state}
use palka.Runtime.Timers.{
  handle_schedule_action, handle_cancel_exact_timer, cancel_found, commit_cancellation,
  refuse_cancelling,
}
use palka.Runtime.Messages.{
  handle_ack_telegram, handle_send_child_message, handle_publish_parent_message,
}
use palka.Runtime.Quiet.{
  Keeps-next_outbox_id, Keeps-next_timer_id, Keeps-utc_now, Keeps-monotonic_now, Keeps-emit_event,
}
use palka.Runtime.Quiet.Handlers.{
  Keeps-due_notifications, Keeps-announce_scheduled, Keeps-check_boundary, Keeps-sync_if_shutdown,
  Keeps-set_timers,
}
use palka.Runtime.Durability.{IsSound, IsSound-Quiet, commit_authoritative_state-IsSound}

module _ (boot : PersistentState) where
  pub Keeps-commit :
      (s : PersistentState)
      → Keeps (IsSound boot) (map_err persistence (commit_authoritative_state s))
  Keeps-commit s = Keeps-map_err _ _ (commit_authoritative_state-IsSound boot s)

  pub handle_schedule_action-IsSound :
      (k : ActionKind) (duration : ℕ) (i : Initiator)
      → Keeps (IsSound boot) (handle_schedule_action k duration i)
  unfolding handle_schedule_action
  handle_schedule_action-IsSound k duration i =
      Keeps-bind _ _ (Keeps-utc_now (IsSound-Quiet boot)) λ now.
        Keeps-bind _ _ (Keeps-monotonic_now (IsSound-Quiet boot)) λ mono.
          Keeps-bind _ _ (Keeps-next_timer_id (IsSound-Quiet boot)) λ id.
            Keeps-bind _ _ (Keeps-due_notifications (IsSound-Quiet boot) k _) λ entries.
              Keeps-bind _ _ (Keeps-gets _) λ state. Keeps-bind _ _ (Keeps-commit _) λ _.
                Keeps-bind _ _ (Keeps-set_timers (IsSound-Quiet boot) _) λ _.
                  Keeps-bind _ _ (Keeps-announce_scheduled (IsSound-Quiet boot) _ _)
                    λ _. Keeps-pure id

  commit_cancellation-IsSound :
      (id : TimerId) (k : ActionKind) → Keeps (IsSound boot) (commit_cancellation id k)
  unfolding commit_cancellation
  commit_cancellation-IsSound id k = Keeps-bind _ _ (Keeps-gets _) λ state.
      Keeps-if _ _ _ (λ _. Keeps-raise _)
        λ _. Keeps-bind _ _ (Keeps-commit _) λ _.
          Keeps-bind _ _ (Keeps-set_timers (IsSound-Quiet boot) _) λ _.
            Keeps-bind _ _ (Keeps-ignore _ (Keeps-emit_event (IsSound-Quiet boot) _))
              λ _. Keeps-bind _ _ (Keeps-sync_if_shutdown (IsSound-Quiet boot) k) λ _. Keeps-pure _

  cancel_found-IsSound :
      (id : TimerId) (k : ActionKind) (found : Option ScheduledAction)
      → Keeps (IsSound boot) (cancel_found id k found)
  unfolding cancel_found refuse_cancelling
  cancel_found-IsSound id k none = Keeps-pure _
  cancel_found-IsSound id k (some a) =
      Keeps-if _ _ _ (λ _. Keeps-pure _)
        λ _.
          Keeps-if _ _ _ (λ _. Keeps-bind _ _ (Keeps-gets _) λ _. Keeps-raise _)
            λ _.
              Keeps-bind _ _ (Keeps-check_boundary (IsSound-Quiet boot) id k a.action_kind)
                λ _. commit_cancellation-IsSound id k

  pub handle_cancel_exact_timer-IsSound :
      (id : TimerId) (k : ActionKind) (i : Initiator)
      → Keeps (IsSound boot) (handle_cancel_exact_timer id k i)
  unfolding handle_cancel_exact_timer
  handle_cancel_exact_timer-IsSound id k i =
      Keeps-bind _ _ (Keeps-gets _) λ found. cancel_found-IsSound id k found

  pub handle_ack_telegram-IsSound :
      (id : OutboxEntryId) → Keeps (IsSound boot) (handle_ack_telegram id)
  unfolding handle_ack_telegram
  handle_ack_telegram-IsSound id = search (keeps_rules, Keeps-commit) depth 12

  pub handle_send_child_message-IsSound :
      (text : String) → Keeps (IsSound boot) (handle_send_child_message text)
  unfolding handle_send_child_message
  handle_send_child_message-IsSound text =
      search
        (
          keeps_rules,
          Keeps-commit,
          Keeps-next_outbox_id (IsSound-Quiet boot),
          Keeps-utc_now (IsSound-Quiet boot),
        )
        depth 16

  pub handle_publish_parent_message-IsSound :
      (m : ChatMessage) → Keeps (IsSound boot) (handle_publish_parent_message m)
  unfolding handle_publish_parent_message
  handle_publish_parent_message-IsSound m =
      search (keeps_rules, Keeps-emit_event (IsSound-Quiet boot)) depth 12
