-- ===== src/Runtime/Messages.antt =====
-- crates/service/src/runtime.rs: the Telegram outbox and the chat messages.
use Prim.Native.String.{len}
use palka.Base.Text.{is_whitespace, is_blank}
use palka.Base.{
  Bool, true, false, not, ◌||◌, none, List, [], ◌∷◌, ◌++◌, String, if◌then◌else◌, ltb, ◌==◌,
}
use palka.Domain.{
  ChatMessage, MessageId, MessageSender, parent, child, accepted_by_service, chat_message_received,
}
use palka.Persistence.{TelegramOutboxEntry, chat, OutboxEntryId, outbox_id_eq}
use palka.Runtime.State.{ServiceRuntimeError, persistence, invalid_input}
use palka.Runtime.Action.{when◌then◌else◌, Action, pure, raise, gets, map_err, ignore, ◌>>=◌, ◌>>◌}
use palka.Runtime.Ports.{utc_now, next_outbox_id}
use palka.Runtime.Events.{emit_event}
use palka.Runtime.Commit.{commit_authoritative_state}

-- The entry is found, and `Vec::remove` of its position.
unfoldable pub has_entry : OutboxEntryId → List TelegramOutboxEntry → Bool
has_entry id [] = false
has_entry id (e ∷ es) = outbox_id_eq e.entry_id id || has_entry id es

unfoldable pub remove_first : OutboxEntryId → List TelegramOutboxEntry → List TelegramOutboxEntry
remove_first id [] = []
remove_first id (e ∷ es) =
    let rest = remove_first id es in if outbox_id_eq e.entry_id id then es else e ∷ rest

unfoldable pub handle_ack_telegram : OutboxEntryId → Action ServiceRuntimeError Bool
handle_ack_telegram entry_id = do
  state ← gets (λ c. c.state)
  when has_entry entry_id state.telegram_outbox
      then (do
        map_err persistence (
            commit_authoritative_state
              (record state { telegram_outbox = remove_first entry_id state.telegram_outbox }))
        pure true)
      else pure false

unfoldable pub is_valid_text : String → Bool
unfolding is_whitespace is_blank
is_valid_text text = not (len text == 0 || ltb 4096 (len text) || is_blank text)

unfoldable pub handle_send_child_message : String → Action ServiceRuntimeError MessageId
handle_send_child_message text =
    when not (is_valid_text text)
    then raise
        (invalid_input "Child chat message text must be 1..=4096 UTF-8 bytes and non-whitespace")
    else do
      entry_id ← next_outbox_id
      now ← utc_now
      let message_id : MessageId = record { bytes = entry_id.bytes }
      let message : ChatMessage = record {
        id = message_id;
        sender = child;
        text = text;
        timestamp = now;
        delivery_status = accepted_by_service;
      }
      state ← gets (λ c. c.state)
      let entry : TelegramOutboxEntry = record {
        entry_id = entry_id;
        payload = chat message;
        attempt_count = 0;
        last_error = none;
      }
      map_err persistence (
          commit_authoritative_state
            (record state { telegram_outbox = state.telegram_outbox ++ entry ∷ [] }))
      pure message_id

abbrev pub is_parent : MessageSender → Bool
is_parent parent = true
is_parent child = false

unfoldable pub handle_publish_parent_message : ChatMessage → Action ServiceRuntimeError (Unit {0})
handle_publish_parent_message message =
    when not (is_parent message.sender)
    then raise (invalid_input "Parent chat message must have MessageSender::Parent")
    else ignore (emit_event (chat_message_received message))
