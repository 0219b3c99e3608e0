-- ===== src/Persistence/Codec/Outbox.antt =====
-- crates/service/src/persistence.rs: the stored form of one entry of the outbox.
use palka.Base.{String, Result, ok, err}
use palka.Base.Results.{◌>>=◌}
use palka.Base.Text.{◌<>◌}
use palka.Domain.{MessageSender, DeliveryStatus, MessageId}
use palka.Persistence.{
  PersistenceError, validation, TelegramPayload, TelegramOutboxEntry, OutboxEntryId,
}
use palka.Persistence.Hex.{format_128bit_id_hex, parse_128bit_id_hex}
use palka.Persistence.Stored.{
  MessageSenderDto, DeliveryStatusDto, TelegramPayloadDto, TelegramOutboxEntryDto,
}

abbrev pub sender_of_dto : MessageSenderDto → MessageSender
sender_of_dto MessageSenderDto.child = MessageSender.child

abbrev pub status_of_dto : DeliveryStatusDto → DeliveryStatus
status_of_dto DeliveryStatusDto.accepted_by_service = DeliveryStatus.accepted_by_service

unfoldable pub payload_of_dto : TelegramPayloadDto → Result TelegramPayload PersistenceError
payload_of_dto (TelegramPayloadDto.chat m) = do
  bytes ← parse_128bit_id_hex "message.id" m.id
  ok (
      TelegramPayload.chat (record {
        id = record { bytes = bytes };
        sender = sender_of_dto m.sender;
        text = m.text;
        timestamp = record { millis = m.timestamp };
        delivery_status = status_of_dto m.delivery_status;
      }))
payload_of_dto (TelegramPayloadDto.service_notification text) =
    ok (TelegramPayload.service_notification text)

abbrev pub entry_id_of_dto : TelegramOutboxEntryDto → Result OutboxEntryId PersistenceError
entry_id_of_dto d = do
  bytes ← parse_128bit_id_hex "entry_id" d.entry_id
  ok (record { bytes = bytes })

-- The body of the loop over the outbox, past the test of the identifier.
abbrev pub entry_of_dto :
    OutboxEntryId → TelegramOutboxEntryDto → Result TelegramOutboxEntry PersistenceError
entry_of_dto id d = do
  payload ← payload_of_dto d.payload
  ok (record {
    entry_id = id;
    payload = payload;
    attempt_count = d.attempt_count;
    last_error = d.last_error;
  })

unfoldable pub sender_to_dto : MessageId → MessageSender → Result MessageSenderDto PersistenceError
sender_to_dto id MessageSender.child = ok MessageSenderDto.child
sender_to_dto id MessageSender.parent = err (
    validation
      ("Prohibited Parent sender in telegram_outbox ChatMessage " <> format_128bit_id_hex id.bytes))

module _ (debug_text : String → String) where
  -- `{:?}` of a status.
  unfoldable pub debug_status : DeliveryStatus → String
  debug_status DeliveryStatus.pending = "Pending"
  debug_status DeliveryStatus.accepted_by_service = "AcceptedByService"
  debug_status DeliveryStatus.accepted_by_telegram = "AcceptedByTelegram"
  debug_status DeliveryStatus.delivered_to_tray = "DeliveredToTray"
  debug_status (DeliveryStatus.failed reason) = "Failed { reason: " <> debug_text reason <> " }"

  invalid_status : MessageId → DeliveryStatus → PersistenceError
  invalid_status id status = validation (
      "Invalid delivery_status "
      <> debug_status status
      <> " in telegram_outbox ChatMessage "
      <> format_128bit_id_hex id.bytes
      <> " (must be AcceptedByService)")

  unfoldable pub status_to_dto :
      MessageId → DeliveryStatus → Result DeliveryStatusDto PersistenceError
  unfolding invalid_status
  status_to_dto id DeliveryStatus.accepted_by_service = ok DeliveryStatusDto.accepted_by_service
  status_to_dto id status = err (invalid_status id status)

  unfoldable pub payload_to_dto : TelegramPayload → Result TelegramPayloadDto PersistenceError
  payload_to_dto (TelegramPayload.chat m) = do
    sender ← sender_to_dto m.id m.sender
    delivery_status ← status_to_dto m.id m.delivery_status
    ok (
        TelegramPayloadDto.chat (record {
          id = format_128bit_id_hex m.id.bytes;
          sender = sender;
          text = m.text;
          timestamp = m.timestamp.millis;
          delivery_status = delivery_status;
        }))
  payload_to_dto (TelegramPayload.service_notification text) =
      ok (TelegramPayloadDto.service_notification text)

  abbrev pub entry_to_dto : TelegramOutboxEntry → Result TelegramOutboxEntryDto PersistenceError
  entry_to_dto e = do
    payload ← payload_to_dto e.payload
    ok (record {
      entry_id = format_128bit_id_hex e.entry_id.bytes;
      payload = payload;
      attempt_count = e.attempt_count;
      last_error = e.last_error;
    })
