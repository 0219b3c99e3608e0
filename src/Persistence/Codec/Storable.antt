-- ===== src/Persistence/Codec/Storable.antt =====
-- crates/service/src/persistence.rs: which states can be stored, and which are read.
use palka.Base.{ℕ, ◌≡◌, ◌≢◌, ◌↔◌, sym, subst, true, List, [], ◌∷◌, String, ok, All, arith}
use palka.Base.Results.{>>=-eq-ok}
use palka.Domain.{
  TimerId, ScheduledAction, timer_id_eq, timer_id_eq_sound, timer_id_eq_refl, ActionExecutionState,
  MessageSender, DeliveryStatus,
}
use palka.Persistence.{
  PersistentState, TelegramOutboxEntry, TelegramPayload, chat, service_notification, OutboxEntryId,
  outbox_id_eq, outbox_id_eq_sound, outbox_id_eq_refl, duplicate_timer_id,
  duplicate_outbox_entry_id,
}
use palka.Persistence.Hex.{parse_128bit_id_hex}
use palka.Persistence.Hex.Canonical.{parse_128bit_id_hex-eq-ok_iff}
use palka.Persistence.Seen.{AreDistinct, collect-AreDistinct}
use palka.Persistence.Stored.{
  StateFileV1Dto, ScheduledActionDto, TelegramOutboxEntryDto, TelegramPayloadDto,
  ActionExecutionStateDto,
}
use palka.Persistence.Codec.Actions.{execution_of_dto, action_of_dto, timer_id_of_dto}
use palka.Persistence.Codec.Outbox.{
  sender_of_dto, status_of_dto, payload_of_dto, entry_id_of_dto, entry_of_dto,
}
use palka.Persistence.Codec.{state_of_dto, actions_of_dto, outbox_of_dto}
use palka.Persistence.Codec.RoundTrip.{IsId, PayloadHasId, EntryHasIds, HasIds}

-- An action that may be stored has not ended.
abbrev pub IsOpen : ActionExecutionState → Type 0
IsOpen s = (s ≢ ActionExecutionState.completed) × (s ≢ ActionExecutionState.missed)

-- A message that may be stored comes from the child and awaits its delivery.
abbrev pub IsOutgoing : TelegramPayload → Type 0
IsOutgoing (chat m) =
    (m.sender ≡ MessageSender.child) × (m.delivery_status ≡ DeliveryStatus.accepted_by_service)
IsOutgoing (service_notification text) = Unit

pub record IsStorable (s : PersistentState) : Type 0 where
  pub timers_differ : AreDistinct (λ a. a.id) s.active_actions
  pub entries_differ : AreDistinct (λ e. e.entry_id) s.telegram_outbox
  pub unfinished : All (λ a. IsOpen a.execution_state) s.active_actions
  pub outgoing : All (λ e. IsOutgoing e.payload) s.telegram_outbox

pub timer_id_eq_iff : (x y : TimerId) → (timer_id_eq x y ≡ true) ↔ (x ≡ y)
timer_id_eq_iff x y =
    (timer_id_eq_sound x y, λ e. subst (λ z. timer_id_eq x z ≡ true) e (timer_id_eq_refl x))

pub outbox_id_eq_iff : (x y : OutboxEntryId) → (outbox_id_eq x y ≡ true) ↔ (x ≡ y)
outbox_id_eq_iff x y =
    (outbox_id_eq_sound x y, λ e. subst (λ z. outbox_id_eq x z ≡ true) e (outbox_id_eq_refl x))

parse-IsId :
    (field s : String) (bytes : List ℕ) → parse_128bit_id_hex field s ≡ ok bytes → IsId bytes
parse-IsId field s bytes h =
    let (n, small, same) = (parse_128bit_id_hex-eq-ok_iff field s bytes).0 h in (n, small)

execution_of_dto-IsOpen : (d : ActionExecutionStateDto) → IsOpen (execution_of_dto d)
execution_of_dto-IsOpen d = ground arith

action_of_dto-made :
    (d : ScheduledActionDto) (id : TimerId) (a : ScheduledAction)
    → timer_id_of_dto d ≡ ok id
    → action_of_dto id d ≡ ok a
    → (a.id ≡ id) × IsId a.id.bytes × IsOpen a.execution_state
action_of_dto-made d id a h made =
    let read : parse_128bit_id_hex "id" d.id ≡ ok id.bytes = ground arith in
    let fields : (a.id ≡ id) × (execution_of_dto d.execution_state ≡ a.execution_state) =
      ground arith in
    (
      fields.0,
      subst (λ x. IsId x.bytes) (sym fields.0) (parse-IsId "id" d.id id.bytes read),
      subst IsOpen fields.1 (execution_of_dto-IsOpen d.execution_state),
    )

payload_of_dto-made :
    (d : TelegramPayloadDto) (p : TelegramPayload)
    → payload_of_dto d ≡ ok p
    → PayloadHasId p × IsOutgoing p
unfolding payload_of_dto
payload_of_dto-made (TelegramPayloadDto.service_notification text) p h = ground arith
payload_of_dto-made (TelegramPayloadDto.chat m) p h =
    let message = λ (bytes : List ℕ). chat (record {
      id = record { bytes = bytes };
      sender = sender_of_dto m.sender;
      text = m.text;
      timestamp = record { millis = m.timestamp };
      delivery_status = status_of_dto m.delivery_status;
    }) in
    let (bytes, hb, e) =
      >>=-eq-ok (parse_128bit_id_hex "message.id" m.id) (λ b. ok (message b)) h in
    let same : message bytes ≡ p = ground arith in
    subst (λ x. PayloadHasId x × IsOutgoing x) same
      (parse-IsId "message.id" m.id bytes hb, (ground arith, ground arith))

entry_of_dto-made :
    (d : TelegramOutboxEntryDto) (id : OutboxEntryId) (e : TelegramOutboxEntry)
    → entry_id_of_dto d ≡ ok id
    → entry_of_dto id d ≡ ok e
    → (e.entry_id ≡ id) × EntryHasIds e × IsOutgoing e.payload
entry_of_dto-made d id e h made =
    let read : parse_128bit_id_hex "entry_id" d.entry_id ≡ ok id.bytes = ground arith in
    let fields : (e.entry_id ≡ id) × (payload_of_dto d.payload ≡ ok e.payload) = ground arith in
    let payload = payload_of_dto-made d.payload e.payload fields.1 in
    let size =
      subst (λ x. IsId x.bytes) (sym fields.0) (parse-IsId "entry_id" d.entry_id id.bytes read) in
    (fields.0, (size, payload.0), payload.1)

All-both {ℓ} :
    {A : Type ℓ} (P Q : A → Type 0) (l : List A) → All (λ a. P a × Q a) l → All P l × All Q l
All-both P Q [] h = (tt, tt)
All-both P Q (a ∷ l) h = let (p, q) = All-both P Q l h.1 in ((h.0.0, p), (h.0.1, q))

state_of_dto-eq-ok :
    (d : StateFileV1Dto) (s : PersistentState)
    → state_of_dto d ≡ ok s
    → (d.schema_version ≡ 1)
      × (actions_of_dto d.active_actions ≡ ok s.active_actions)
      × (outbox_of_dto d.telegram_outbox ≡ ok s.telegram_outbox)
unfolding state_of_dto
state_of_dto-eq-ok d s h = ground arith

-- A stored form that is accepted has schema version 1, and its state can be stored: its timers and
-- its entries have distinct identifiers of 16 bytes, no action has ended, and every message comes
-- from the child and awaits its delivery.
pub state_of_dto-IsStorable :
    (d : StateFileV1Dto) (s : PersistentState)
    → state_of_dto d ≡ ok s
    → (d.schema_version ≡ 1) × HasIds s × IsStorable s
state_of_dto-IsStorable d s h =
    let (v, ha, ho) = state_of_dto-eq-ok d s h in
    let (timers, actions) =
      collect-AreDistinct timer_id_eq (λ a. a.id) timer_id_eq_iff duplicate_timer_id timer_id_of_dto
        action_of_dto (λ a. IsId a.id.bytes × IsOpen a.execution_state)
        (λ x k a p q. let (i, j, o) = action_of_dto-made x k a p q in (i, (j, o))) d.active_actions
        s.active_actions ha in
    let (entries, outbox) =
      collect-AreDistinct outbox_id_eq (λ e. e.entry_id) outbox_id_eq_iff duplicate_outbox_entry_id
        entry_id_of_dto entry_of_dto (λ e. EntryHasIds e × IsOutgoing e.payload)
        (λ x k a p q. let (i, j, o) = entry_of_dto-made x k a p q in (i, (j, o))) d.telegram_outbox
        s.telegram_outbox ho in
    let (ids, unfinished) =
      All-both (λ a. IsId a.id.bytes) (λ a. IsOpen a.execution_state) s.active_actions actions in
    let (entry_ids, outgoing) =
      All-both EntryHasIds (λ e. IsOutgoing e.payload) s.telegram_outbox outbox in
    (
      v,
      (ids, entry_ids),
      record {
        timers_differ = timers;
        entries_differ = entries;
        unfinished = unfinished;
        outgoing = outgoing;
      },
    )
