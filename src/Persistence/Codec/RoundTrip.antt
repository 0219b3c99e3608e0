-- ===== src/Persistence/Codec/RoundTrip.antt =====
-- crates/service/src/persistence.rs: what is stored is read back.
use palka.Base.{
  AreBytes, ℕ, ◌≡◌, ap, subst, ◌∙◌, false, List, [], ◌∷◌, String, Result, ok, All, length, arith,
}
use palka.Base.Results.{>>=-eq-ok}
use palka.Domain.{
  ThresholdSet, WarningThreshold, TimerId, ScheduledAction, timer_id_eq, ActionExecutionState,
  MessageId, MessageSender, DeliveryStatus, ChatMessage,
}
use palka.Domain.Thresholds.{empty, contains, insert, insert_all}
use palka.Domain.Thresholds.Coverage.{occurs, contains-insert_all}
use palka.Persistence.{
  duplicate_timer_id, duplicate_outbox_entry_id, outbox_id_eq, PersistentState, TelegramOutboxEntry,
  TelegramPayload, chat, service_notification,
}
use palka.Persistence.Hex.{format_128bit_id_hex}
use palka.Persistence.Hex.Canonical.{parse_128bit_id_hex-format}
use palka.Persistence.Seen.{collect-collect}
use palka.Persistence.Stored.{
  StateFileV1Dto, state_schema_version_v1, MessageSenderDto, DeliveryStatusDto, TelegramPayloadDto,
  TelegramOutboxEntryDto, ScheduledActionDto, WarningThresholdDto, ActionExecutionStateDto,
}
use palka.Persistence.Codec.Outbox.{
  sender_of_dto, sender_to_dto, status_of_dto, status_to_dto, payload_of_dto, payload_to_dto,
  entry_id_of_dto, entry_of_dto, entry_to_dto,
}
use palka.Persistence.Codec.{
  state_of_dto, state_to_dto, encode_state_json, decode_state_json, desired_to_dto, retry_to_dto,
  actions_to_dto, outbox_to_dto,
}
use palka.Persistence.Codec.Actions.{
  kind_to_dto, initiator_to_dto, threshold_of_dto, threshold_to_dto, thresholds_of_dto,
  thresholds_to_dto, execution_of_dto, execution_to_dto, action_of_dto, action_to_dto,
  timer_id_of_dto,
}

-- The 16 bytes of an identifier.
abbrev pub IsId : List ℕ → Type 0
IsId bytes = (length bytes ≡ 16) × AreBytes bytes

-- Walking a set meets its members.
abbrev pub Walks : (ThresholdSet → List WarningThreshold) → Type 0
Walks iterate = (s : ThresholdSet) (t : WarningThreshold) → occurs t (iterate s) ≡ contains s t

threshold_of_dto-to_dto : (t : WarningThreshold) → threshold_of_dto (threshold_to_dto t) ≡ t
threshold_of_dto-to_dto t = ground arith

thresholds_to_dto-eq-ok :
    (id : TimerId) (seen : ThresholdSet) (t : WarningThreshold) (ts : List WarningThreshold)
    (ds : List WarningThresholdDto)
    → thresholds_to_dto id seen (t ∷ ts) ≡ ok ds
    → (rest : List WarningThresholdDto) × (contains seen t ≡ false)
      × (thresholds_to_dto id (insert seen t) ts ≡ ok rest)
      × (ds ≡ threshold_to_dto t ∷ rest)
unfolding thresholds_to_dto
thresholds_to_dto-eq-ok id seen t ts ds h = ground arith

thresholds_of_dto-to_dto :
    (id : TimerId) (seen : ThresholdSet) (ts : List WarningThreshold)
    (ds : List WarningThresholdDto)
    → thresholds_to_dto id seen ts ≡ ok ds
    → thresholds_of_dto id seen ds ≡ ok (insert_all ts seen)
unfolding thresholds_of_dto thresholds_to_dto insert_all
thresholds_of_dto-to_dto id seen [] ds h = ground arith
thresholds_of_dto-to_dto id seen (t ∷ ts) ds h =
    let (rest, fresh, hr, e) = thresholds_to_dto-eq-ok id seen t ts ds h in
    let ih = thresholds_of_dto-to_dto id (insert seen t) ts rest hr in
    let same = threshold_of_dto-to_dto t in
    ap (thresholds_of_dto id seen) e ∙ ground (arith, ih, fresh, same)

execution_of_dto-to_dto :
    (id : TimerId) (s : ActionExecutionState) (d : ActionExecutionStateDto)
    → execution_to_dto id s ≡ ok d
    → execution_of_dto d ≡ s
unfolding execution_to_dto
execution_of_dto-to_dto id s d h = ground arith

set_eq : (a b : ThresholdSet) → ((t : WarningThreshold) → contains a t ≡ contains b t) → a ≡ b
set_eq a b h = ground (
  arith,
  h WarningThreshold.m60,
  h WarningThreshold.m30,
  h WarningThreshold.m20,
  h WarningThreshold.m10,
  h WarningThreshold.m3,
)

contains-empty : (t : WarningThreshold) → contains empty t ≡ false
contains-empty t = ground arith

insert_all-iterate :
    (iterate : ThresholdSet → List WarningThreshold)
    → Walks iterate
    → (s : ThresholdSet) → insert_all (iterate s) empty ≡ s
insert_all-iterate iterate walks s =
    set_eq (insert_all (iterate s) empty) s
      (λ t. contains-insert_all (iterate s) empty t ∙ ground (arith, walks s t, contains-empty t))

module _ (iterate : ThresholdSet → List WarningThreshold) (walks : Walks iterate) where
  thresholds_round_trip :
      (id : TimerId) (s : ThresholdSet) (ds : List WarningThresholdDto)
      → thresholds_to_dto id empty (iterate s) ≡ ok ds
      → thresholds_of_dto id empty ds ≡ ok s
  thresholds_round_trip id s ds h =
      thresholds_of_dto-to_dto id empty (iterate s) ds h
      ∙ ap ok (insert_all-iterate iterate walks s)

  action_to_dto-eq-ok :
      (a : ScheduledAction) (d : ScheduledActionDto)
      → action_to_dto iterate a ≡ ok d
      → (ds : List WarningThresholdDto) × (s : ActionExecutionStateDto) × (thresholds_to_dto a.id
            empty
            (iterate a.emitted_thresholds)
          ≡ ok ds)
        × (execution_to_dto a.id a.execution_state ≡ ok s)
        × (record {
          id = format_128bit_id_hex a.id.bytes;
          action_kind = kind_to_dto a.action_kind;
          deadline = a.deadline.at.millis;
          created_at = a.created_at.millis;
          created_by = initiator_to_dto a.created_by;
          emitted_thresholds = ds;
          execution_state = s;
        }
            ≡ d)
  action_to_dto-eq-ok a d h = ground arith

  action_of_dto-to_dto :
      (a : ScheduledAction) (d : ScheduledActionDto)
      → IsId a.id.bytes
      → action_to_dto iterate a ≡ ok d
      → (timer_id_of_dto d ≡ ok a.id) × (action_of_dto a.id d ≡ ok a)
  action_of_dto-to_dto a d size h =
      let (ds, s, ht, hs, e) = action_to_dto-eq-ok a d h in
      let id = parse_128bit_id_hex-format "id" a.id.bytes size.0 size.1 in
      let thresholds = thresholds_round_trip a.id a.emitted_thresholds ds ht in
      let execution = execution_of_dto-to_dto a.id a.execution_state s hs in
      subst (λ x. (timer_id_of_dto x ≡ ok a.id) × (action_of_dto a.id x ≡ ok a)) e
        (ground (arith, id), ground (arith, thresholds, execution))

-- The identifiers of an entry have 16 bytes.
abbrev pub PayloadHasId : TelegramPayload → Type 0
PayloadHasId (chat m) = IsId m.id.bytes
PayloadHasId (service_notification text) = Unit

abbrev pub EntryHasIds : TelegramOutboxEntry → Type 0
EntryHasIds e = IsId e.entry_id.bytes × PayloadHasId e.payload

-- Every identifier of a state has 16 bytes.
abbrev pub HasIds : PersistentState → Type 0
HasIds s = All (λ a. IsId a.id.bytes) s.active_actions × All EntryHasIds s.telegram_outbox

sender_of_dto-to_dto :
    (id : MessageId) (s : MessageSender) (d : MessageSenderDto)
    → sender_to_dto id s ≡ ok d
    → sender_of_dto d ≡ s
unfolding sender_to_dto
sender_of_dto-to_dto id s d h = ground arith

module _ (debug_text : String → String) where
  status_of_dto-to_dto :
      (id : MessageId) (s : DeliveryStatus) (d : DeliveryStatusDto)
      → status_to_dto debug_text id s ≡ ok d
      → status_of_dto d ≡ s
  unfolding status_to_dto
  status_of_dto-to_dto id s d h = ground arith

  chat_to_dto-eq-ok :
      (m : ChatMessage) (d : TelegramPayloadDto)
      → payload_to_dto debug_text (chat m) ≡ ok d
      → (sender : MessageSenderDto) × (status : DeliveryStatusDto) × (sender_to_dto m.id m.sender
          ≡ ok sender)
        × (status_to_dto debug_text m.id m.delivery_status ≡ ok status)
        × (TelegramPayloadDto.chat (record {
          id = format_128bit_id_hex m.id.bytes;
          sender = sender;
          text = m.text;
          timestamp = m.timestamp.millis;
          delivery_status = status;
        })
            ≡ d)
  unfolding payload_to_dto
  chat_to_dto-eq-ok m d h = ground arith

  pub entry_to_dto-eq-ok :
      (e : TelegramOutboxEntry) (d : TelegramOutboxEntryDto)
      → entry_to_dto debug_text e ≡ ok d
      → (payload : TelegramPayloadDto) × (payload_to_dto debug_text e.payload ≡ ok payload)
        × (record {
          entry_id = format_128bit_id_hex e.entry_id.bytes;
          payload = payload;
          attempt_count = e.attempt_count;
          last_error = e.last_error;
        }
            ≡ d)
  entry_to_dto-eq-ok e d h =
      let (payload, hp, made) =
        >>=-eq-ok (payload_to_dto debug_text e.payload)
          (λ payload. ok (record {
            entry_id = format_128bit_id_hex e.entry_id.bytes;
            payload = payload;
            attempt_count = e.attempt_count;
            last_error = e.last_error;
          }))
          h in
      (payload, hp, ground arith)

  payload_of_dto-to_dto :
      (p : TelegramPayload) (d : TelegramPayloadDto)
      → PayloadHasId p
      → payload_to_dto debug_text p ≡ ok d
      → payload_of_dto d ≡ ok p
  unfolding payload_to_dto payload_of_dto
  payload_of_dto-to_dto (service_notification text) d size h = ground arith
  payload_of_dto-to_dto (chat m) d size h =
      let (sender, status, hs, hd, e) = chat_to_dto-eq-ok m d h in
      let id = parse_128bit_id_hex-format "message.id" m.id.bytes size.0 size.1 in
      let same_sender = sender_of_dto-to_dto m.id m.sender sender hs in
      let same_status = status_of_dto-to_dto m.id m.delivery_status status hd in
      subst (λ x. payload_of_dto x ≡ ok (chat m)) e (ground (arith, id, same_sender, same_status))

  entry_of_dto-to_dto :
      (e : TelegramOutboxEntry) (d : TelegramOutboxEntryDto)
      → EntryHasIds e
      → entry_to_dto debug_text e ≡ ok d
      → (entry_id_of_dto d ≡ ok e.entry_id) × (entry_of_dto e.entry_id d ≡ ok e)
  entry_of_dto-to_dto e d size h =
      let (payload, hp, same) = entry_to_dto-eq-ok e d h in
      let id = parse_128bit_id_hex-format "entry_id" e.entry_id.bytes size.0.0 size.0.1 in
      let back = payload_of_dto-to_dto e.payload payload size.1 hp in
      subst (λ x. (entry_id_of_dto x ≡ ok e.entry_id) × (entry_of_dto e.entry_id x ≡ ok e)) same
        (ground (arith, id), ground (arith, back))

module _ (iterate : ThresholdSet → List WarningThreshold) (debug_text : String → String) where
  pub state_to_dto-eq-ok :
      (s : PersistentState) (d : StateFileV1Dto)
      → state_to_dto iterate debug_text s ≡ ok d
      → (actions : List ScheduledActionDto) × (outbox : List TelegramOutboxEntryDto)
        × (actions_to_dto iterate debug_text s.active_actions ≡ ok actions)
        × (outbox_to_dto iterate debug_text s.telegram_outbox ≡ ok outbox)
        × (record {
          schema_version = state_schema_version_v1;
          desired_internet_state = desired_to_dto s.desired_internet_state;
          active_actions = actions;
          internet_retry = retry_to_dto s.internet_retry;
          telegram_outbox = outbox;
        }
            ≡ d)
  unfolding state_to_dto
  state_to_dto-eq-ok s d h = ground arith

module _ (iterate : ThresholdSet → List WarningThreshold) (debug_text : String → String)
    (walks : Walks iterate) where
  -- When walking a set meets its members, and the identifiers have 16 bytes, a state that has a
  -- stored form is read back from it unchanged.
  pub state_of_dto-to_dto :
      (s : PersistentState) (d : StateFileV1Dto)
      → HasIds s
      → state_to_dto iterate debug_text s ≡ ok d
      → state_of_dto d ≡ ok s
  unfolding state_of_dto
  state_of_dto-to_dto s d size h =
      let (actions, outbox, ha, ho, e) = state_to_dto-eq-ok iterate debug_text s d h in
      let a =
        collect-collect timer_id_eq duplicate_timer_id (λ x. x.id) (λ id. action_to_dto iterate)
          timer_id_of_dto action_of_dto (λ x. IsId x.id.bytes)
          (λ x y. action_of_dto-to_dto iterate walks x y) [] s.active_actions actions size.0 ha in
      let o =
        collect-collect outbox_id_eq duplicate_outbox_entry_id (λ x. x.entry_id)
          (λ id. entry_to_dto debug_text) entry_id_of_dto entry_of_dto EntryHasIds
          (λ x y. entry_of_dto-to_dto debug_text x y) [] s.telegram_outbox outbox size.1 ho in
      subst (λ x. state_of_dto x ≡ ok s) e (ground (arith, a, o))

  encode_state_json-eq-ok :
      {J : Type 0} (to_string : StateFileV1Dto → Result J String) (s : PersistentState) (json : J)
      → encode_state_json iterate debug_text to_string s ≡ ok json
      → (d : StateFileV1Dto) × (state_to_dto iterate debug_text s ≡ ok d) × (to_string d ≡ ok json)
  unfolding encode_state_json
  encode_state_json-eq-ok to_string s json h = ground arith

  -- If the JSON reader reads back what the writer wrote, walking a set meets its members, and the
  -- identifiers have 16 bytes, then a state that is encoded is decoded unchanged.
  pub decode_state_json-encode :
      {J : Type 0} (to_string : StateFileV1Dto → Result J String)
      (read : J → Result StateFileV1Dto String) (s : PersistentState) (json : J)
      → ((d : StateFileV1Dto) (t : J) → to_string d ≡ ok t → read t ≡ ok d)
      → HasIds s
      → encode_state_json iterate debug_text to_string s ≡ ok json
      → decode_state_json read json ≡ ok s
  unfolding encode_state_json decode_state_json
  decode_state_json-encode to_string read s json reads size h =
      let (d, hd, ht) = encode_state_json-eq-ok to_string s json h in
      let back = state_of_dto-to_dto s d size hd in
      let r = reads d json ht in ground (arith, r, back)
