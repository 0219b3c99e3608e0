-- ===== src/Scenarios/Stored.antt =====
-- crates/service/src/persistence.rs: a concrete state, stored and read.
use palka.Base.{
  ℕ, ◌≡◌, ◌↔◌, refl, sym, any, Bool, none, some, List, [], ◌∷◌, ok, length, AreBytes, All, retain,
  ◌≢◌, arith,
}
use palka.Base.Int.{pos}
use palka.Base.Text.{as_bytes, digit, utf8}
use palka.Domain.{
  ThresholdSet, WarningThreshold, m60, m30, m20, m10, m3, ScheduledAction, DesiredInternetState,
  ActionExecutionState, block_internet, parent_local_pin, MessageSender, DeliveryStatus,
}
use palka.Domain.Thresholds.{empty, contains, insert, all}
use palka.Persistence.{PersistentState, TelegramOutboxEntry, chat}
use palka.Persistence.Hex.{
  parse_128bit_id_hex, format_128bit_id_hex, read_pairs, join_nibbles, nibble,
}
use palka.Persistence.Hex.Canonical.{parse_128bit_id_hex-eq-ok_iff}
use palka.Persistence.Seen.{AreDistinct, collect}
use palka.Persistence.Stored.{
  StateFileV1Dto, DesiredInternetStateDto, ActionKindDto, InitiatorDto, WarningThresholdDto,
  ActionExecutionStateDto, TelegramPayloadDto, MessageSenderDto, DeliveryStatusDto,
}
use palka.Persistence.Codec.{state_of_dto, state_to_dto, encode_state_json, decode_state_json}
use palka.Persistence.Codec.Actions.{thresholds_to_dto, thresholds_of_dto, execution_to_dto}
use palka.Persistence.Codec.Outbox.{payload_to_dto, payload_of_dto, sender_to_dto, status_to_dto}
use palka.Persistence.Codec.RoundTrip.{HasIds, Walks, decode_state_json-encode}
use palka.Persistence.Codec.Storable.{IsStorable, state_of_dto-IsStorable}
use palka.Persistence.Codec.Written.{WalksOnce, state_to_dto_iff, state_of_dto-stored_again}

-- A set walked in the order of `WarningThreshold::ALL`.
abbrev walk : ThresholdSet → List WarningThreshold
walk s = retain (contains s) all

walk-Walks : Walks walk
unfolding retain
walk-Walks s m60 = ground arith
walk-Walks s m30 = ground arith
walk-Walks s m20 = ground arith
walk-Walks s m10 = ground arith
walk-Walks s m3 = ground arith

retain-differ :
    (p : WarningThreshold → Bool) (t : WarningThreshold) (ts : List WarningThreshold)
    → All (λ u. t ≢ u) ts
    → All (λ u. t ≢ u) (retain p ts)
unfolding retain
retain-differ p t [] h = tt
retain-differ p t (u ∷ us) h = ground (arith, retain-differ p t us)

retain-AreDistinct :
    (p : WarningThreshold → Bool) (ts : List WarningThreshold)
    → AreDistinct (λ t. t) ts
    → AreDistinct (λ t. t) (retain p ts)
unfolding retain
retain-AreDistinct p [] h = tt
retain-AreDistinct p (t ∷ ts) h =
    ground (arith, retain-AreDistinct p ts h.1, retain-differ p t ts h.0)

all_differ : AreDistinct (λ t. t) all
all_differ = ground arith

walk-WalksOnce : WalksOnce walk
walk-WalksOnce s = retain-AreDistinct (contains s) all all_differ

abbrev sixteen : List ℕ
sixteen = 0 ∷ 1 ∷ 2 ∷ 3 ∷ 4 ∷ 5 ∷ 6 ∷ 7 ∷ 8 ∷ 9 ∷ 10 ∷ 11 ∷ 12 ∷ 13 ∷ 14 ∷ 255 ∷ []

sixteen-AreBytes : AreBytes sixteen
sixteen-AreBytes = ground arith

hex_text : format_128bit_id_hex sixteen ≡ "000102030405060708090a0b0c0d0eff"
unfolding format_128bit_id_hex digit
hex_text = refl

parse_128bit_id_hex-eq-ok_iff_example :
    (parse_128bit_id_hex "id" "000102030405060708090a0b0c0d0eff" ≡ ok sixteen) ↔ (
      (length sixteen ≡ 16)
      × AreBytes sixteen
      × (as_bytes "000102030405060708090a0b0c0d0eff" ≡ as_bytes (format_128bit_id_hex sixteen)))
parse_128bit_id_hex-eq-ok_iff_example =
    parse_128bit_id_hex-eq-ok_iff "id" "000102030405060708090a0b0c0d0eff" sixteen

abbrev action : ScheduledAction
action = record {
  id = record { bytes = sixteen };
  action_kind = block_internet;
  deadline = record { at = record { millis = pos 5000 } };
  created_at = record { millis = pos 1000 };
  created_by = parent_local_pin;
  emitted_thresholds = insert (insert empty m60) m3;
  execution_state = ActionExecutionState.failed "gate";
}

abbrev entry : TelegramOutboxEntry
entry = record {
  entry_id = record { bytes = sixteen };
  payload = chat (record {
    id = record { bytes = sixteen };
    sender = MessageSender.child;
    text = "hi";
    timestamp = record { millis = pos 7 };
    delivery_status = DeliveryStatus.accepted_by_service;
  });
  attempt_count = 2;
  last_error = none;
}

abbrev state : PersistentState
state = record {
  desired_internet_state = DesiredInternetState.blocked;
  active_actions = action ∷ [];
  internet_retry = some (record { attempt_count = 1; last_error = some "gate" });
  telegram_outbox = entry ∷ [];
}

state-HasIds : HasIds state
state-HasIds =
    let id : (◌≡◌ {A = ℕ} 16 16) × AreBytes sixteen = (refl, sixteen-AreBytes) in
    ((id, tt), ((id, id), tt))

state-IsStorable : IsStorable state
state-IsStorable = record {
  timers_differ = (tt, tt);
  entries_differ = (tt, tt);
  unfinished = ((ground arith, ground arith), tt);
  outgoing = ((refl, refl), tt);
}

abbrev stored : StateFileV1Dto
stored = record {
  schema_version = 1;
  desired_internet_state = DesiredInternetStateDto.blocked;
  active_actions =
      (record {
        id = "000102030405060708090a0b0c0d0eff";
        action_kind = ActionKindDto.block_internet;
        deadline = pos 5000;
        created_at = pos 1000;
        created_by = InitiatorDto.parent_local_pin;
        emitted_thresholds = WarningThresholdDto.m60 ∷ WarningThresholdDto.m3 ∷ [];
        execution_state = ActionExecutionStateDto.failed "gate";
      })
      ∷ [];
  internet_retry = some (record { attempt_count = 1; last_error = some "gate" });
  telegram_outbox =
      (record {
        entry_id = "000102030405060708090a0b0c0d0eff";
        payload = TelegramPayloadDto.chat (record {
          id = "000102030405060708090a0b0c0d0eff";
          sender = MessageSenderDto.child;
          text = "hi";
          timestamp = pos 7;
          delivery_status = DeliveryStatusDto.accepted_by_service;
        });
        attempt_count = 2;
        last_error = none;
      })
      ∷ [];
}

writes : encode_state_json walk (λ t. t) (λ d. ok d) state ≡ ok stored
unfolding encode_state_json state_to_dto collect any thresholds_to_dto retain execution_to_dto
    payload_to_dto sender_to_dto status_to_dto format_128bit_id_hex digit
writes = refl

decode_state_json-encode_example : decode_state_json (λ d. ok d) stored ≡ ok state
decode_state_json-encode_example =
    decode_state_json-encode walk (λ t. t) walk-Walks (λ d. ok d) (λ d. ok d) state stored
      (λ d t h. sym h) state-HasIds writes

reads : state_of_dto stored ≡ ok state
unfolding state_of_dto collect parse_128bit_id_hex as_bytes utf8 read_pairs join_nibbles nibble any
    thresholds_of_dto payload_of_dto
reads = refl

state_of_dto-IsStorable_example : (stored.schema_version ≡ 1) × HasIds state × IsStorable state
state_of_dto-IsStorable_example = state_of_dto-IsStorable stored state reads

state_to_dto_iff_example :
    ((d : StateFileV1Dto) × (state_to_dto walk (λ t. t) state ≡ ok d)) ↔ IsStorable state
state_to_dto_iff_example = state_to_dto_iff walk (λ t. t) walk-WalksOnce state

state_of_dto-stored_again_example :
    (d : StateFileV1Dto) × (state_to_dto walk (λ t. t) state ≡ ok d) × (state_of_dto d ≡ ok state)
state_of_dto-stored_again_example =
    state_of_dto-stored_again walk (λ t. t) walk-WalksOnce stored state walk-Walks reads
