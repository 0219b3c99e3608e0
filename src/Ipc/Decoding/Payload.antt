-- ===== src/Ipc/Decoding/Payload.antt =====
-- crates/ipc-protocol/src/codec.rs: the payload of a request, by its kind.
use palka.Base.{
  ℕ, Bool, false, ◌||◌, not, Option, none, some, List, [], ◌∷◌, String, Result, ok, err, str_eq,
  if◌then◌else◌,
}
use palka.Base.Results.{◌>>=◌, ◌>>◌, refuse_if, ok_or}
use palka.Base.Text.{◌<>◌}
use palka.Ipc.Errors.{RequestParseFailure, protocol, invalid}
use palka.Ipc.Ids.{WireTimerId, parse}
use palka.Ipc.Requests.{RequestPayload}
use palka.Ipc.Pin.{unescape_pin_json_string}
use palka.Ipc.Decoding.Objects.{JsonLibrary, parse_raw_object_entries, find_entry}
use palka.Ipc.Decoding.Numbers.{parse_duration_minutes_raw}

-- The names that the two `match kind_str.as_str()` know.
pub data Kind : Type 0 where
  query_status verify_pin subscribe_events send_child_message schedule_internet_block : Kind
  immediate_internet_block cancel_internet_block_timer restore_internet : Kind
  schedule_shutdown cancel_shutdown_timer : Kind

unfoldable pub kind_name : Kind → String
kind_name Kind.query_status = "QueryStatus"
kind_name Kind.verify_pin = "VerifyPin"
kind_name Kind.subscribe_events = "SubscribeEvents"
kind_name Kind.send_child_message = "SendChildMessage"
kind_name Kind.schedule_internet_block = "ScheduleInternetBlock"
kind_name Kind.immediate_internet_block = "ImmediateInternetBlock"
kind_name Kind.cancel_internet_block_timer = "CancelInternetBlockTimer"
kind_name Kind.restore_internet = "RestoreInternet"
kind_name Kind.schedule_shutdown = "ScheduleShutdown"
kind_name Kind.cancel_shutdown_timer = "CancelShutdownTimer"

abbrev pub all_kinds : List Kind
all_kinds =
    Kind.query_status ∷ Kind.verify_pin ∷ Kind.subscribe_events ∷ Kind.send_child_message
    ∷ Kind.schedule_internet_block ∷ Kind.immediate_internet_block
    ∷ Kind.cancel_internet_block_timer ∷ Kind.restore_internet ∷ Kind.schedule_shutdown
    ∷ Kind.cancel_shutdown_timer ∷ []

unfoldable pub kind_among : List Kind → String → Option Kind
kind_among [] name = none
kind_among (k ∷ ks) name =
    let later = kind_among ks name in if str_eq (kind_name k) name then some k else later

-- The field besides `kind` that a kind has.
abbrev pub parameter_field : Kind → Option String
parameter_field Kind.verify_pin = some "pin"
parameter_field Kind.send_child_message = some "text"
parameter_field Kind.schedule_internet_block = some "duration_minutes"
parameter_field Kind.cancel_internet_block_timer = some "timer_id"
parameter_field Kind.schedule_shutdown = some "duration_minutes"
parameter_field Kind.cancel_shutdown_timer = some "timer_id"
parameter_field _ = none

abbrev pub is_field : Option String → String → Bool
is_field none key = false
is_field (some name) key = str_eq name key

-- `allowed_fields.contains(key)`
abbrev pub is_allowed_field : Kind → String → Bool
is_allowed_field kind key = str_eq "kind" key || is_field (parameter_field kind) key

unfoldable pub check_fields :
    Kind → String → List (String × List ℕ) → Result Unit RequestParseFailure
check_fields kind kind_str [] = ok tt
check_fields kind kind_str (entry ∷ entries) = do
  refuse_if (not (is_allowed_field kind entry.0))
      (protocol ("Unknown field '" <> entry.0 <> "' inside request of kind '" <> kind_str <> "'"))
  check_fields kind kind_str entries

unfoldable pub required :
    String → Kind → List (String × List ℕ) → Result (List ℕ) RequestParseFailure
required name kind entries =
    ok_or (find_entry name entries)
      (invalid ("Missing required field '" <> name <> "' in " <> kind_name kind <> " request"))

module _ (lib : JsonLibrary) where
  unfoldable pub read_timer_id : List ℕ → Result WireTimerId RequestParseFailure
  read_timer_id raw = do
    text ← ok_or (lib.string raw) (invalid "Invalid timer_id field in request")
    elim (parse text) [ ok id ↦ ok id | err e ↦ err (invalid "Invalid timer_id field in request") ]

  unfoldable pub read_kind :
      Kind → List (String × List ℕ) → Result RequestPayload RequestParseFailure
  read_kind Kind.query_status entries = ok RequestPayload.query_status
  read_kind Kind.verify_pin entries = do
    raw ← required "pin" Kind.verify_pin entries
    pin ← unescape_pin_json_string raw
    ok (RequestPayload.verify_pin pin)
  read_kind Kind.subscribe_events entries = ok RequestPayload.subscribe_events
  read_kind Kind.send_child_message entries = do
    raw ← required "text" Kind.send_child_message entries
    text ← ok_or (lib.string raw) (invalid "Field 'text' must be a valid JSON string")
    ok (RequestPayload.send_child_message text)
  read_kind Kind.schedule_internet_block entries = do
    raw ← required "duration_minutes" Kind.schedule_internet_block entries
    minutes ← parse_duration_minutes_raw raw
    ok (RequestPayload.schedule_internet_block minutes)
  read_kind Kind.immediate_internet_block entries = ok RequestPayload.immediate_internet_block
  read_kind Kind.cancel_internet_block_timer entries = do
    raw ← required "timer_id" Kind.cancel_internet_block_timer entries
    id ← read_timer_id raw
    ok (RequestPayload.cancel_internet_block_timer id)
  read_kind Kind.restore_internet entries = ok RequestPayload.restore_internet
  read_kind Kind.schedule_shutdown entries = do
    raw ← required "duration_minutes" Kind.schedule_shutdown entries
    minutes ← parse_duration_minutes_raw raw
    ok (RequestPayload.schedule_shutdown minutes)
  read_kind Kind.cancel_shutdown_timer entries = do
    raw ← required "timer_id" Kind.cancel_shutdown_timer entries
    id ← read_timer_id raw
    ok (RequestPayload.cancel_shutdown_timer id)

  unfoldable pub parse_request_payload_raw : List ℕ → Result RequestPayload RequestParseFailure
  parse_request_payload_raw raw_request = do
    entries ← parse_raw_object_entries lib raw_request
    kind_raw ←
        ok_or (find_entry "kind" entries) (invalid "Missing required 'kind' field in request")
    kind_str ← ok_or (lib.string kind_raw) (invalid "Field 'kind' must be a valid JSON string")
    kind ← ok_or (kind_among all_kinds kind_str) (invalid ("Unknown request kind: " <> kind_str))
    check_fields kind kind_str entries
    read_kind kind entries
