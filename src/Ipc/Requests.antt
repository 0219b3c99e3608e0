-- ===== src/Ipc/Requests.antt =====
-- crates/ipc-protocol/src/request.rs: the requests, and the checks on their parameters.
pub mod Limits
use palka.Base.{
  ℕ, ◌+◌, ◌*◌, ◌^◌, Bool, true, false, not, Option, none, some, List, String, Result, ok, err, ltb,
  leb, ◌==◌, str_eq, length, if◌then◌else◌,
}
use palka.Base.Results.{◌>>=◌, ◌>>◌, refuse_if}
use palka.Base.Text.{◌<>◌, show_ℕ, is_blank, as_bytes}
use Prim.Native.String.{len}
use palka.Ipc.Errors.{ProtocolError, request_failure}
use palka.Ipc.Ids.{WireTimerId}

abbrev pub max_chat_text_utf8_bytes : ℕ
max_chat_text_utf8_bytes = 4096

abbrev pub max_duration_minutes : ℕ
max_duration_minutes = 71582788

-- A `RedactedPin` is the code points of its text; numbers are `u32`.
pub data RequestPayload : Type 0 where
  query_status : RequestPayload
  verify_pin : List ℕ → RequestPayload
  subscribe_events : RequestPayload
  send_child_message : String → RequestPayload
  schedule_internet_block : ℕ → RequestPayload
  immediate_internet_block : RequestPayload
  cancel_internet_block_timer : WireTimerId → RequestPayload
  restore_internet : RequestPayload
  schedule_shutdown : ℕ → RequestPayload
  cancel_shutdown_timer : WireTimerId → RequestPayload

unfoldable pub validate_duration_minutes : ℕ → Result Unit ProtocolError
validate_duration_minutes duration_minutes = do
  refuse_if (duration_minutes == 0)
      (request_failure "Duration minutes must be strictly positive (>= 1)")
  refuse_if (ltb max_duration_minutes duration_minutes) (
      request_failure (
        "Duration minutes ("
        <> show_ℕ duration_minutes
        <> ") exceeds maximum limit ("
        <> show_ℕ max_duration_minutes
        <> ")"))
  refuse_if (leb (2 ^ 32) (duration_minutes * 60))
      (request_failure "Duration conversion to seconds would overflow u32")

unfoldable pub validate_text : String → Result Unit ProtocolError
validate_text text = do
  refuse_if (len text == 0) (request_failure "Chat message text cannot be empty")
  refuse_if (ltb max_chat_text_utf8_bytes (len text)) (
      request_failure (
        "Chat message text length ("
        <> show_ℕ (len text)
        <> " bytes) exceeds maximum of "
        <> show_ℕ max_chat_text_utf8_bytes
        <> " bytes"))
  refuse_if (is_blank text)
      (request_failure "Chat message text cannot consist solely of whitespace")

-- `RequestPayload::validate`
unfoldable pub validate : RequestPayload → Result Unit ProtocolError
validate (RequestPayload.send_child_message text) = validate_text text
validate (RequestPayload.schedule_internet_block duration_minutes) =
    validate_duration_minutes duration_minutes
validate (RequestPayload.schedule_shutdown duration_minutes) =
    validate_duration_minutes duration_minutes
validate _ = ok tt
