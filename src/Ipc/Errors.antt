-- ===== src/Ipc/Errors.antt =====
-- crates/ipc-protocol/src/error.rs and codec.rs: the errors of the protocol.
use palka.Base.{ℕ, Option, none, some, String, Result, ok, err}

pub data ErrorCode : Type 0 where
  unsupported_protocol_version protocol_error malformed_frame frame_too_large : ErrorCode
  response_too_large unauthorized_client pin_required pin_rejected pin_locked : ErrorCode
  invalid_request service_stopping runtime_failure transport_failure internal_error : ErrorCode

pub record ProtocolError : Type 0 where
  pub code : ErrorCode
  pub message : Option String
  pub retry_after_seconds : Option ℕ  -- u32

-- `ProtocolError::new` with a message.
abbrev pub new_error : ErrorCode → String → ProtocolError
new_error code msg = record { code = code; message = some msg; retry_after_seconds = none }

abbrev pub protocol_failure : String → ProtocolError
protocol_failure = new_error ErrorCode.protocol_error

abbrev pub frame_failure : String → ProtocolError
frame_failure = new_error ErrorCode.malformed_frame

abbrev pub too_large : String → ProtocolError
too_large = new_error ErrorCode.frame_too_large

abbrev pub response_oversized : String → ProtocolError
response_oversized = new_error ErrorCode.response_too_large

abbrev pub request_failure : String → ProtocolError
request_failure = new_error ErrorCode.invalid_request

abbrev pub transport : String → ProtocolError
transport = new_error ErrorCode.transport_failure

abbrev pub internal : String → ProtocolError
internal = new_error ErrorCode.internal_error

abbrev pub unsupported : String → ProtocolError
unsupported = new_error ErrorCode.unsupported_protocol_version

pub data RequestParseFailure : Type 0 where
  protocol invalid malformed : String → RequestParseFailure

-- `From<RequestParseFailure> for ProtocolError`
abbrev pub to_protocol_error : RequestParseFailure → ProtocolError
to_protocol_error (RequestParseFailure.protocol msg) = protocol_failure msg
to_protocol_error (RequestParseFailure.invalid msg) = new_error ErrorCode.invalid_request msg
to_protocol_error (RequestParseFailure.malformed msg) = new_error ErrorCode.malformed_frame msg

-- The code of a failure.
abbrev pub code_of : {A : Type 0} → Result A ProtocolError → Option ErrorCode
code_of (ok a) = none
code_of (err e) = some e.code
