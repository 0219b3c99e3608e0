-- ===== src/Ipc/Decoding.antt =====
-- crates/ipc-protocol/src/codec.rs: requests to and from frames. `serde_json` and the conversions of
-- texts are the fields of `JsonLibrary`; raw values are lists of code points.
pub mod Objects
pub mod Numbers
pub mod Payload
pub mod Strict
pub mod Unique
pub mod Envelope
use palka.Base.{
  ℕ, suc, ◌+◌, ◌%◌, ◌^◌, ◌≡◌, Bool, true, false, ◌&&◌, ◌||◌, not, Option, none, some, List, [], ◌∷◌,
  ◌++◌, String, Result, ok, err, map_err, length, any, str_eq, if◌then◌else◌,
}
use palka.Base.Results.{◌>>=◌, ◌>>◌, refuse_if, ok_or}
use palka.Base.Text.{◌<>◌, trim, show_ℕ}
use palka.Ipc.Errors.{ProtocolError, protocol_failure, frame_failure, internal, to_protocol_error}
use palka.Ipc.Frames.{validate_request_frame_length, frame}
use palka.Ipc.Requests.{RequestPayload, validate}
use palka.Ipc.Decoding.Objects.{
  JsonLibrary, parse_raw_object_entries, check_raw_structural, find_entry, starts_with_brace,
}
use palka.Ipc.Decoding.Numbers.{validate_raw_version_value}
use palka.Ipc.Decoding.Payload.{parse_request_payload_raw}

-- `RequestEnvelope::new` fixes the version and the type.
pub record RequestEnvelope : Type 0 where
  pub version : ℕ
  pub envelope_type : String
  pub request : RequestPayload

abbrev pub new_envelope : RequestPayload → RequestEnvelope
new_envelope request = record { version = 1; envelope_type = "request"; request = request }

-- The loop over the top-level fields.
unfoldable pub check_top_fields : List (String × List ℕ) → Result Unit ProtocolError
check_top_fields [] = ok tt
check_top_fields (entry ∷ entries) = do
  refuse_if (not (str_eq entry.0 "version" || str_eq entry.0 "type" || str_eq entry.0 "request"))
      (protocol_failure ("Unknown top-level field '" <> entry.0 <> "' in request envelope"))
  check_top_fields entries

abbrev pub top_entry : String → List (String × List ℕ) → Result (List ℕ) ProtocolError
top_entry name entries =
    ok_or (find_entry name entries)
      (protocol_failure ("Request envelope is missing required '" <> name <> "' field"))

module _ (lib : JsonLibrary) where
  unfoldable pub check_type : List ℕ → Result Unit ProtocolError
  check_type type_raw = do
    type_str ← ok_or (lib.string type_raw) (
        protocol_failure
          ("Invalid envelope type '" <> lib.text_of (trim type_raw) <> "', expected 'request'"))
    refuse_if (not (str_eq type_str "request")) (
        protocol_failure
          ("Invalid envelope type '" <> lib.debug type_str <> "', expected 'request'"))

  -- The part of `decode_request_frame` past the reading of the top-level entries.
  unfoldable pub decode_entries : List (String × List ℕ) → Result RequestEnvelope ProtocolError
  decode_entries top_entries = do
    check_top_fields top_entries
    ver_raw ← top_entry "version" top_entries
    version ← validate_raw_version_value lib ver_raw "Request envelope"
    type_raw ← top_entry "type" top_entries
    check_type type_raw
    req_raw ← top_entry "request" top_entries
    refuse_if (not (starts_with_brace (trim req_raw)))
        (protocol_failure "Field 'request' must be a JSON object")
    request_payload ← map_err to_protocol_error (parse_request_payload_raw lib req_raw)
    validate request_payload
    ok (new_envelope request_payload)

  -- Each nested value is shorter than the text that holds it, so this fuel is enough.
  unfoldable pub decode_request_frame : List ℕ → Result RequestEnvelope ProtocolError
  decode_request_frame payload = do
    validate_request_frame_length (length payload % 2 ^ 32)
    json_str ←
        map_err (λ e. frame_failure ("Request payload is not valid UTF-8: " <> e))
          (lib.from_utf8 payload)
    map_err to_protocol_error (check_raw_structural lib (suc (length json_str)) json_str)
    top_entries ← map_err to_protocol_error (parse_raw_object_entries lib json_str)
    decode_entries top_entries

-- `to_writer` is the derived writer of `serde_json`.
unfoldable pub encode_request_frame :
    (RequestEnvelope → Result (List ℕ) String) → RequestEnvelope → Result (List ℕ) ProtocolError
encode_request_frame to_writer req = do
  validate req.request
  json_bytes ← map_err (λ e. internal ("Failed to serialize request: " <> e)) (to_writer req)
  validate_request_frame_length (length json_bytes % 2 ^ 32)
  ok (frame json_bytes)
