-- ===== src/Ipc/Frames.antt =====
-- crates/ipc-protocol/src/codec.rs: frames of a length in 4 bytes, little-endian, and a payload.
pub mod Stream
use palka.Base.{
  ℕ, ◌+◌, ◌-◌, ◌*◌, ◌/◌, ◌%◌, ◌^◌, Bool, true, false, ◌&&◌, not, Option, none, some, List, [], ◌∷◌,
  ◌++◌, String, Result, ok, err, length, is_empty, take, drop, ltb, ◌==◌, if◌then◌else◌,
}
use palka.Base.Results.{◌>>=◌, ◌>>◌, refuse_if}
use palka.Base.Text.{◌<>◌, show_ℕ}
use palka.Ipc.Errors.{ProtocolError, protocol_failure, too_large, response_oversized, transport}

abbrev pub max_request_bytes : ℕ
max_request_bytes = 65536

abbrev pub max_response_bytes : ℕ
max_response_bytes = 1048576

abbrev pub max_event_bytes : ℕ
max_event_bytes = 65536

-- `u32::to_le_bytes`
unfoldable pub encode_length_prefix : ℕ → List ℕ
encode_length_prefix len =
    (len % 256) ∷ (len / 256 % 256) ∷ (len / 65536 % 256) ∷ (len / 16777216 % 256) ∷ []

-- `u32::from_le_bytes`, of the first 4 bytes.
unfoldable pub decode_length_prefix : List ℕ → ℕ
decode_length_prefix (b0 ∷ b1 ∷ b2 ∷ b3 ∷ rest) = b0 + 256 * b1 + 65536 * b2 + 16777216 * b3
decode_length_prefix _ = 0

unfoldable pub validate_request_frame_length : ℕ → Result Unit ProtocolError
validate_request_frame_length len = do
  refuse_if (len == 0) (protocol_failure "Zero-length frame is forbidden by protocol")
  refuse_if (ltb max_request_bytes len) (
      too_large (
        "Declared request frame length "
        <> show_ℕ len
        <> " exceeds maximum limit of "
        <> show_ℕ max_request_bytes
        <> " bytes"))

unfoldable pub validate_response_frame_length : ℕ → Result Unit ProtocolError
validate_response_frame_length len = refuse_if (ltb max_response_bytes len) (
    response_oversized (
      "Serialized response length "
      <> show_ℕ len
      <> " exceeds maximum limit of "
      <> show_ℕ max_response_bytes
      <> " bytes"))

unfoldable pub validate_event_frame_length : ℕ → Result Unit ProtocolError
validate_event_frame_length len = refuse_if (ltb max_event_bytes len) (
    too_large (
      "Serialized event length "
      <> show_ℕ len
      <> " exceeds maximum limit of "
      <> show_ℕ max_event_bytes
      <> " bytes"))

unfoldable pub validate_frame_completeness : ℕ → ℕ → Result Unit ProtocolError
validate_frame_completeness declared_len actual_len = refuse_if (ltb actual_len declared_len) (
    transport (
      "Incomplete frame: declared payload length was "
      <> show_ℕ declared_len
      <> " bytes, but only "
      <> show_ℕ actual_len
      <> " bytes received before stream ended"))

abbrev pub ended_in_prefix : ProtocolError
ended_in_prefix =
    transport "Premature stream disconnection: incomplete 4-byte length prefix before EOF"

unfoldable pub ended_in_payload : ℕ → ℕ → ProtocolError
ended_in_payload declared_len received = transport (
    "Premature stream disconnection: declared "
    <> show_ℕ declared_len
    <> " payload bytes, but stream terminated after "
    <> show_ℕ received
    <> " payload bytes")

-- The part of `extract_frame_payload` past the test of the declared length.
unfoldable pub extract_declared : List ℕ → Bool → ℕ → Result (Option (List ℕ × ℕ)) ProtocolError
extract_declared buffer is_eof declared_len =
    if ltb (length buffer) (4 + declared_len)
    then if is_eof then err (ended_in_payload declared_len (length buffer - 4)) else ok none
    else ok (some (take declared_len (drop 4 buffer), 4 + declared_len))

-- The payload, with the bytes consumed.
unfoldable pub extract_frame_payload : List ℕ → Bool → Result (Option (List ℕ × ℕ)) ProtocolError
extract_frame_payload buffer is_eof =
    if ltb (length buffer) 4
    then if is_eof && not (is_empty buffer) then err ended_in_prefix else ok none
    else (validate_request_frame_length (decode_length_prefix buffer)
        >> extract_declared buffer is_eof (decode_length_prefix buffer))

-- The end of the four encoders: the prefix, then the JSON.
unfoldable pub frame : List ℕ → List ℕ
frame json_bytes = encode_length_prefix (length json_bytes % 2 ^ 32) ++ json_bytes
