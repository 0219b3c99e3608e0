-- ===== src/Scenarios/Wire.antt =====
-- crates/ipc-protocol/src: concrete frames and requests.
use palka.Base.{
  ℕ, suc, ◌+◌, ◌≡◌, ◌↔◌, refl, Bool, true, false, ◌&&◌, none, some, List, [], ◌∷◌, ◌++◌, String,
  Result, ok, All, length, is_empty, any, ◌==◌, arith, if◌then◌else◌,
}
use palka.Base.Text.{trim_start, trim_end, is_whitespace}
use palka.Persistence.Seen.{AreDistinct}
use palka.Ipc.Errors.{code_of, ErrorCode}
use palka.Ipc.Frames.{
  frame, extract_frame_payload, encode_length_prefix, validate_request_frame_length,
}
use palka.Ipc.Frames.Stream.{
  IsRequestSize, extract_frame_payload-eq-some_iff, extract_frame_payload-waits,
}
use palka.Ipc.Requests.{query_status, schedule_shutdown, validate, validate_duration_minutes}
use palka.Ipc.Requests.Limits.{IsAllowed, validate-eq-ok_iff}
use palka.Ipc.Pin.{unescape, next_char, escape, short_escape}
use palka.Ipc.Decoding.Objects.{
  JsonLibrary, object, leaf, visit_map, parse_raw_object_entries, find_entry, check_raw_structural,
  check_values,
}
use palka.Ipc.Decoding.Payload.{
  parse_request_payload_raw, kind_name, is_allowed_field, kind_among, check_fields, read_kind,
}
use palka.Ipc.Decoding.Numbers.{validate_raw_version_value, decimal}
use palka.Ipc.Decoding.Strict.{kind_of, parse_request_payload_raw-eq-ok}
use palka.Ipc.Decoding.{
  RequestEnvelope, new_envelope, decode_request_frame, decode_entries, check_top_fields, check_type,
  encode_request_frame,
}
use palka.Ipc.Decoding.Envelope.{
  IsRequest, decode_request_frame-IsRequest, extract_frame_payload-encode_request_frame,
}

abbrev two_bytes : List ℕ
two_bytes = 7 ∷ 9 ∷ []

extract_frame_payload-eq-some_iff_example :
    (extract_frame_payload (2 ∷ 0 ∷ 0 ∷ 0 ∷ 7 ∷ 9 ∷ 5 ∷ []) false ≡ ok (some (two_bytes, 6))) ↔ (
      (rest : List ℕ) × (2 ∷ 0 ∷ 0 ∷ 0 ∷ 7 ∷ 9 ∷ 5 ∷ [] ≡ frame two_bytes ++ rest)
      × (◌≡◌ {A = ℕ} 6 (4 + length two_bytes))
      × IsRequestSize two_bytes)
extract_frame_payload-eq-some_iff_example =
    extract_frame_payload-eq-some_iff (2 ∷ 0 ∷ 0 ∷ 0 ∷ 7 ∷ 9 ∷ 5 ∷ []) two_bytes false 6
      (ground arith)

two_bytes_framed : (2 ∷ 0 ∷ 0 ∷ 0 ∷ 7 ∷ []) ++ (9 ∷ []) ≡ frame two_bytes
unfolding frame encode_length_prefix
two_bytes_framed = refl

extract_frame_payload-waits_example :
    (extract_frame_payload (2 ∷ 0 ∷ 0 ∷ 0 ∷ 7 ∷ []) false ≡ ok none)
    × (code_of (extract_frame_payload (2 ∷ 0 ∷ 0 ∷ 0 ∷ 7 ∷ []) true) ≡ (
        if is_empty {A = ℕ} (2 ∷ 0 ∷ 0 ∷ 0 ∷ 7 ∷ [])
        then none
        else some ErrorCode.transport_failure))
extract_frame_payload-waits_example =
    extract_frame_payload-waits (2 ∷ 0 ∷ 0 ∷ 0 ∷ 7 ∷ []) (9 ∷ []) two_bytes two_bytes_framed
      (omega arith) (omega arith, omega arith)

validate-eq-ok_iff_example :
    (validate (schedule_shutdown 71582788) ≡ ok tt) ↔ IsAllowed (schedule_shutdown 71582788)
validate-eq-ok_iff_example = validate-eq-ok_iff (schedule_shutdown 71582788)

-- `1\n`, escaped.
abbrev escaped : List ℕ
escaped = b'1' ∷ b'\\' ∷ b'n' ∷ []

escaped_read : unescape 3 escaped ≡ ok (b'1' ∷ 10 ∷ [])
unfolding unescape next_char escape short_escape
escaped_read = refl

-- A reader that knows the envelope `{e?`, the request `{r`, and the scalars `1`, `t` and `k`.
abbrev is_envelope : List ℕ → Bool
is_envelope (a ∷ b ∷ c ∷ []) = a == b'{' && b == b'e'
is_envelope _ = false

abbrev is_request : List ℕ → Bool
is_request (a ∷ b ∷ []) = a == b'{' && b == b'r'
is_request _ = false

abbrev is_scalar : ℕ → List ℕ → Bool
is_scalar c (a ∷ []) = a == c
is_scalar c _ = false

abbrev envelope_members : List (String × Result (List ℕ) String)
envelope_members =
    ("version", ok (b'1' ∷ [])) ∷ ("type", ok (b't' ∷ [])) ∷ ("request", ok (b'{' ∷ b'r' ∷ [])) ∷ []

abbrev request_members : List (String × Result (List ℕ) String)
request_members = ("kind", ok (b'k' ∷ [])) ∷ []

abbrev tiny_library : JsonLibrary
tiny_library = record {
  node = λ raw.
      if is_envelope raw
      then object envelope_members none
      else if is_request raw
      then object request_members none
      else leaf none;
  members = λ raw.
      if is_envelope raw
      then (envelope_members, none)
      else if is_request raw
      then (request_members, none)
      else ([], none);
  string = λ raw.
      if is_scalar b't' raw
      then some "request"
      else if is_scalar b'k' raw
      then some "QueryStatus"
      else none;
  from_utf8 = λ bytes. ok bytes;
  text_of = λ raw. "";
  debug = λ t. t;
  is_f64 = λ raw. false;
}

abbrev envelope_text : List ℕ
envelope_text = b'{' ∷ b'e' ∷ b'}' ∷ []

decodes : decode_request_frame tiny_library envelope_text ≡ ok (new_envelope query_status)
unfolding decode_request_frame validate_request_frame_length check_raw_structural check_values
    decode_entries check_top_fields validate_raw_version_value decimal check_type validate
    parse_request_payload_raw parse_raw_object_entries trim_end trim_start is_whitespace visit_map
    any find_entry kind_among kind_name check_fields read_kind
decodes = refl

decode_request_frame-IsRequest_example :
    (text : List ℕ) × (entries : List (String × List ℕ)) × (validate_request_frame_length 3 ≡ ok tt)
    × (tiny_library.from_utf8 envelope_text ≡ ok text)
    × (check_raw_structural tiny_library (suc (length text)) text ≡ ok tt)
    × (parse_raw_object_entries tiny_library text ≡ ok entries)
    × IsRequest tiny_library entries (new_envelope query_status)
decode_request_frame-IsRequest_example =
    decode_request_frame-IsRequest tiny_library envelope_text (new_envelope query_status) decodes

parses : parse_request_payload_raw tiny_library (b'{' ∷ b'r' ∷ []) ≡ ok query_status
unfolding parse_request_payload_raw parse_raw_object_entries trim_end trim_start is_whitespace
    visit_map any find_entry kind_among kind_name check_fields read_kind
parses = refl

parse_request_payload_raw-eq-ok_example :
    (entries : List (String × List ℕ)) × (kind_raw : List ℕ) × (parse_raw_object_entries
        tiny_library
        (b'{' ∷ b'r' ∷ [])
      ≡ ok entries)
    × AreDistinct (λ e. e.0) entries
    × (find_entry "kind" entries ≡ some kind_raw)
    × (tiny_library.string kind_raw ≡ some (kind_name (kind_of query_status)))
    × All (λ e. is_allowed_field (kind_of query_status) e.0 ≡ true) entries
parse_request_payload_raw-eq-ok_example =
    parse_request_payload_raw-eq-ok tiny_library (b'{' ∷ b'r' ∷ []) query_status parses

-- A reader that knows one object of one member.
abbrev one_object : JsonLibrary
one_object = record tiny_library {
  node = λ raw. if is_envelope raw then object (("a", ok (b'1' ∷ [])) ∷ []) none else leaf none;
}

abbrev request : RequestEnvelope
request = new_envelope (schedule_shutdown 5)

encodes : encode_request_frame (λ r. ok two_bytes) request ≡ ok (2 ∷ 0 ∷ 0 ∷ 0 ∷ 7 ∷ 9 ∷ [])
unfolding encode_request_frame validate validate_duration_minutes validate_request_frame_length
    frame encode_length_prefix
encodes = refl

extract_frame_payload-encode_request_frame_example :
    IsAllowed request.request
    × (extract_frame_payload ((2 ∷ 0 ∷ 0 ∷ 0 ∷ 7 ∷ 9 ∷ []) ++ (5 ∷ [])) false
        ≡ ok (some (two_bytes, 6)))
extract_frame_payload-encode_request_frame_example =
    extract_frame_payload-encode_request_frame (λ r. ok two_bytes) request two_bytes
      (2 ∷ 0 ∷ 0 ∷ 0 ∷ 7 ∷ 9 ∷ []) (5 ∷ []) false refl (omega arith) encodes
