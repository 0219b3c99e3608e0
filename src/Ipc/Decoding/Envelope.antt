-- ===== src/Ipc/Decoding/Envelope.antt =====
-- crates/ipc-protocol/src/codec.rs: whole requests, decoded and encoded.
use palka.Base.{
  ℕ, suc, ◌+◌, ◌%◌, ◌^◌, ◌<◌, ◌≡◌, refl, ap, subst, ◌∙◌, Bool, true, ◌||◌, some, List, [], ◌∷◌,
  ◌++◌, String, Result, ok, All, length, str_eq, str_eq_iff, arith, Option-cases, inl, inr,
}
use palka.Base.Text.{trim}
use palka.Persistence.Seen.{AreDistinct}
use palka.Ipc.Frames.{validate_request_frame_length, frame, extract_frame_payload}
use palka.Ipc.Frames.Stream.{validate-eq-ok, length-frame_only, extract_frame_payload-frame}
use palka.Ipc.Requests.{RequestPayload, validate}
use palka.Ipc.Requests.Limits.{IsAllowed, validate-eq-ok_iff}
use palka.Ipc.Decoding.Objects.{
  JsonLibrary, parse_raw_object_entries, find_entry, check_raw_structural,
}
use palka.Ipc.Decoding.Numbers.{parse_u64, validate_raw_version_value}
use palka.Ipc.Decoding.Payload.{parse_request_payload_raw}
use palka.Ipc.Decoding.Strict.{parse_raw_object_entries-AreDistinct}
use palka.Ipc.Decoding.{
  RequestEnvelope, new_envelope, check_top_fields, check_type, decode_entries, decode_request_frame,
  encode_request_frame,
}

-- The three fields of an envelope.
abbrev pub is_top_field : String → Bool
is_top_field key = str_eq key "version" || str_eq key "type" || str_eq key "request"

check_top_fields-eq-ok :
    (entries : List (String × List ℕ))
    → check_top_fields entries ≡ ok tt
    → All (λ e. is_top_field e.0 ≡ true) entries
unfolding check_top_fields
check_top_fields-eq-ok [] h = tt
check_top_fields-eq-ok (entry ∷ entries) h =
    let parts : (is_top_field entry.0 ≡ true) × (check_top_fields entries ≡ ok tt) = ground arith in
    (parts.0, check_top_fields-eq-ok entries parts.1)

module _ (lib : JsonLibrary) where
  -- What an accepted envelope is: its three fields once each and no other, the version one, the type
  -- `request`, and a payload within the limits.
  pub record IsRequest (entries : List (String × List ℕ)) (req : RequestEnvelope) : Type 0 where
    pub version_raw : List ℕ
    pub type_raw : List ℕ
    pub request_raw : List ℕ
    pub keys_differ : AreDistinct (λ e. e.0) entries
    pub no_other : All (λ e. is_top_field e.0 ≡ true) entries
    pub has_version : find_entry "version" entries ≡ some version_raw
    pub has_type : find_entry "type" entries ≡ some type_raw
    pub has_request : find_entry "request" entries ≡ some request_raw
    pub is_version_1 : parse_u64 (trim version_raw) ≡ some 1
    pub is_type_request : lib.string type_raw ≡ some "request"
    pub is_payload : parse_request_payload_raw lib request_raw ≡ ok req.request
    pub is_allowed : IsAllowed req.request
    pub envelope : req ≡ new_envelope req.request

  version-eq-ok :
      (raw : List ℕ) (name : String) (v : ℕ)
      → validate_raw_version_value lib raw name ≡ ok v
      → parse_u64 (trim raw) ≡ some 1
  unfolding validate_raw_version_value
  version-eq-ok raw name v h = ground arith

  check_type-eq-ok : (raw : List ℕ) → check_type lib raw ≡ ok tt → lib.string raw ≡ some "request"
  unfolding check_type
  check_type-eq-ok raw h = elim (Option-cases (lib.string raw)) [
    | inl missing ↦ absurd (ground (arith, h, missing))
    | inr (t, ht) ↦ ht ∙ ap some (ground (arith, h, ht, str_eq_iff t "request"))
  ]

  decode_entries-parts :
      (entries : List (String × List ℕ)) (req : RequestEnvelope)
      → decode_entries lib entries ≡ ok req
      → (version_raw type_raw request_raw : List ℕ) × (v : ℕ) × (payload : RequestPayload)
        × (check_top_fields entries ≡ ok tt)
        × (find_entry "version" entries ≡ some version_raw)
        × (validate_raw_version_value lib version_raw "Request envelope" ≡ ok v)
        × (find_entry "type" entries ≡ some type_raw)
        × (check_type lib type_raw ≡ ok tt)
        × (find_entry "request" entries ≡ some request_raw)
        × (parse_request_payload_raw lib request_raw ≡ ok payload)
        × (validate payload ≡ ok tt)
        × (new_envelope payload ≡ req)
  unfolding decode_entries
  decode_entries-parts entries req h = ground arith

  decode_entries-IsRequest :
      (entries : List (String × List ℕ)) (req : RequestEnvelope)
      → AreDistinct (λ e. e.0) entries
      → decode_entries lib entries ≡ ok req
      → IsRequest entries req
  decode_entries-IsRequest entries req distinct h =
      let (vr, tr, rr, v, payload, top, hv, version, ht, type, hr, parsed, valid, e) =
        decode_entries-parts entries req h in
      subst (IsRequest entries) e (record {
        version_raw = vr;
        type_raw = tr;
        request_raw = rr;
        keys_differ = distinct;
        no_other = check_top_fields-eq-ok entries top;
        has_version = hv;
        has_type = ht;
        has_request = hr;
        is_version_1 = version-eq-ok vr "Request envelope" v version;
        is_type_request = check_type-eq-ok tr type;
        is_payload = parsed;
        is_allowed = (validate-eq-ok_iff payload).0 valid;
        envelope = refl;
      })

  decode-parts :
      (payload : List ℕ) (req : RequestEnvelope)
      → decode_request_frame lib payload ≡ ok req
      → (text : List ℕ) × (entries : List (String × List ℕ)) × (validate_request_frame_length
            (length payload % 2 ^ 32)
          ≡ ok tt)
        × (lib.from_utf8 payload ≡ ok text)
        × (check_raw_structural lib (suc (length text)) text ≡ ok tt)
        × (parse_raw_object_entries lib text ≡ ok entries)
        × (decode_entries lib entries ≡ ok req)
  unfolding decode_request_frame
  decode-parts payload req h = ground arith

  -- A payload that is decoded to a request has a length that the reader of frames allows, taken as
  -- `u32`, is UTF-8, has no duplicate key in any object that the check visits, and holds exactly the
  -- fields `version`, `type` and `request`, once each: the text of the version, trimmed, is the `u64`
  -- 1, the type is `request`, and the payload is the parsed one, within the limits.
  pub decode_request_frame-IsRequest :
      (payload : List ℕ) (req : RequestEnvelope)
      → decode_request_frame lib payload ≡ ok req
      → (text : List ℕ) × (entries : List (String × List ℕ)) × (validate_request_frame_length
            (length payload % 2 ^ 32)
          ≡ ok tt)
        × (lib.from_utf8 payload ≡ ok text)
        × (check_raw_structural lib (suc (length text)) text ≡ ok tt)
        × (parse_raw_object_entries lib text ≡ ok entries)
        × IsRequest entries req
  decode_request_frame-IsRequest payload req h =
      let (text, entries, size, utf8, unique, parsed, decoded) = decode-parts payload req h in
      let distinct = parse_raw_object_entries-AreDistinct lib text entries parsed in
      (
        text,
        entries,
        size,
        utf8,
        unique,
        parsed,
        decode_entries-IsRequest entries req distinct decoded,
      )

module _ (to_writer : RequestEnvelope → Result (List ℕ) String) where
  encode-parts :
      (req : RequestEnvelope) (bytes f : List ℕ)
      → to_writer req ≡ ok bytes
      → encode_request_frame to_writer req ≡ ok f
      → (validate req.request ≡ ok tt)
        × (validate_request_frame_length (length bytes % 2 ^ 32) ≡ ok tt)
        × (f ≡ frame bytes)
  unfolding encode_request_frame
  encode-parts req bytes f w h = ground (arith, w, h)

  -- A request that is encoded is within the limits, and the reader of frames takes exactly its JSON
  -- off the stream, whatever follows, if the JSON is shorter than 2^32 bytes.
  pub extract_frame_payload-encode_request_frame :
      (req : RequestEnvelope) (bytes f rest : List ℕ) (is_eof : Bool)
      → to_writer req ≡ ok bytes
      → length bytes < 2 ^ 32
      → encode_request_frame to_writer req ≡ ok f
      → IsAllowed req.request
        × (extract_frame_payload (f ++ rest) is_eof ≡ ok (some (bytes, length f)))
  extract_frame_payload-encode_request_frame req bytes f rest is_eof w small h =
      let (valid, size, e) = encode-parts req bytes f w h in
      let whole : length bytes % 2 ^ 32 ≡ length bytes = omega (arith, small) in
      let range =
        (validate-eq-ok (length bytes)).0
          (subst (λ n. validate_request_frame_length n ≡ ok tt) whole size) in
      let read = extract_frame_payload-frame bytes rest is_eof range in
      let consumed : 4 + length bytes ≡ length f =
        omega (arith, ap length e, length-frame_only bytes) in
      (
        (validate-eq-ok_iff req.request).0 valid,
        ap (λ b. extract_frame_payload (b ++ rest) is_eof) e
            ∙ read
            ∙ ap (λ k. ok (some (bytes, k))) consumed,
      )
