-- ===== src/Ipc/Frames/Stream.antt =====
-- crates/ipc-protocol/src/codec.rs: reading frames from a stream.
use palka.Base.{
  ℕ, ◌+◌, ◌%◌, ◌^◌, ◌≤◌, ◌<◌, ◌≡◌, ◌↔◌, refl, sym, ap, subst, ◌∙◌, Bool, true, false, none, some,
  List, [], ◌∷◌, ◌++◌, ok, length, length-append, is_empty, take, drop, take_all, take-drop,
  length-take, AreBytes, arith, ltb, ◌==◌, ◌⊎◌, inl, inr, Bool-cases, if◌then◌else◌,
}
use palka.Ipc.Errors.{ErrorCode, code_of}
use palka.Ipc.Frames.{
  encode_length_prefix, decode_length_prefix, validate_request_frame_length, extract_declared,
  extract_frame_payload, frame, ended_in_payload,
}

decode_length_prefix-encode :
    (len : ℕ) (rest : List ℕ)
    → len < 2 ^ 32
    → decode_length_prefix (encode_length_prefix len ++ rest) ≡ len
unfolding decode_length_prefix encode_length_prefix
decode_length_prefix-encode len rest h = omega arith

encode_length_prefix-decode :
    (b0 b1 b2 b3 : ℕ) (rest : List ℕ)
    → AreBytes (b0 ∷ b1 ∷ b2 ∷ b3 ∷ rest)
    → encode_length_prefix (decode_length_prefix (b0 ∷ b1 ∷ b2 ∷ b3 ∷ rest))
      ≡ b0 ∷ b1 ∷ b2 ∷ b3 ∷ []
unfolding decode_length_prefix encode_length_prefix
encode_length_prefix-decode b0 b1 b2 b3 rest h = ground arith

decode-bound :
    (b0 b1 b2 b3 : ℕ) (rest : List ℕ)
    → AreBytes (b0 ∷ b1 ∷ b2 ∷ b3 ∷ rest)
    → decode_length_prefix (b0 ∷ b1 ∷ b2 ∷ b3 ∷ rest) < 2 ^ 32
unfolding decode_length_prefix
decode-bound b0 b1 b2 b3 rest h = omega (arith, h.0, h.1.0, h.1.1.0, h.1.1.1.0)

pub validate-eq-ok :
    (len : ℕ) → (validate_request_frame_length len ≡ ok tt) ↔ ((1 ≤ len) × (len ≤ 65536))
unfolding validate_request_frame_length
validate-eq-ok len = ground arith

-- A payload that a request may have.
abbrev pub IsRequestSize : List ℕ → Type 0
IsRequestSize p = (1 ≤ length p) × (length p ≤ 65536)

extract_frame_payload-declared :
    (buffer : List ℕ) (is_eof : Bool)
    → 4 ≤ length buffer
    → validate_request_frame_length (decode_length_prefix buffer) ≡ ok tt
    → extract_frame_payload buffer is_eof
      ≡ extract_declared buffer is_eof (decode_length_prefix buffer)
unfolding extract_frame_payload
extract_frame_payload-declared buffer is_eof h v = ground arith

frame-decode :
    (payload rest : List ℕ)
    → length payload < 2 ^ 32
    → decode_length_prefix (frame payload ++ rest) ≡ length payload
unfolding frame decode_length_prefix encode_length_prefix
frame-decode payload rest h = omega arith

frame-drop : (payload rest : List ℕ) → drop 4 (frame payload ++ rest) ≡ payload ++ rest
unfolding frame encode_length_prefix drop
frame-drop payload rest = refl

length-frame :
    (payload rest : List ℕ) → length (frame payload ++ rest) ≡ 4 + length payload + length rest
unfolding frame encode_length_prefix
length-frame payload rest = omega (arith, length-append payload rest)

-- What follows the prefix is the payload once it has arrived.
extract_declared-frame :
    (payload rest : List ℕ) (is_eof : Bool)
    → extract_declared (frame payload ++ rest) is_eof (length payload)
      ≡ ok (some (payload, 4 + length payload))
unfolding extract_declared
extract_declared-frame payload rest is_eof =
    let t =
      ap (take (length payload)) (frame-drop payload rest)
      ∙ take_all (length payload) payload rest refl in
    ground (arith, t, length-frame payload rest)

pub extract_frame_payload-frame :
    (payload rest : List ℕ) (is_eof : Bool)
    → IsRequestSize payload
    → extract_frame_payload (frame payload ++ rest) is_eof ≡ ok (some (payload, 4 + length payload))
extract_frame_payload-frame payload rest is_eof h =
    let buffer = frame payload ++ rest in
    let d = frame-decode payload rest (omega (arith, h.1)) in
    let v = (validate-eq-ok (length payload)).1 h in
    extract_frame_payload-declared buffer is_eof (omega (arith, length-frame payload rest))
      (subst (λ n. validate_request_frame_length n ≡ ok tt) (sym d) v)
    ∙ ap (extract_declared buffer is_eof) d
    ∙ extract_declared-frame payload rest is_eof

extract_frame_payload-parts :
    (buffer payload : List ℕ) (is_eof : Bool) (n : ℕ)
    → extract_frame_payload buffer is_eof ≡ ok (some (payload, n))
    → (4 ≤ length buffer)
      × (validate_request_frame_length (decode_length_prefix buffer) ≡ ok tt)
      × (4 + decode_length_prefix buffer ≤ length buffer)
      × (take (decode_length_prefix buffer) (drop 4 buffer) ≡ payload)
      × (n ≡ 4 + decode_length_prefix buffer)
unfolding extract_frame_payload extract_declared
extract_frame_payload-parts buffer payload is_eof n h = ground arith

-- A buffer that starts with a length is a frame once so many bytes are there.
frame-of_prefix :
    (buffer : List ℕ)
    → AreBytes buffer
    → 4 + decode_length_prefix buffer ≤ length buffer
    → (d : ℕ) × (d ≡ decode_length_prefix buffer)
      × (length (take d (drop 4 buffer)) ≡ d)
      × (buffer ≡ frame (take d (drop 4 buffer)) ++ drop d (drop 4 buffer))
unfolding drop frame
frame-of_prefix [] bytes h = absurd (omega (arith, h))
frame-of_prefix (a ∷ []) bytes h = absurd (omega (arith, h))
frame-of_prefix (a ∷ b ∷ []) bytes h = absurd (omega (arith, h))
frame-of_prefix (a ∷ b ∷ c ∷ []) bytes h = absurd (omega (arith, h))
frame-of_prefix (a ∷ b ∷ c ∷ e ∷ rest) bytes h =
    let d = decode_length_prefix (a ∷ b ∷ c ∷ e ∷ rest) in
    let size = length-take d rest (omega (arith, h)) in
    let prefix = encode_length_prefix-decode a b c e rest bytes in
    let m : length (take d rest) % 2 ^ 32 ≡ d =
      omega (arith, size, decode-bound a b c e rest bytes) in
    let same = ap encode_length_prefix m ∙ prefix in
    (
      d,
      refl,
      size,
      sym (
          ap (λ x. (x ++ take d rest) ++ drop d rest) same
          ∙ ap (λ l. a ∷ b ∷ c ∷ e ∷ l) (take-drop d rest)),
    )

extract_frame_payload-eq-some :
    (buffer payload : List ℕ) (is_eof : Bool) (n : ℕ)
    → AreBytes buffer
    → extract_frame_payload buffer is_eof ≡ ok (some (payload, n))
    → (rest : List ℕ) × (buffer ≡ frame payload ++ rest)
      × (n ≡ 4 + length payload)
      × IsRequestSize payload
extract_frame_payload-eq-some buffer payload is_eof n bytes h =
    let (long, valid, enough, taken, consumed) =
      extract_frame_payload-parts buffer payload is_eof n h in
    let (d, hd, size, whole) = frame-of_prefix buffer bytes enough in
    let range = (validate-eq-ok (decode_length_prefix buffer)).0 valid in
    let p : take d (drop 4 buffer) ≡ payload = ap (λ x. take x (drop 4 buffer)) hd ∙ taken in
    let l : length payload ≡ decode_length_prefix buffer = sym (ap length p) ∙ size ∙ hd in
    (
      drop d (drop 4 buffer),
      whole ∙ ap (λ x. frame x ++ drop d (drop 4 buffer)) p,
      omega (arith, consumed, l),
      (omega (arith, range, l), omega (arith, range, l)),
    )

-- A buffer of bytes yields a payload exactly when it starts with the frame of a payload of 1 to
-- 65536 bytes; that payload is returned, and the frame's length as the bytes consumed, whatever
-- follows and whether or not the stream has ended.
pub extract_frame_payload-eq-some_iff :
    (buffer payload : List ℕ) (is_eof : Bool) (n : ℕ)
    → AreBytes buffer
    → (extract_frame_payload buffer is_eof ≡ ok (some (payload, n))) ↔ (
        (rest : List ℕ) × (buffer ≡ frame payload ++ rest)
        × (n ≡ 4 + length payload)
        × IsRequestSize payload)
extract_frame_payload-eq-some_iff buffer payload is_eof n bytes = (
  extract_frame_payload-eq-some buffer payload is_eof n bytes,
  λ (rest, whole, consumed, size).
      ap (λ b. extract_frame_payload b is_eof) whole
      ∙ extract_frame_payload-frame payload rest is_eof size
      ∙ ap (λ k. ok (some (payload, k))) (sym consumed),
)

decode-append :
    (buffer missing : List ℕ)
    → 4 ≤ length buffer
    → decode_length_prefix (buffer ++ missing) ≡ decode_length_prefix buffer
unfolding decode_length_prefix
decode-append [] missing h = absurd (omega (arith, h))
decode-append (a ∷ []) missing h = absurd (omega (arith, h))
decode-append (a ∷ b ∷ []) missing h = absurd (omega (arith, h))
decode-append (a ∷ b ∷ c ∷ []) missing h = absurd (omega (arith, h))
decode-append (a ∷ b ∷ c ∷ e ∷ rest) missing h = refl

frame_only-decode :
    (payload : List ℕ)
    → length payload < 2 ^ 32
    → decode_length_prefix (frame payload) ≡ length payload
unfolding frame decode_length_prefix encode_length_prefix
frame_only-decode payload h = omega arith

pub length-frame_only : (payload : List ℕ) → length (frame payload) ≡ 4 + length payload
unfolding frame encode_length_prefix
length-frame_only payload = omega arith

not_empty : (buffer : List ℕ) → 4 ≤ length buffer → is_empty buffer ≡ false
not_empty [] h = absurd (omega (arith, h))
not_empty (a ∷ rest) h = refl

-- While a part of the frame of an allowed payload is missing, the reader asks for more; if the
-- stream has ended, it fails with a transport failure, or finds nothing in an empty buffer.
pub extract_frame_payload-waits :
    (buffer missing payload : List ℕ)
    → buffer ++ missing ≡ frame payload
    → 1 ≤ length missing
    → IsRequestSize payload
    → (extract_frame_payload buffer false ≡ ok none)
      × (code_of (extract_frame_payload buffer true)
          ≡ (if is_empty buffer then none else some ErrorCode.transport_failure))
unfolding extract_frame_payload extract_declared ended_in_payload
extract_frame_payload-waits buffer missing payload whole some_missing size =
    let l : length buffer + length missing ≡ 4 + length payload =
      omega (arith, length-append buffer missing, ap length whole, length-frame_only payload) in
    elim (Bool-cases (ltb (length buffer) 4)) [
      | inl short ↦ (ground (arith, short), ground (arith, short))
      | inr long ↦
          let d : decode_length_prefix buffer ≡ length payload =
            sym (decode-append buffer missing (ground arith))
            ∙ ap decode_length_prefix whole
            ∙ frame_only-decode payload (omega (arith, size.1)) in
          let v = (validate-eq-ok (length payload)).1 size in
          let w = subst (λ k. validate_request_frame_length k ≡ ok tt) (sym d) v in
          let e = not_empty buffer (ground arith) in
          let short : ltb (length buffer) (4 + decode_length_prefix buffer) ≡ true =
            ground (arith, l, d) in
          (ground (arith, w, long, short), ground (arith, w, long, short, e))
    ]

-- Four bytes that declare a length of 0, or above 65536, are refused at once, whatever follows.
extract_frame_payload-refuses :
    (buffer : List ℕ) (is_eof : Bool)
    → 4 ≤ length buffer
    → (decode_length_prefix buffer ≡ 0) ⊎ (65536 < decode_length_prefix buffer)
    → code_of (extract_frame_payload buffer is_eof) ≡ (
        if decode_length_prefix buffer == 0
        then some ErrorCode.protocol_error
        else some ErrorCode.frame_too_large)
unfolding extract_frame_payload validate_request_frame_length
extract_frame_payload-refuses buffer is_eof long bad = ground arith
