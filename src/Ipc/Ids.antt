-- ===== src/Ipc/Ids.antt =====
-- crates/ipc-protocol/src/ids.rs: identifiers on the wire. Their loop over the digits is the one of
-- the stored identifiers.
use palka.Base.{
  ℕ, ◌/◌, ◌%◌, ◌≡◌, ◌↔◌, refl, ap, sym, subst, none, some, List, [], ◌∷◌, String, Result, ok, err,
  length, AreBytes, arith, ◌==◌, if◌then◌else◌,
}
use palka.Base.Text.{◌<>◌, as_bytes, show_ℕ}
use palka.Persistence.Hex.{hex_digit, read_pairs, parse_128bit_id_hex, format_128bit_id_hex}
use palka.Persistence.Hex.Canonical.{parse_128bit_id_hex-format}
use palka.Ipc.Errors.{ProtocolError, request_failure}
use palka.Domain.{TimerId}

unfoldable pub encode_hex_16 : List ℕ → String
encode_hex_16 [] = ""
encode_hex_16 (b ∷ bytes) = hex_digit (b / 16) <> hex_digit (b % 16) <> encode_hex_16 bytes

unfoldable pub decode_hex_16 : String → Result (List ℕ) ProtocolError
decode_hex_16 s =
    if length (as_bytes s) == 32
    then elim (read_pairs (as_bytes s)) [
      | some bytes ↦ ok bytes
      | none ↦ err (request_failure "Identifier contains invalid characters or uppercase hex")
    ]
    else err (
        request_failure
          ("Identifier must be exactly 32 hex characters, got " <> show_ℕ (length (as_bytes s))))

pub record WireTimerId : Type 0 where
  pub bytes : List ℕ

abbrev pub from_core : TimerId → WireTimerId
from_core id = record { bytes = id.bytes }

abbrev pub to_core : WireTimerId → TimerId
to_core id = record { bytes = id.bytes }

abbrev pub wire_result : Result (List ℕ) ProtocolError → Result WireTimerId ProtocolError
wire_result (ok bytes) = ok (record { bytes = bytes })
wire_result (err e) = err e

abbrev pub parse : String → Result WireTimerId ProtocolError
parse s = wire_result (decode_hex_16 s)

encode_hex_16-format : (bytes : List ℕ) → encode_hex_16 bytes ≡ format_128bit_id_hex bytes
unfolding encode_hex_16 format_128bit_id_hex
encode_hex_16-format [] = refl
encode_hex_16-format (b ∷ bytes) =
    ap (λ t. hex_digit (b / 16) <> hex_digit (b % 16) <> t) (encode_hex_16-format bytes)

-- The wire and the store read the same texts as the same identifiers.
decode_hex_16-parse_iff :
    (field s : String) (bytes : List ℕ)
    → (decode_hex_16 s ≡ ok bytes) ↔ (parse_128bit_id_hex field s ≡ ok bytes)
unfolding decode_hex_16 parse_128bit_id_hex
decode_hex_16-parse_iff field s bytes = ground arith

-- The text that the wire writes for an identifier of 16 bytes is read by the wire and by the store as
-- that identifier.
decode_hex_16-encode :
    (field : String) (id : TimerId)
    → length id.bytes ≡ 16
    → AreBytes id.bytes
    → (parse (encode_hex_16 (from_core id).bytes) ≡ ok (from_core id))
      × (parse_128bit_id_hex field (encode_hex_16 id.bytes) ≡ ok id.bytes)
decode_hex_16-encode field id n small =
    let stored =
      subst (λ t. parse_128bit_id_hex field t ≡ ok id.bytes) (sym (encode_hex_16-format id.bytes))
        (parse_128bit_id_hex-format field id.bytes n small) in
    let wire = (decode_hex_16-parse_iff field (encode_hex_16 id.bytes) id.bytes).1 stored in
    (ground (arith, wire), stored)
