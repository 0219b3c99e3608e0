-- ===== src/Ipc/Decoding/Numbers.antt =====
-- crates/ipc-protocol/src/codec.rs: numbers in requests, `str::parse` of the standard library.
use palka.Base.{
  ℕ, ◌+◌, ◌-◌, ◌*◌, ◌^◌, ◌&&◌, Option, none, some, List, [], ◌∷◌, String, Result, ok, err, ltb, leb,
  ◌==◌, if◌then◌else◌,
}
use palka.Base.Int.{ℤ, pos, negsuc}
use palka.Base.Text.{◌<>◌, trim, show_ℕ}
use palka.Ipc.Errors.{ProtocolError, protocol_failure, unsupported, RequestParseFailure, invalid}
use palka.Ipc.Decoding.Objects.{JsonLibrary}

-- Decimal digits onto a value.
unfoldable pub decimal : ℕ → List ℕ → Option ℕ
decimal value [] = some value
decimal value (c ∷ s) =
    let rest = decimal (value * 10 + (c - b'0')) s in
    if leb b'0' c && leb c b'9' then rest else none

abbrev pub below : ℕ → Option ℕ → Option ℕ
below bound none = none
below bound (some n) = if ltb n bound then some n else none

-- At least one digit.
abbrev pub number : ℕ → List ℕ → Option ℕ
number bound [] = none
number bound (c ∷ s) = below bound (decimal 0 (c ∷ s))

abbrev pub parse_u64 : List ℕ → Option ℕ
parse_u64 [] = none
parse_u64 (c ∷ s) = if c == b'+' then number (2 ^ 64) s else number (2 ^ 64) (c ∷ s)

abbrev pub negated : Option ℕ → Option ℤ
negated none = none
negated (some n) = some (if n == 0 then pos 0 else negsuc (n - 1))

abbrev pub positive : Option ℕ → Option ℤ
positive none = none
positive (some n) = some (pos n)

abbrev pub parse_i64 : List ℕ → Option ℤ
parse_i64 [] = none
parse_i64 (c ∷ s) =
    if c == b'-'
    then negated (number (2 ^ 63 + 1) s)
    else if c == b'+'
    then positive (number (2 ^ 63) s)
    else positive (number (2 ^ 63) (c ∷ s))

abbrev pub show_ℤ : ℤ → String
show_ℤ (pos n) = show_ℕ n
show_ℤ (negsuc n) = "-" <> show_ℕ (n + 1)

abbrev pub protocol_version : ℕ
protocol_version = 1

abbrev pub unsupported_version : String → ProtocolError
unsupported_version v =
    unsupported
      ("Protocol version " <> v <> " is unsupported, expected " <> show_ℕ protocol_version)

abbrev pub not_an_integer : JsonLibrary → List ℕ → String → ProtocolError
not_an_integer lib trimmed envelope_name =
    if lib.is_f64 trimmed
    then protocol_failure
        (envelope_name <> " 'version' field must be an integer, received floating point number")
    else protocol_failure
        (envelope_name <> " 'version' field must be an integer, received non-numeric type")

unfoldable pub validate_raw_version_value : JsonLibrary → List ℕ → String → Result ℕ ProtocolError
validate_raw_version_value lib ver_str envelope_name = elim (parse_u64 (trim ver_str)) [
  | some u ↦
      if u == protocol_version then ok protocol_version else err (unsupported_version (show_ℕ u))
  | none ↦ elim (parse_i64 (trim ver_str)) [
    | some i ↦ err (unsupported_version (show_ℤ i))
    | none ↦ err (not_an_integer lib (trim ver_str) envelope_name)
  ]
]

unfoldable pub parse_duration_minutes_raw : List ℕ → Result ℕ RequestParseFailure
parse_duration_minutes_raw s = elim (parse_u64 (trim s)) [
  | some u ↦ if ltb (2 ^ 32 - 1) u then err (invalid "Duration minutes exceeds u32 limit") else ok u
  | none ↦ err (invalid "Field 'duration_minutes' must be an integer u32")
]
