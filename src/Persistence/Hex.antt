-- ===== src/Persistence/Hex.antt =====
-- crates/service/src/persistence.rs: identifiers as 32 lowercase hexadecimal digits.
pub mod Canonical
use palka.Base.{
  ℕ, ◌+◌, ◌-◌, ◌*◌, ◌/◌, ◌%◌, Bool, ◌&&◌, Option, none, some, List, [], ◌∷◌, String, Result, ok,
  err, length, leb, ◌==◌, if◌then◌else◌,
}
use palka.Base.Text.{◌<>◌, as_bytes, digit}
use palka.Persistence.{PersistenceError, invalid_id, OutboxEntryId}

abbrev pub hex_digit : ℕ → String
hex_digit d =
    if d == 10
    then "a"
    else if d == 11
    then "b"
    else if d == 12
    then "c"
    else if d == 13
    then "d"
    else if d == 14
    then "e"
    else if d == 15
    then "f"
    else digit d

-- `{:02x}` for each byte.
unfoldable pub format_128bit_id_hex : List ℕ → String
format_128bit_id_hex [] = ""
format_128bit_id_hex (b ∷ bytes) =
    hex_digit (b / 16) <> hex_digit (b % 16) <> format_128bit_id_hex bytes

abbrev pub between : ℕ → ℕ → ℕ → Bool
between low high c = leb low c && leb c high

unfoldable pub nibble : ℕ → Option ℕ
nibble c =
    if between b'0' b'9' c
    then some (c - b'0')
    else if between b'a' b'f' c
    then some (c - b'a' + 10)
    else none

unfoldable pub join_nibbles : Option ℕ → Option ℕ → Option (List ℕ) → Option (List ℕ)
join_nibbles (some hi) (some lo) (some rest) = some ((hi * 16 + lo) ∷ rest)
join_nibbles _ _ _ = none

-- Two digits for each byte; on digits, `(hi << 4) | lo` is `hi * 16 + lo`.
unfoldable pub read_pairs : List ℕ → Option (List ℕ)
read_pairs [] = some []
read_pairs (hi ∷ []) = none
read_pairs (hi ∷ lo ∷ rest) = join_nibbles (nibble hi) (nibble lo) (read_pairs rest)

unfoldable pub parse_128bit_id_hex : String → String → Result (List ℕ) PersistenceError
parse_128bit_id_hex field s =
    if length (as_bytes s) == 32
    then elim (read_pairs (as_bytes s)) [
      | some bytes ↦ ok bytes
      | none ↦ err (invalid_id field s "ID contains invalid non-lowercase-hex character")
    ]
    else err (invalid_id field s "ID string must be exactly 32 characters")

abbrev pub to_hex : OutboxEntryId → String
to_hex id = format_128bit_id_hex id.bytes

abbrev pub outbox_id_result :
    Result (List ℕ) PersistenceError → Result OutboxEntryId PersistenceError
outbox_id_result (ok bytes) = ok (record { bytes = bytes })
outbox_id_result (err e) = err e

abbrev pub from_hex : String → Result OutboxEntryId PersistenceError
from_hex s = outbox_id_result (parse_128bit_id_hex "entry_id" s)
