-- ===== src/Persistence/Hex/Canonical.antt =====
-- crates/service/src/persistence.rs: an identifier has exactly one text.
use palka.Base.{
  AreBytes, ℕ, ◌+◌, ◌*◌, ◌/◌, ◌%◌, ◌<◌, ◌≡◌, ◌↔◌, refl, sym, ap, Bool, true, false, Option, some,
  List, [], ◌∷◌, String, ok, length, arith, ltb, ◌==◌, if◌then◌else◌, ◌∙◌, all_below,
  all_below_sound,
}
use palka.Base.Text.{◌<>◌, as_bytes, as_bytes-append, digit, utf8}
use palka.Persistence.Hex.{
  hex_digit, format_128bit_id_hex, nibble, read_pairs, parse_128bit_id_hex, join_nibbles,
}

abbrev digit_code : ℕ → ℕ
digit_code d = if ltb d 10 then 48 + d else 87 + d

codes : List ℕ → List ℕ
codes [] = []
codes (b ∷ bytes) = digit_code (b / 16) ∷ digit_code (b % 16) ∷ codes bytes

is_single : List ℕ → ℕ → Bool
is_single (x ∷ []) c = x == c
is_single _ c = false

is_single_sound : (l : List ℕ) (c : ℕ) → is_single l c ≡ true → l ≡ c ∷ []
unfolding is_single
is_single_sound l c h = ground arith

digit_table : all_below 16 (λ d. is_single (as_bytes (hex_digit d)) (digit_code d)) ≡ true
unfolding as_bytes digit utf8 is_single all_below
digit_table = refl

as_bytes-hex_digit : (d : ℕ) → d < 16 → as_bytes (hex_digit d) ≡ digit_code d ∷ []
as_bytes-hex_digit d h =
    is_single_sound (as_bytes (hex_digit d)) (digit_code d)
      (all_below_sound 16 (λ e. is_single (as_bytes (hex_digit e)) (digit_code e)) d digit_table h)

nibble-digit_code : (d : ℕ) → d < 16 → nibble (digit_code d) ≡ some d
unfolding nibble
nibble-digit_code d h = ground arith

nibble-eq-some : (c d : ℕ) → nibble c ≡ some d → (d < 16) × (c ≡ digit_code d)
unfolding nibble
nibble-eq-some c d h = ground arith

as_bytes-format :
    (bytes : List ℕ) → AreBytes bytes → as_bytes (format_128bit_id_hex bytes) ≡ codes bytes
unfolding format_128bit_id_hex codes as_bytes
as_bytes-format [] h = refl
as_bytes-format (b ∷ bytes) h =
    let hi = as_bytes-hex_digit (b / 16) (omega (arith, h.0)) in
    let lo = as_bytes-hex_digit (b % 16) (omega arith) in
    let rest = as_bytes-format bytes h.1 in
    let inner = as_bytes-append (hex_digit (b % 16)) (format_128bit_id_hex bytes) in
    let outer =
      as_bytes-append (hex_digit (b / 16)) (hex_digit (b % 16) <> format_128bit_id_hex bytes) in
    cc (hi, lo, rest, inner, outer)

length-codes : (bytes : List ℕ) → length (codes bytes) ≡ 2 * length bytes
unfolding codes
length-codes [] = refl
length-codes (b ∷ bytes) = omega (arith, length-codes bytes)

read_pairs-codes : (bytes : List ℕ) → AreBytes bytes → read_pairs (codes bytes) ≡ some bytes
unfolding codes read_pairs join_nibbles
read_pairs-codes [] h = refl
read_pairs-codes (b ∷ bytes) h =
    ground
      (arith, nibble-digit_code (b / 16), nibble-digit_code (b % 16), read_pairs-codes bytes h.1)

join_nibbles-eq-some :
    (hi lo : Option ℕ) (rest : Option (List ℕ)) (bytes : List ℕ)
    → join_nibbles hi lo rest ≡ some bytes
    → (a b : ℕ) × (tail : List ℕ) × (hi ≡ some a)
      × (lo ≡ some b)
      × (rest ≡ some tail)
      × (bytes ≡ (a * 16 + b) ∷ tail)
unfolding join_nibbles
join_nibbles-eq-some hi lo rest bytes h = ground arith

read_pairs-eq-some :
    (l bytes : List ℕ) → read_pairs l ≡ some bytes → AreBytes bytes × (l ≡ codes bytes)
unfolding codes read_pairs join_nibbles
read_pairs-eq-some [] bytes h = ground arith
read_pairs-eq-some (hi ∷ []) bytes h = ground arith
read_pairs-eq-some (hi ∷ lo ∷ rest) bytes h =
    let (a, b, tail, ha, hb, ht, e) =
      join_nibbles-eq-some (nibble hi) (nibble lo) (read_pairs rest) bytes h in
    let ca = nibble-eq-some hi a ha in
    let cb = nibble-eq-some lo b hb in
    let ih = read_pairs-eq-some rest tail ht in ground (arith, ca, cb, ih)

-- A text is accepted as an identifier exactly when it is, byte for byte, the one text that the
-- identifier is written as; the identifier then has 16 bytes.
pub parse_128bit_id_hex-eq-ok_iff :
    (field s : String) (bytes : List ℕ)
    → (parse_128bit_id_hex field s ≡ ok bytes) ↔ (
        (length bytes ≡ 16) × AreBytes bytes × (as_bytes s ≡ as_bytes (format_128bit_id_hex bytes)))
unfolding parse_128bit_id_hex
parse_128bit_id_hex-eq-ok_iff field s bytes = (
  λ h.
      let read : (length (as_bytes s) ≡ 32) × (read_pairs (as_bytes s) ≡ some bytes) =
        ground arith in
      let c = read_pairs-eq-some (as_bytes s) bytes read.1 in
      let f = as_bytes-format bytes c.0 in
      (omega (arith, read.0, ap length c.1, length-codes bytes), c.0, c.1 ∙ sym f),
  λ (n, small, same).
      let f = same ∙ as_bytes-format bytes small in
      let r = ap read_pairs f ∙ read_pairs-codes bytes small in
      let l : length (as_bytes s) ≡ 32 = omega (arith, ap length f, length-codes bytes, n) in
      ground (arith, r, l),
)

-- An identifier of 16 bytes is read back from its text.
pub parse_128bit_id_hex-format :
    (field : String) (bytes : List ℕ)
    → length bytes ≡ 16
    → AreBytes bytes
    → parse_128bit_id_hex field (format_128bit_id_hex bytes) ≡ ok bytes
parse_128bit_id_hex-format field bytes n small =
    (parse_128bit_id_hex-eq-ok_iff field (format_128bit_id_hex bytes) bytes).1 (n, small, refl)
