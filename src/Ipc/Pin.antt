-- ===== src/Ipc/Pin.antt =====
-- crates/ipc-protocol/src/codec.rs: the reader of the PIN, a JSON string that is unescaped without
-- leaving copies. Texts are lists of code points here.
pub mod Grammar
pub mod Reading
use palka.Base.{
  ℕ, zero, suc, ◌+◌, ◌-◌, ◌*◌, ◌≡◌, Bool, true, false, ◌&&◌, ◌||◌, not, Option, none, some, List,
  [], ◌∷◌, ◌++◌, Result, ok, err, length, is_empty, ltb, leb, ◌==◌, if◌then◌else◌, map_err,
}
use palka.Base.Results.{◌>>=◌, ◌>>◌, refuse_if, ok_or}
use palka.Base.Text.{trim}
use palka.Ipc.Errors.{RequestParseFailure, malformed}

-- `char::to_digit(16)`
unfoldable pub to_digit : ℕ → Option ℕ
to_digit c =
    if leb b'0' c && leb c b'9'
    then some (c - b'0')
    else if leb b'a' c && leb c b'f'
    then some (c - b'a' + 10)
    else if leb b'A' c && leb c b'F'
    then some (c - b'A' + 10)
    else none

abbrev pub truncated_unicode : RequestParseFailure
truncated_unicode = malformed "Truncated \\u unicode escape sequence"

abbrev pub invalid_digit : RequestParseFailure
invalid_digit = malformed "Invalid hex digit in \\u unicode escape"

-- The loop of `parse_hex4`, on the digits left to read: the value, and the characters left.
unfoldable pub hex_digits : ℕ → ℕ → List ℕ → Result (ℕ × List ℕ) RequestParseFailure
hex_digits zero val chars = ok (val, chars)
hex_digits (suc n) val [] = err truncated_unicode
hex_digits (suc n) val (ch ∷ chars) = do
  digit ← ok_or (to_digit ch) invalid_digit
  hex_digits n (val * 16 + digit) chars

abbrev pub parse_hex4 : List ℕ → Result (ℕ × List ℕ) RequestParseFailure
parse_hex4 = hex_digits 4 0

abbrev pub is_high_surrogate : ℕ → Bool
is_high_surrogate u = leb 0xD800 u && leb u 0xDBFF

abbrev pub is_low_surrogate : ℕ → Bool
is_low_surrogate u = leb 0xDC00 u && leb u 0xDFFF

-- `char::from_u32`
abbrev pub from_u32 : ℕ → Option ℕ
from_u32 c = if (ltb c 0xD800 || ltb 0xDFFF c) && ltb c 0x110000 then some c else none

-- `chars.next() != Some('\\') || chars.next() != Some('u')`
unfoldable pub expect_unicode : List ℕ → Result (List ℕ) RequestParseFailure
expect_unicode (a ∷ b ∷ chars) =
    if a == b'\\' && b == b'u'
    then ok chars
    else err (malformed "Expected low surrogate escape sequence after high surrogate")
expect_unicode _ = err (malformed "Expected low surrogate escape sequence after high surrogate")

-- What follows a high surrogate.
unfoldable pub surrogate_pair : ℕ → List ℕ → Result (ℕ × List ℕ) RequestParseFailure
surrogate_pair high chars = do
  low ← expect_unicode chars
  second ← parse_hex4 low
  refuse_if (not (is_low_surrogate second.0)) (malformed "Invalid low surrogate in unicode escape")
  decoded ←
      ok_or (from_u32 (0x10000 + ((high - 0xD800) * 1024 + (second.0 - 0xDC00))))
        (malformed "Invalid unicode code point in surrogate pair")
  ok (decoded, second.1)

abbrev pub unicode_unit : ℕ → List ℕ → Result (ℕ × List ℕ) RequestParseFailure
unicode_unit unit chars =
    if is_high_surrogate unit
    then surrogate_pair unit chars
    else if is_low_surrogate unit
    then err (malformed "Isolated low surrogate in unicode escape")
    else elim (from_u32 unit) [
      | some decoded ↦ ok (decoded, chars)
      | none ↦ err (malformed "Invalid unicode code point in escape")
    ]

-- A `\u` escape, past the `u`.
unfoldable pub unicode_escape : List ℕ → Result (ℕ × List ℕ) RequestParseFailure
unicode_escape chars = do first ← parse_hex4 chars; unicode_unit first.0 first.1

-- The escapes of one letter.
unfoldable pub short_escape : ℕ → Option ℕ
short_escape c =
    if c == b'"'
    then some b'"'
    else if c == b'\\'
    then some b'\\'
    else if c == b'/'
    then some b'/'
    else if c == b'b'
    then some 8
    else if c == b'f'
    then some 12
    else if c == b'n'
    then some 10
    else if c == b'r'
    then some 13
    else if c == b't'
    then some 9
    else none

-- An escape, past the backslash: the character, and the characters left.
unfoldable pub escape : List ℕ → Result (ℕ × List ℕ) RequestParseFailure
escape [] = err (malformed "Truncated escape sequence in PIN string")
escape (esc ∷ chars) = elim (short_escape esc) [
  | some c ↦ ok (c, chars)
  | none ↦
      if esc == b'u'
      then unicode_escape chars
      else err (malformed "Invalid escape character in PIN string")
]

-- The body of the loop, for the character `ch`.
unfoldable pub next_char : ℕ → List ℕ → Result (ℕ × List ℕ) RequestParseFailure
next_char ch chars =
    if ltb ch 0x20
    then err (malformed "Unescaped control character in PIN string")
    else if ch == b'\\'
    then escape chars
    else ok (ch, chars)

-- Each round reads at least one character; with as much fuel as characters it never runs out.
unfoldable pub unescape : ℕ → List ℕ → Result (List ℕ) RequestParseFailure
unescape n [] = ok []
unescape zero (ch ∷ chars) = err (malformed "out of fuel")
unescape (suc n) (ch ∷ chars) = do
  next ← next_char ch chars
  rest ← unescape n next.1
  ok (next.0 ∷ rest)

abbrev pub put_before : ℕ → Option (List ℕ) → Option (List ℕ)
put_before c none = none
put_before c (some t) = some (c ∷ t)

-- What stands before a quote at the end.
unfoldable pub before_quote : List ℕ → Option (List ℕ)
before_quote [] = none
before_quote (c ∷ []) = if c == b'"' then some [] else none
before_quote (c ∷ d ∷ s) = put_before c (before_quote (d ∷ s))

-- What stands between a quote at the start and another one at the end.
unfoldable pub between_quotes : List ℕ → Option (List ℕ)
between_quotes [] = none
between_quotes (c ∷ s) = if c == b'"' then before_quote s else none

unfoldable pub unescape_pin_json_string : List ℕ → Result (List ℕ) RequestParseFailure
unescape_pin_json_string raw = do
  inner ← ok_or (between_quotes (trim raw)) (malformed "PIN field must be a JSON string")
  unescape (length inner) inner
