-- ===== src/Ipc/Pin/Reading.antt =====
-- crates/ipc-protocol/src/codec.rs: the unescaper reads exactly the JSON strings.
use palka.Base.{
  ℕ, zero, suc, ◌+◌, ◌*◌, ◌≤◌, ◌≡◌, ◌≢◌, refl, ap, ◌∙◌, false, some, List, [], ◌∷◌, ◌++◌, ok,
  length, length-append, is_empty, arith,
}
use mathlib.Core.List.{append_assoc}
use palka.Base.Text.{is_whitespace, trim_start, trim_end}
use palka.Ipc.Pin.{
  short_escape, escape, unicode_escape, next_char, unescape, before_quote, put_before,
  between_quotes, unescape_pin_json_string,
}
use palka.Ipc.Pin.Grammar.{
  Spells, plain, bare_quote, short, unit, pair, Unescapes, done, next, unicode_escape-unit,
  unicode_escape-pair,
}

-- A spelling is not empty, and one round reads it.
IsRead : List ℕ → ℕ → List ℕ → Type 0
IsRead s c rest = (ch : ℕ) × (t : List ℕ) × (s ≡ ch ∷ t) × (next_char ch (t ++ rest) ≡ ok (c, rest))

unicode_escaped :
    (chars : List ℕ) (r : ℕ × List ℕ)
    → unicode_escape chars ≡ ok r
    → next_char b'\\' (b'u' ∷ chars) ≡ ok r
unfolding next_char escape short_escape
unicode_escaped chars r h = h

plain_read : (c : ℕ) (rest : List ℕ) → 0x20 ≤ c → c ≢ b'\\' → next_char c rest ≡ ok (c, rest)
unfolding next_char
plain_read c rest large other = ground arith

short_read :
    (k c : ℕ) (rest : List ℕ) → short_escape k ≡ some c → next_char b'\\' (k ∷ rest) ≡ ok (c, rest)
unfolding next_char escape
short_read k c rest h = ground (arith, h)

Spells-IsRead : (s rest : List ℕ) (c : ℕ) → Spells s c → IsRead s c rest
unfolding IsRead
Spells-IsRead _ rest _ (plain c large other quote) = (c, [], refl, plain_read c rest large other)
Spells-IsRead _ rest _ bare_quote =
    (b'"', [], refl, plain_read b'"' rest (omega arith) (ground arith))
Spells-IsRead _ rest _ (short k c h) = (b'\\', k ∷ [], refl, short_read k c rest h)
Spells-IsRead _ rest _ (unit t c h range) = (
  b'\\',
  b'u' ∷ t,
  refl,
  unicode_escaped (t ++ rest) (c, rest) (unicode_escape-unit t rest c h range),
)
Spells-IsRead _ rest _ (pair t1 t2 high low h k hh hl) =
    let chars = t1 ++ (b'\\' ∷ b'u' ∷ t2 ++ rest) in
    let c = 0x10000 + high * 1024 + low in
    let read = unicode_escape-pair t1 t2 rest high low h k hh hl in
    let assoc = append_assoc t1 (b'\\' ∷ b'u' ∷ t2) rest in
    (
      b'\\',
      b'u' ∷ t1 ++ (b'\\' ∷ b'u' ∷ t2),
      refl,
      ap (λ l. next_char b'\\' (b'u' ∷ l)) assoc ∙ unicode_escaped chars (c, rest) read,
    )

-- Enough fuel reads every JSON string.
Unescapes-unescape :
    (n : ℕ) (chars out : List ℕ)
    → length chars ≤ n
    → Unescapes chars out
    → unescape n chars ≡ ok out
unfolding unescape IsRead
Unescapes-unescape n _ _ enough done = refl
Unescapes-unescape zero _ _ enough (next s rest c out spelt u) =
    let (ch, t, e, read) = Spells-IsRead s rest c spelt in
    absurd (omega (arith, enough, length-append s rest, ap length e))
Unescapes-unescape (suc n) _ _ enough (next s rest c out spelt u) =
    let (ch, t, e, read) = Spells-IsRead s rest c spelt in
    let smaller : length rest ≤ n = omega (arith, enough, length-append s rest, ap length e) in
    let ih = Unescapes-unescape n rest out smaller u in
    ap (λ l. unescape (suc n) (l ++ rest)) e ∙ ground (arith, read, ih)

before_quote-append : (s : List ℕ) → before_quote (s ++ (b'"' ∷ [])) ≡ some s
unfolding before_quote
before_quote-append [] = refl
before_quote-append (c ∷ []) = refl
before_quote-append (c ∷ d ∷ s) = ap (put_before c) (before_quote-append (d ∷ s))

append_not_empty : (s : List ℕ) → is_empty (s ++ (b'"' ∷ [])) ≡ false
append_not_empty [] = refl
append_not_empty (c ∷ s) = refl

trim_end-append : (s : List ℕ) → trim_end (s ++ (b'"' ∷ [])) ≡ s ++ (b'"' ∷ [])
unfolding trim_end is_whitespace
trim_end-append [] = refl
trim_end-append (c ∷ s) =
    let not_empty : is_empty (s ++ (b'"' ∷ [])) ≡ false = append_not_empty s in
    ground (arith, trim_end-append s, not_empty)

-- A PIN that is written as a JSON string, whatever the escapes, is read back.
unescape_pin_json_string-Unescapes :
    (s pin : List ℕ) → Unescapes s pin → unescape_pin_json_string (b'"' ∷ s ++ (b'"' ∷ [])) ≡ ok pin
unfolding unescape_pin_json_string trim_start trim_end between_quotes is_whitespace
unescape_pin_json_string-Unescapes s pin u =
    let t = trim_end-append (b'"' ∷ s) in
    let q = before_quote-append s in
    let r = Unescapes-unescape (length s) s pin (omega arith) u in ground (arith, t, q, r)
