-- ===== src/Ipc/Pin/Grammar.antt =====
-- crates/ipc-protocol/src/codec.rs: the unescaper against the grammar of JSON strings.
use palka.Base.{
  ℕ, suc, ◌+◌, ◌-◌, ◌*◌, ◌≤◌, ◌<◌, ◌≡◌, ◌≢◌, ◌⊎◌, inl, inr, refl, sym, ap, subst, ◌∙◌, true, some,
  List, [], ◌∷◌, ◌++◌, ok, arith, Result-cases, Bool-cases,
}
use mathlib.Core.List.{append_assoc}
use palka.Base.Results.{ok_or, >>=-eq-ok}
use palka.Ipc.Pin.{
  to_digit, hex_digits, parse_hex4, is_high_surrogate, is_low_surrogate, expect_unicode,
  surrogate_pair, unicode_unit, unicode_escape, short_escape, invalid_digit,
}

-- Four hexadecimal digits and their value.
pub record Hex4 (s : List ℕ) (u : ℕ) : Type 0 where
  pub d0 : ℕ
  pub d1 : ℕ
  pub d2 : ℕ
  pub d3 : ℕ
  pub v0 : ℕ
  pub v1 : ℕ
  pub v2 : ℕ
  pub v3 : ℕ
  pub digits : s ≡ d0 ∷ d1 ∷ d2 ∷ d3 ∷ []
  pub value0 : to_digit d0 ≡ some v0
  pub value1 : to_digit d1 ≡ some v1
  pub value2 : to_digit d2 ≡ some v2
  pub value3 : to_digit d3 ≡ some v3
  pub value : u ≡ 4096 * v0 + 256 * v1 + 16 * v2 + v3

-- The spellings of one character in a JSON string: itself, an escape of one letter, its UTF-16
-- unit, or a pair of surrogates; and `bare_quote`, which is none of JSON, but which the code reads.
pub data Spells : List ℕ → ℕ → Type 0 where
  plain : (c : ℕ) → 0x20 ≤ c → c ≢ b'\\' → c ≢ b'"' → Spells (c ∷ []) c
  bare_quote : Spells (b'"' ∷ []) b'"'
  short : (k c : ℕ) → short_escape k ≡ some c → Spells (b'\\' ∷ k ∷ []) c
  unit : (s : List ℕ) (u : ℕ) → Hex4 s u → (u < 0xD800) ⊎ (0xDFFF < u) → Spells (b'\\' ∷ b'u' ∷ s) u
  pair :
      (s t : List ℕ) (high low : ℕ)
      → Hex4 s (0xD800 + high)
      → Hex4 t (0xDC00 + low)
      → high < 1024
      → low < 1024
      → Spells (b'\\' ∷ b'u' ∷ s ++ (b'\\' ∷ b'u' ∷ t)) (0x10000 + high * 1024 + low)

pub data Unescapes : List ℕ → List ℕ → Type 0 where
  done : Unescapes [] []
  next :
      (s rest : List ℕ) (c : ℕ) (out : List ℕ)
      → Spells s c
      → Unescapes rest out
      → Unescapes (s ++ rest) (c ∷ out)

to_digit-lt : (c v : ℕ) → to_digit c ≡ some v → v < 16
unfolding to_digit
to_digit-lt c v h = ground arith

Hex4-lt : (s : List ℕ) (u : ℕ) → Hex4 s u → u < 65536
Hex4-lt s u h = omega (
  arith,
  h.value,
  to_digit-lt h.d0 h.v0 h.value0,
  to_digit-lt h.d1 h.v1 h.value1,
  to_digit-lt h.d2 h.v2 h.value2,
  to_digit-lt h.d3 h.v3 h.value3,
)

hex_digits-cons :
    (n val d v : ℕ) (chars : List ℕ)
    → to_digit d ≡ some v
    → hex_digits (suc n) val (d ∷ chars) ≡ hex_digits n (val * 16 + v) chars
unfolding hex_digits
hex_digits-cons n val d v chars h = ground (arith, h)

hex_digits-eq-ok :
    (n val : ℕ) (chars : List ℕ) (r : ℕ × List ℕ)
    → hex_digits (suc n) val chars ≡ ok r
    → (d v : ℕ) × (rest : List ℕ) × (chars ≡ d ∷ rest)
      × (to_digit d ≡ some v)
      × (hex_digits n (val * 16 + v) rest ≡ ok r)
unfolding hex_digits
hex_digits-eq-ok n val [] r h = ground arith
hex_digits-eq-ok n val (d ∷ rest) r h =
    let (v, hv, hr) =
      >>=-eq-ok (ok_or (to_digit d) invalid_digit) (λ v. hex_digits n (val * 16 + v) rest) h in
    (d, v, rest, refl, ground arith, hr)

parse_hex4-Hex4 : (s rest : List ℕ) (u : ℕ) → Hex4 s u → parse_hex4 (s ++ rest) ≡ ok (u, rest)
unfolding hex_digits
parse_hex4-Hex4 s rest u h =
    let v = ((h.v0 * 16 + h.v1) * 16 + h.v2) * 16 + h.v3 in
    let e : v ≡ u = omega (arith, h.value) in
    ap (λ t. parse_hex4 (t ++ rest)) h.digits
    ∙ hex_digits-cons 3 0 h.d0 h.v0 (h.d1 ∷ h.d2 ∷ h.d3 ∷ rest) h.value0
    ∙ hex_digits-cons 2 (0 * 16 + h.v0) h.d1 h.v1 (h.d2 ∷ h.d3 ∷ rest) h.value1
    ∙ hex_digits-cons 1 ((0 * 16 + h.v0) * 16 + h.v1) h.d2 h.v2 (h.d3 ∷ rest) h.value2
    ∙ hex_digits-cons 0 (((0 * 16 + h.v0) * 16 + h.v1) * 16 + h.v2) h.d3 h.v3 rest h.value3
    ∙ ground (arith, h.value)

parse_hex4-eq-ok :
    (chars rest : List ℕ) (u : ℕ)
    → parse_hex4 chars ≡ ok (u, rest)
    → (s : List ℕ) × Hex4 s u × (chars ≡ s ++ rest)
unfolding hex_digits
parse_hex4-eq-ok chars rest u h =
    let (a, va, l1, e1, ha, h1) = hex_digits-eq-ok 3 0 chars (u, rest) h in
    let (b, vb, l2, e2, hb, h2) = hex_digits-eq-ok 2 (0 * 16 + va) l1 (u, rest) h1 in
    let (c, vc, l3, e3, hc, h3) = hex_digits-eq-ok 1 ((0 * 16 + va) * 16 + vb) l2 (u, rest) h2 in
    let (d, vd, l4, e4, hd, h4) =
      hex_digits-eq-ok 0 (((0 * 16 + va) * 16 + vb) * 16 + vc) l3 (u, rest) h3 in
    let last : (((((0 * 16 + va) * 16 + vb) * 16 + vc) * 16 + vd) ≡ u) × (l4 ≡ rest) =
      ground (arith, h4) in
    (
      a ∷ b ∷ c ∷ d ∷ [],
      record {
        d0 = a;
        d1 = b;
        d2 = c;
        d3 = d;
        v0 = va;
        v1 = vb;
        v2 = vc;
        v3 = vd;
        digits = refl;
        value0 = ha;
        value1 = hb;
        value2 = hc;
        value3 = hd;
        value = omega (arith, last.0);
      },
      cc (e1, e2, e3, e4, last.1),
    )

-- One round of the loop reads exactly one spelling.
pub unicode_escape-unit :
    (s rest : List ℕ) (u : ℕ)
    → Hex4 s u
    → (u < 0xD800) ⊎ (0xDFFF < u)
    → unicode_escape (s ++ rest) ≡ ok (u, rest)
unfolding unicode_escape
unicode_escape-unit s rest u h range =
    let small = Hex4-lt s u h in ground (arith, parse_hex4-Hex4 s rest u h)

surrogate_pair-Hex4 :
    (t rest : List ℕ) (high low : ℕ)
    → Hex4 t (0xDC00 + low)
    → high < 1024
    → low < 1024
    → surrogate_pair (0xD800 + high) (b'\\' ∷ b'u' ∷ t ++ rest)
      ≡ ok (0x10000 + high * 1024 + low, rest)
unfolding surrogate_pair expect_unicode
surrogate_pair-Hex4 t rest high low k hh hl =
    ground (arith, parse_hex4-Hex4 t rest (0xDC00 + low) k)

pub unicode_escape-pair :
    (s t rest : List ℕ) (high low : ℕ)
    → Hex4 s (0xD800 + high)
    → Hex4 t (0xDC00 + low)
    → high < 1024
    → low < 1024
    → unicode_escape (s ++ (b'\\' ∷ b'u' ∷ t ++ rest)) ≡ ok (0x10000 + high * 1024 + low, rest)
unfolding unicode_escape
unicode_escape-pair s t rest high low h k hh hl =
    let first = parse_hex4-Hex4 s (b'\\' ∷ b'u' ∷ t ++ rest) (0xD800 + high) h in
    let second = surrogate_pair-Hex4 t rest high low k hh hl in ground (arith, first, second)

expect_unicode-eq-ok :
    (chars low : List ℕ) → expect_unicode chars ≡ ok low → chars ≡ b'\\' ∷ b'u' ∷ low
unfolding expect_unicode
expect_unicode-eq-ok chars low h = ground arith

surrogate_pair-eq-ok :
    (u : ℕ) (chars rest : List ℕ) (c : ℕ)
    → surrogate_pair u chars ≡ ok (c, rest)
    → (low : List ℕ) × (v : ℕ) × (expect_unicode chars ≡ ok low)
      × (parse_hex4 low ≡ ok (v, rest))
      × (is_low_surrogate v ≡ true)
      × (c ≡ 0x10000 + ((u - 0xD800) * 1024 + (v - 0xDC00)))
unfolding surrogate_pair
surrogate_pair-eq-ok u chars rest c h = elim (Result-cases (expect_unicode chars)) [
  | inr (e, he) ↦ absurd (ground (arith, h, he))
  | inl (low, he) ↦ elim (Result-cases (parse_hex4 low)) [
    | inr (e, hp) ↦ absurd (ground (arith, h, he, hp))
    | inl ((v, r), hp) ↦ (
      low,
      v,
      he,
      ground (arith, h, he, hp),
      ground (arith, h, he, hp),
      ground (arith, h, he, hp),
    )
  ]
]

unicode_unit-eq-ok :
    (u : ℕ) (chars rest : List ℕ) (c : ℕ)
    → unicode_unit u chars ≡ ok (c, rest)
    → ((0xD800 ≤ u) × (u ≤ 0xDBFF) × (surrogate_pair u chars ≡ ok (c, rest)))
      ⊎ (((u < 0xD800) ⊎ (0xDFFF < u)) × (u ≡ c) × (chars ≡ rest))
unicode_unit-eq-ok u chars rest c h = elim (Bool-cases (is_high_surrogate u)) [
  | inl high ↦ inl (ground arith, ground arith, ground arith)
  | inr other ↦ inr (ground arith, ground arith, ground arith)
]

-- Two escaped units that are surrogates spell one character.
pair-Spells :
    (s t chars rest : List ℕ) (u v c : ℕ)
    → Hex4 s u
    → Hex4 t v
    → (0xD800 ≤ u) × (u ≤ 0xDBFF)
    → is_low_surrogate v ≡ true
    → c ≡ 0x10000 + ((u - 0xD800) * 1024 + (v - 0xDC00))
    → chars ≡ s ++ (b'\\' ∷ b'u' ∷ t ++ rest)
    → (w : List ℕ) × Spells (b'\\' ∷ b'u' ∷ w) c × (chars ≡ w ++ rest)
pair-Spells s t chars rest u v c hs ht high low e whole =
    let hu : u ≡ 0xD800 + (u - 0xD800) = omega (arith, high.0) in
    let hv : v ≡ 0xDC00 + (v - 0xDC00) = ground arith in
    let hc : 0x10000 + (u - 0xD800) * 1024 + (v - 0xDC00) ≡ c = omega (arith, e) in
    let spelt =
      pair s t (u - 0xD800) (v - 0xDC00) (subst (Hex4 s) hu hs) (subst (Hex4 t) hv ht)
        (omega (arith, high.1)) (ground arith) in
    (
      s ++ (b'\\' ∷ b'u' ∷ t),
      subst (Spells (b'\\' ∷ b'u' ∷ s ++ (b'\\' ∷ b'u' ∷ t))) hc spelt,
      whole ∙ sym (append_assoc s (b'\\' ∷ b'u' ∷ t) rest),
    )

pub unicode_escape-eq-ok :
    (chars rest : List ℕ) (c : ℕ)
    → unicode_escape chars ≡ ok (c, rest)
    → (s : List ℕ) × Spells (b'\\' ∷ b'u' ∷ s) c × (chars ≡ s ++ rest)
unfolding unicode_escape
unicode_escape-eq-ok chars rest c h = elim (Result-cases (parse_hex4 chars)) [
  | inr (e, hp) ↦ absurd (ground (arith, h, hp))
  | inl ((u, r), hp) ↦
      let (s, hs, whole) = parse_hex4-eq-ok chars r u hp in
      let two : unicode_unit u r ≡ ok (c, rest) = ground (arith, h, hp) in
      elim (unicode_unit-eq-ok u r rest c two) [
        | inr (range, same, left) ↦ (
          s,
          subst (Spells (b'\\' ∷ b'u' ∷ s)) same (unit s u hs range),
          whole ∙ ap (λ l. s ++ l) left,
        )
        | inl (from, to, paired) ↦
            let (low, v, he, hp2, hl, hc) = surrogate_pair-eq-ok u r rest c paired in
            let (t, ht, tail) = parse_hex4-eq-ok low rest v hp2 in
            let after = expect_unicode-eq-ok r low he ∙ ap (λ l. b'\\' ∷ b'u' ∷ l) tail in
            pair-Spells s t chars rest u v c hs ht (from, to) hl hc (whole ∙ ap (λ l. s ++ l) after)
      ]
]
