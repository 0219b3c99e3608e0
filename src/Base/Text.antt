-- ===== src/Base/Text.antt =====
-- Numbers in texts: `format!("{n}")`.
use Prim.Native.String.append
use Prim.Native.Nat.{ℕ, zero, suc, ◌+◌, ◌/◌, ◌%◌}
use Prim.Native.Char.{code}
use Prim.Native.String.{String, ◌++◌ as push_str}
use mathlib.Core.Path.{◌≡◌, refl, ap, sym, ◌∙◌}
use mathlib.Core.Bool.{Bool, true, ◌&&◌, ◌||◌}
use mathlib.Core.List.{List, [], ◌∷◌, ◌++◌, append_assoc}
use palka.Base.Lists.{is_empty}
use palka.Base.Tests.{◌==◌, ltb, leb, if◌then◌else◌}

infixr 60 ◌<>◌
abbrev pub ◌<>◌ : String → String → String
s <> t = push_str s t

unfoldable pub digit : ℕ → String
digit d =
    if d == 0
    then "0"
    else if d == 1
    then "1"
    else if d == 2
    then "2"
    else if d == 3
    then "3"
    else if d == 4
    then "4"
    else if d == 5
    then "5"
    else if d == 6
    then "6"
    else if d == 7
    then "7"
    else if d == 8
    then "8"
    else "9"

-- Ten to the fuel bounds the number; `show_ℕ` gives more fuel than there are digits.
digits : ℕ → ℕ → String → String
digits zero n rest = rest
digits (suc f) n rest =
    let longer = digits f (n / 10) (digit (n % 10) <> rest) in
    if n / 10 == 0 then digit (n % 10) <> rest else longer

unfoldable pub show_ℕ : ℕ → String
unfolding digits digit
show_ℕ n = digits (suc n) n ""

-- `", "` between the numbers, as `{:?}` writes an array.
unfoldable pub show_list : List ℕ → String
unfolding show_ℕ
show_list [] = ""
show_list (x ∷ []) = show_ℕ x
show_list (x ∷ y ∷ ys) = show_ℕ x <> ", " <> show_list (y ∷ ys)

-- The UTF-8 of a code point.
unfoldable pub utf8 : ℕ → List ℕ
utf8 c =
    if ltb c 128
    then c ∷ []
    else if ltb c 2048
    then (192 + c / 64) ∷ (128 + c % 64) ∷ []
    else if ltb c 65536
    then (224 + c / 4096) ∷ (128 + c / 64 % 64) ∷ (128 + c % 64) ∷ []
    else (240 + c / 262144) ∷ (128 + c / 4096 % 64) ∷ (128 + c / 64 % 64) ∷ (128 + c % 64) ∷ []

-- `str::as_bytes`
unfoldable pub as_bytes : String → List ℕ
as_bytes String.[] = []
as_bytes (String.◌∷◌ c s) = utf8 (code c) ++ as_bytes s

pub as_bytes-append : (s t : String) → as_bytes (s <> t) ≡ as_bytes s ++ as_bytes t
unfolding as_bytes
as_bytes-append String.[] t = ap as_bytes (append.nil t)
as_bytes-append (String.◌∷◌ c s) t =
    ap as_bytes (append.cons c s t)
    ∙ ap (λ l. utf8 (code c) ++ l) (as_bytes-append s t)
    ∙ sym (append_assoc (utf8 (code c)) (as_bytes s) (as_bytes t))

-- `char::is_whitespace`, the Unicode property White_Space.
unfoldable pub is_whitespace : ℕ → Bool
is_whitespace c =
    (leb 0x9 c && leb c 0xd)
    || c == 0x20
    || c == 0x85
    || c == 0xa0
    || c == 0x1680
    || (leb 0x2000 c && leb c 0x200a)
    || c == 0x2028
    || c == 0x2029
    || c == 0x202f
    || c == 0x205f
    || c == 0x3000

-- `text.trim().is_empty()`
unfoldable pub is_blank : String → Bool
is_blank String.[] = true
is_blank (String.◌∷◌ ch s) = is_whitespace (code ch) && is_blank s

-- `str::trim`
unfoldable pub trim_start : List ℕ → List ℕ
trim_start [] = []
trim_start (c ∷ s) = let rest = trim_start s in if is_whitespace c then rest else c ∷ s

unfoldable pub trim_end : List ℕ → List ℕ
trim_end [] = []
trim_end (c ∷ s) =
    let rest = trim_end s in if is_empty rest && is_whitespace c then [] else c ∷ rest

abbrev pub trim : List ℕ → List ℕ
trim s = trim_end (trim_start s)

show_number : show_ℕ 3600 ≡ "3600"
unfolding show_ℕ
show_number = refl
