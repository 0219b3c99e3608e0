-- ===== src/Base/Results.antt =====
-- The early returns of Rust: `?`, `if bad { return Err(e); }` and `o.ok_or(e)?`.
use mathlib.Core.Path.{◌≡◌, refl}
use mathlib.Core.Bool.{Bool, true, false}
use mathlib.Core.Option.{Option, none, some}
use palka.Base.Tests.{Result, ok, err}

abbrev pub refuse_if : {E : Type 0} → Bool → E → Result Unit E
refuse_if false failure = ok tt
refuse_if true failure = err failure

abbrev pub ok_or {ℓ} : {A E : Type ℓ} → Option A → E → Result A E
ok_or (some found) failure = ok found
ok_or none failure = err failure

module _ {ℓ} {A B E : Type ℓ} where
  infixl 5 ◌>>=◌
  abbrev pub ◌>>=◌ : Result A E → (A → Result B E) → Result B E
  err failure >>= continue = err failure
  ok value >>= continue = continue value

  -- What a block that returns went through.
  pub >>=-eq-ok :
      (first : Result A E) (continue : A → Result B E) {result : B}
      → (first >>= continue) ≡ ok result
      → (value : A) × (first ≡ ok value) × (continue value ≡ ok result)
  >>=-eq-ok (err failure) continue returned = cc
  >>=-eq-ok (ok value) continue returned = (value, refl, returned)

infixl 5 ◌>>◌
abbrev pub ◌>>◌ : {B E : Type 0} → Result Unit E → Result B E → Result B E
first >> second = first >>= λ done. second
