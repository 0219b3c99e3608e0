-- ===== src/Runtime/Action.antt =====
-- Methods of the coordinator: they change its state and may fail, and what was changed before a
-- failure stays changed.
pub mod Keeps
pub mod Triple
pub mod Total
pub mod Calls
use palka.Base.{ℕ, suc, Bool, ◌≡◌, refl, List, ◌∷◌, Result, ok, err, if◌then◌else◌}
use palka.Runtime.State.{Coordinator, Ports, Effect}

abbrev pub Action : Type 0 → Type 0 → Type 0
Action E A = Coordinator → Result A E × Coordinator

module _ {E A : Type 0} where
  unfoldable pub pure : A → Action E A
  pure a c = (ok a, c)

  unfoldable pub raise : E → Action E A
  raise e c = (err e, c)

  unfoldable pub lift : Result A E → Action E A
  lift r c = (r, c)

  unfoldable pub gets : (Coordinator → A) → Action E A
  gets f c = (ok (f c), c)

  -- A call of a port.
  unfoldable pub call : (Ports → ℕ → A) → Action E A
  call f c = (ok (f c.ports c.calls), record c { calls = suc c.calls })

-- The conditional between two actions: shut, so that the rules of `Keeps` find it.
infix 1 when◌then◌else◌
unfoldable pub when◌then◌else◌ : {A E : Type 0} → Bool → Action E A → Action E A → Action E A
when◌then◌else◌ b m n c = if b then m c else n c

module _ {E : Type 0} where
  unfoldable pub modify : (Coordinator → Coordinator) → Action E (Unit {0})
  modify f c = (ok tt, f c)

  unfoldable pub note : Effect → Action E (Unit {0})
  note e c = (ok tt, record c { trace = e ∷ c.trace })

module _ {E A B : Type 0} where
  abbrev pub continue : Result A E → (A → Action E B) → Action E B
  continue (ok a) f c = f a c
  continue (err e) f c = (err e, c)

  infixl 5 ◌>>=◌ ◌>>◌
  -- `?`; opening it opens the actions above.
  unfoldable pub ◌>>=◌ : Action E A → (A → Action E B) → Action E B
  unfolding pure raise lift gets call modify note when◌then◌else◌
  ◌>>=◌ m f c = let (r, c') = m c in continue r f c'

  abbrev pub ◌>>◌ : Action E A → Action E B → Action E B
  m >> k = m >>= λ _. k

module _ {E F A : Type 0} where
  -- The result as a value, as in `match self.f() { … }` and `let _ = self.f()`.
  unfoldable pub try : Action E A → Action F (Result A E)
  try m c = (ok (m c).0, (m c).1)

  abbrev pub map_err_result : (E → F) → Result A E → Result A F
  map_err_result f (ok a) = ok a
  map_err_result f (err e) = err (f e)

  unfoldable pub map_err : (E → F) → Action E A → Action F A
  map_err f m c = (map_err_result f (m c).0, (m c).1)

  -- `let _ = …`
  unfoldable pub ignore : Action E A → Action F (Unit {0})
  ignore m c = (ok tt, (m c).1)
