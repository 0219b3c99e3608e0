-- ===== src/Runtime/Action/Keeps.antt =====
-- Invariants of actions, with a rule for each way to build an action.
use palka.Base.{◌≡◌, refl, Bool, true, false, Result, ok, err, if◌then◌else◌}
use palka.Runtime.State.{Coordinator}
use palka.Runtime.Action.{
  Action, pure, raise, lift, gets, ◌>>=◌, try, map_err, ignore, when◌then◌else◌,
}

-- `m` keeps `P`, whether it returns or fails.
pub record Keeps {A E : Type 0} (P : Coordinator → Type 0) (m : Action E A) : Type 0 where
  pub at : (c : Coordinator) → P c → P (m c).1

module _ {A E : Type 0} {P : Coordinator → Type 0} where
  pub Keeps-pure : (a : A) → Keeps P (pure {E = E} a)
  unfolding pure
  Keeps-pure a = record { at = λ c h. h }

  pub Keeps-raise : (e : E) → Keeps P (raise {A = A} e)
  unfolding raise
  Keeps-raise e = record { at = λ c h. h }

  pub Keeps-lift : (r : Result A E) → Keeps P (lift r)
  unfolding lift
  Keeps-lift r = record { at = λ c h. h }

  pub Keeps-gets : (f : Coordinator → A) → Keeps P (gets {E = E} f)
  unfolding gets
  Keeps-gets f = record { at = λ c h. h }

  pub Keeps-if :
      (b : Bool) (m n : Action E A)
      → (b ≡ true → Keeps P m)
      → (b ≡ false → Keeps P n)
      → Keeps P (when b then m else n)
  unfolding when◌then◌else◌
  Keeps-if true m n km kn = record { at = λ c h. (km refl).at c h }
  Keeps-if false m n km kn = record { at = λ c h. (kn refl).at c h }

module _ {A B E : Type 0} {P : Coordinator → Type 0} where
  continue-Keeps :
      (r : Result A E) (f : A → Action E B) → ((a : A) → Keeps P (f a)) → Keeps P (lift r >>= f)
  unfolding ◌>>=◌
  continue-Keeps (ok a) f kf = record { at = λ c h. (kf a).at c h }
  continue-Keeps (err e) f kf = record { at = λ c h. h }

  pub Keeps-bind :
      (m : Action E A) (f : A → Action E B)
      → Keeps P m
      → ((a : A) → Keeps P (f a))
      → Keeps P (m >>= f)
  unfolding ◌>>=◌
  Keeps-bind m f km kf = record {
    at = λ c h. let (r, c') = m c in (continue-Keeps r f kf).at c' (km.at c h);
  }

module _ {A E F : Type 0} {P : Coordinator → Type 0} where
  pub Keeps-try : (m : Action E A) → Keeps P m → Keeps P (try {F = F} m)
  unfolding try
  Keeps-try m km = record { at = λ c h. km.at c h }

  pub Keeps-map_err : (f : E → F) (m : Action E A) → Keeps P m → Keeps P (map_err f m)
  unfolding map_err
  Keeps-map_err f m km = record { at = λ c h. km.at c h }

  pub Keeps-ignore : (m : Action E A) → Keeps P m → Keeps P (ignore {F = F} m)
  unfolding ignore
  Keeps-ignore m km = record { at = λ c h. km.at c h }

pub ruleset keeps_rules = (
  Keeps-pure, Keeps-raise, Keeps-lift, Keeps-gets, Keeps-if, Keeps-bind, Keeps-try, Keeps-map_err,
  Keeps-ignore,
)
