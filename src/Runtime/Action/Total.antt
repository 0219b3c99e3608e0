-- ===== src/Runtime/Action/Total.antt =====
-- Actions that never fail.
use palka.Base.{ℕ, ◌≡◌, refl, Bool, true, false, Result, ok, err, arith}
use palka.Runtime.State.{Coordinator, Ports}
use palka.Runtime.Action.{
  Action, pure, gets, call, modify, ignore, continue, ◌>>=◌, when◌then◌else◌,
}
use palka.Runtime.Action.Keeps.{Keeps}
use palka.Runtime.Action.Triple.{Post, returned, Triple}

module _ {A E : Type 0} where
  abbrev pub is_ok : Result A E → Bool
  is_ok (ok a) = true
  is_ok (err e) = false

  pub record Total (m : Action E A) : Type 0 where
    pub at : (c : Coordinator) → is_ok (m c).0 ≡ true

  pub Total-pure : (a : A) → Total (pure a)
  unfolding pure
  Total-pure a = record { at = λ c. refl }

  pub Total-gets : (f : Coordinator → A) → Total (gets f)
  unfolding gets
  Total-gets f = record { at = λ c. refl }

  pub Total-call : (f : Ports → ℕ → A) → Total (call f)
  unfolding call
  Total-call f = record { at = λ c. refl }

  pub Total-if : (b : Bool) (m n : Action E A) → Total m → Total n → Total (when b then m else n)
  unfolding when◌then◌else◌
  Total-if true m n tm tn = record { at = λ c. tm.at c }
  Total-if false m n tm tn = record { at = λ c. tn.at c }

  ended :
      {P R : Coordinator → Type 0} (r : Result A E) (c : Coordinator)
      → is_ok r ≡ true
      → P c
      → Post (λ _. P) R r c
  ended (ok a) c h p = returned p
  ended (err e) c h p = ground arith

  pub Total-Triple :
      (P R : Coordinator → Type 0) (m : Action E A) → Total m → Keeps P m → Triple P m (λ _. P) R
  Total-Triple P R m t k = record { at = λ c h. ended (m c).0 (m c).1 (t.at c) (k.at c h) }

module _ {E : Type 0} where
  pub Total-modify : (f : Coordinator → Coordinator) → Total (modify {E = E} f)
  unfolding modify
  Total-modify f = record { at = λ c. refl }

module _ {A E F : Type 0} where
  pub Total-ignore : (m : Action E A) → Total (ignore {F = F} m)
  unfolding ignore
  Total-ignore m = record { at = λ c. refl }

module _ {A B E : Type 0} where
  Total-continue :
      (r : Result A E) (c : Coordinator) (f : A → Action E B)
      → is_ok r ≡ true
      → ((a : A) → Total (f a))
      → is_ok (continue r f c).0 ≡ true
  Total-continue (ok a) c f h t = (t a).at c
  Total-continue (err e) c f h t = ground arith

  pub Total-bind :
      (m : Action E A) (f : A → Action E B) → Total m → ((a : A) → Total (f a)) → Total (m >>= f)
  unfolding ◌>>=◌
  Total-bind m f tm tf = record { at = λ c. Total-continue (m c).0 (m c).1 f (tm.at c) tf }

pub ruleset total_rules =
    (Total-pure, Total-gets, Total-call, Total-if, Total-modify, Total-ignore, Total-bind)
