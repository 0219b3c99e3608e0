-- ===== src/Runtime/Action/Calls.antt =====
-- Calls of the ports from a known state: their answers are known too.
use palka.Base.{ℕ, suc, ◌≡◌, ap}
use palka.Runtime.State.{Coordinator, Ports}
use palka.Runtime.Action.{Action, call}
use palka.Runtime.Action.Triple.{Triple, returned}

module _ {A E : Type 0} where
  -- A fact that does not depend on the state is known in the whole action.
  pub Triple-given :
      (F : Type 0) (P R : Coordinator → Type 0) (Q : A → Coordinator → Type 0) (m : Action E A)
      → (F → Triple P m Q R)
      → Triple (λ c. F × P c) m Q R
  Triple-given F P R Q m t = record { at = λ c h. (t h.0).at c h.1 }

  pub Triple-call :
      (c : Coordinator) (R : Coordinator → Type 0) (f : Ports → ℕ → A)
      → Triple
          (λ d. d ≡ c)
          (call {E = E} f)
          (λ a d. (a ≡ f c.ports c.calls) × (d ≡ record c { calls = suc c.calls }))
          R
  unfolding call
  Triple-call c R f = record {
    at = λ d h. returned (
      ap (λ (b : Coordinator). f b.ports b.calls) h,
      ap (λ (b : Coordinator). record b { calls = suc b.calls }) h,
    );
  }
