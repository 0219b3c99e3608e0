-- ===== src/Runtime/Action/Triple.antt =====
-- What holds after an action, by how it ended.
use palka.Base.{◌≡◌, Result, ok, err, Bool, true, false, refl}
use palka.Runtime.State.{Coordinator}
use palka.Runtime.Action.{
  Action, pure, raise, gets, continue, when◌then◌else◌, ◌>>=◌, try, map_err, map_err_result,
}
use palka.Runtime.Action.Keeps.{Keeps}

module _ {A E : Type 0} where
  pub data Post (Q : A → Coordinator → Type 0) (R : Coordinator → Type 0)
      : Result A E → Coordinator → Type 0 where
    returned : {a : A} {c : Coordinator} → Q a c → Post Q R (ok a) c
    raised : {e : E} {c : Coordinator} → R c → Post Q R (err e) c

  -- From a state with `P` the action ends with `Q` of its value, or fails with `R`.
  pub record Triple (P : Coordinator → Type 0) (m : Action E A) (Q : A → Coordinator → Type 0)
      (R : Coordinator → Type 0) : Type 0 where
    pub at : (c : Coordinator) → P c → Post Q R (m c).0 (m c).1

module _ {A E : Type 0} where
  Post-both :
      (P : Coordinator → Type 0) (r : Result A E) (c : Coordinator) → P c → Post (λ _. P) P r c
  Post-both P (ok a) c h = returned h
  Post-both P (err e) c h = raised h

  pub Keeps-Triple : (P : Coordinator → Type 0) (m : Action E A) → Keeps P m → Triple P m (λ _. P) P
  Keeps-Triple P m km = record { at = λ c h. Post-both P (m c).0 (m c).1 (km.at c h) }

  pub from_Post :
      {P : Coordinator → Type 0} {r : Result A E} {c : Coordinator} → Post (λ _. P) P r c → P c
  from_Post (returned h) = h
  from_Post (raised h) = h

  pub Triple-Keeps : (P : Coordinator → Type 0) (m : Action E A) → Triple P m (λ _. P) P → Keeps P m
  Triple-Keeps P m t = record { at = λ c h. from_Post (t.at c h) }

module _ {A B E : Type 0} where
  Post-continue :
      {R : Coordinator → Type 0} {Q : A → Coordinator → Type 0} {S : B → Coordinator → Type 0}
      {r : Result A E} {c : Coordinator} (f : A → Action E B)
      → ((a : A) → Triple (Q a) (f a) S R)
      → Post Q R r c
      → Post S R (continue r f c).0 (continue r f c).1
  Post-continue f tf (returned {a} {c} h) = (tf a).at c h
  Post-continue f tf (raised h) = raised h

  pub Triple-bind :
      (P R : Coordinator → Type 0) (Q : A → Coordinator → Type 0) (S : B → Coordinator → Type 0)
      (m : Action E A) (f : A → Action E B)
      → Triple P m Q R
      → ((a : A) → Triple (Q a) (f a) S R)
      → Triple P (m >>= f) S R
  unfolding ◌>>=◌
  Triple-bind P R Q S m f tm tf = record { at = λ c h. Post-continue f tf (tm.at c h) }

  -- The continuation keeps `P` because of what held when a value was read.
  pub Keeps-read :
      (P : Coordinator → Type 0) (f : Coordinator → A) (k : A → Action E B)
      → ((c : Coordinator) → P c → Keeps P (k (f c)))
      → Keeps P (gets f >>= k)
  unfolding ◌>>=◌
  Keeps-read P f k kk = record { at = λ c h. (kk c h).at c h }

  -- The continuation starts with more than `P`.
  pub Keeps-after :
      (P : Coordinator → Type 0) (Q : A → Coordinator → Type 0) (m : Action E A)
      (f : A → Action E B)
      → Triple P m Q P
      → ((a : A) → Triple (Q a) (f a) (λ _. P) P)
      → Keeps P (m >>= f)
  Keeps-after P Q m f tm tf = Triple-Keeps P (m >>= f) (Triple-bind P P Q (λ _. P) m f tm tf)

module _ {A E F : Type 0} where
  Post-map_err :
      {R : Coordinator → Type 0} {Q : A → Coordinator → Type 0} {r : Result A E} {c : Coordinator}
      (f : E → F)
      → Post Q R r c
      → Post Q R (map_err_result f r) c
  Post-map_err f (returned h) = returned h
  Post-map_err f (raised h) = raised h

  pub Triple-map_err :
      (P R : Coordinator → Type 0) (Q : A → Coordinator → Type 0) (f : E → F) (m : Action E A)
      → Triple P m Q R
      → Triple P (map_err f m) Q R
  unfolding map_err
  Triple-map_err P R Q f m t = record { at = λ c h. Post-map_err f (t.at c h) }

module _ {A B E F : Type 0} where
  told :
      {R : Coordinator → Type 0} {Q : A → Coordinator → Type 0} {r : Result A E} {c : Coordinator}
      (P : Coordinator → Type 0) (f : Result A E → Action F B)
      → ((a : A) (d : Coordinator) → Q a d → P (f (ok a) d).1)
      → ((e : E) (d : Coordinator) → R d → P (f (err e) d).1)
      → Post Q R r c
      → P (f r c).1
  told P f kok kerr (returned {a} {c} h) = kok a c h
  told P f kok kerr (raised {e} {c} h) = kerr e c h

  -- The result is handed over as a value, and tells how the action ended.
  pub Keeps-try_then :
      (P : Coordinator → Type 0) (Q : A → Coordinator → Type 0) (R : Coordinator → Type 0)
      (m : Action E A) (f : Result A E → Action F B)
      → Triple P m Q R
      → ((a : A) (d : Coordinator) → Q a d → P (f (ok a) d).1)
      → ((e : E) (d : Coordinator) → R d → P (f (err e) d).1)
      → Keeps P (try m >>= f)
  unfolding ◌>>=◌ try
  Keeps-try_then P Q R m f tm kok kerr = record { at = λ c h. told P f kok kerr (tm.at c h) }

module _ {A E : Type 0} where
  -- More may be known at the start, and less may be kept at the end.
  pub Keeps-weaken :
      (P Q : Coordinator → Type 0) (m : Action E A)
      → ((c : Coordinator) → Q c → P c)
      → Keeps Q m
      → Triple Q m (λ _. P) P
  Keeps-weaken P Q m w k = record { at = λ c h. Post-both P (m c).0 (m c).1 (w (m c).1 (k.at c h)) }

  pub Triple-gets :
      (P R : Coordinator → Type 0) (Q : A → Coordinator → Type 0) (f : Coordinator → A)
      → ((c : Coordinator) → P c → Q (f c) c)
      → Triple P (gets {E = E} f) Q R
  unfolding gets
  Triple-gets P R Q f h = record { at = λ c p. returned (h c p) }

  -- What is kept gives both ends.
  pub Keeps-ends :
      (Q S R : Coordinator → Type 0) (m : Action E A)
      → ((c : Coordinator) → Q c → S c)
      → ((c : Coordinator) → Q c → R c)
      → Keeps Q m
      → Triple Q m (λ _. S) R
  Keeps-ends Q S R m s r k = record { at = λ c h. ends (m c).0 (m c).1 (k.at c h) }
    where
      ends : (x : Result A E) (d : Coordinator) → Q d → Post (λ _. S) R x d
      ends (ok a) d q = returned (s d q)
      ends (err e) d q = raised (r d q)

  pub Triple-raise :
      (P : Coordinator → Type 0) (Q : A → Coordinator → Type 0) (e : E) → Triple P (raise e) Q P
  unfolding raise
  Triple-raise P Q e = record { at = λ c h. raised h }

  mono :
      {P' P : A → Coordinator → Type 0} {R : Coordinator → Type 0} {r : Result A E}
      {c : Coordinator}
      → ((a : A) (d : Coordinator) → P' a d → P a d)
      → Post P' R r c
      → Post P R r c
  mono w (returned {a} {c} h) = returned (w a c h)
  mono w (raised h) = raised h

  pub Triple-ends :
      (P R : Coordinator → Type 0) (Q S : A → Coordinator → Type 0) (m : Action E A)
      → ((a : A) (c : Coordinator) → Q a c → S a c)
      → Triple P m Q R
      → Triple P m S R
  Triple-ends P R Q S m w t = record { at = λ c h. mono w (t.at c h) }

  -- What is kept is known at the start, and gives both ends.
  pub Keeps-between :
      (P Q S : Coordinator → Type 0) (m : Action E A)
      → ((c : Coordinator) → P c → Q c)
      → ((c : Coordinator) → Q c → S c)
      → Keeps Q m
      → Triple P m (λ _. S) S
  Keeps-between P Q S m p s k = record {
    at = λ c h. Post-both S (m c).0 (m c).1 (s (m c).1 (k.at c (p c h)));
  }

  pub Triple-if :
      (P R : Coordinator → Type 0) (Q : A → Coordinator → Type 0) (b : Bool) (m n : Action E A)
      → Triple P m Q R
      → Triple P n Q R
      → Triple P (when b then m else n) Q R
  unfolding when◌then◌else◌
  Triple-if P R Q true m n tm tn = record { at = λ c h. tm.at c h }
  Triple-if P R Q false m n tm tn = record { at = λ c h. tn.at c h }

module _ {A B E : Type 0} where
  -- The value that is read is known at the start of the continuation.
  pub Triple-read :
      (P R : Coordinator → Type 0) (S : B → Coordinator → Type 0) (f : Coordinator → A)
      (k : A → Action E B)
      → ((c : Coordinator) → P c → Triple P (k (f c)) S R)
      → Triple P (gets f >>= k) S R
  unfolding ◌>>=◌
  Triple-read P R S f k t = record { at = λ c h. (t c h).at c h }

module _ {A E : Type 0} where
  pub Triple-pure :
      (P R : Coordinator → Type 0) (Q : A → Coordinator → Type 0) (a : A)
      → ((c : Coordinator) → P c → Q a c)
      → Triple P (pure {E = E} a) Q R
  unfolding pure
  Triple-pure P R Q a h = record { at = λ c p. returned (h c p) }

  pub Triple-pre :
      (P' P R : Coordinator → Type 0) (Q : A → Coordinator → Type 0) (m : Action E A)
      → ((c : Coordinator) → P' c → P c)
      → Triple P m Q R
      → Triple P' m Q R
  Triple-pre P' P R Q m w t = record { at = λ c h. t.at c (w c h) }

  -- With the outcome of the test known in the branches.
  pub Triple-cases :
      (P R : Coordinator → Type 0) (Q : A → Coordinator → Type 0) (b : Bool) (m n : Action E A)
      → (b ≡ true → Triple P m Q R)
      → (b ≡ false → Triple P n Q R)
      → Triple P (when b then m else n) Q R
  unfolding when◌then◌else◌
  Triple-cases P R Q true m n tm tn = record { at = λ c h. (tm refl).at c h }
  Triple-cases P R Q false m n tm tn = record { at = λ c h. (tn refl).at c h }

  weaken :
      {R R' : Coordinator → Type 0} {Q : A → Coordinator → Type 0} {r : Result A E}
      {c : Coordinator}
      → ((d : Coordinator) → R d → R' d)
      → Post Q R r c
      → Post Q R' r c
  weaken w (returned h) = returned h
  weaken w (raised {e} {c} h) = raised (w c h)

  pub Triple-fails :
      (P R R' : Coordinator → Type 0) (Q : A → Coordinator → Type 0) (m : Action E A)
      → ((c : Coordinator) → R c → R' c)
      → Triple P m Q R
      → Triple P m Q R'
  Triple-fails P R R' Q m w t = record { at = λ c h. weaken w (t.at c h) }
