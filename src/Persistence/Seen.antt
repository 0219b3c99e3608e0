-- ===== src/Persistence/Seen.antt =====
-- crates/service/src/persistence.rs: the loop that converts a list and refuses an identifier that
-- it has already seen. Each conversion runs it twice, over the actions and over the outbox.
use palka.Base.{
  ◌≡◌, ◌≢◌, ◌↔◌, refl, sym, ap, ◌∙◌, subst, Bool, true, false, List, [], ◌∷◌, Result, ok, All, any,
  arith,
}
use palka.Base.Results.{◌>>=◌, ◌>>◌, refuse_if}

-- `key` reads the identifier, `seen` is the `HashSet`, `body` converts the rest.
module _ {A B K E : Type 0} (same : K → K → Bool) (dup : K → E) (key : A → Result K E)
    (body : K → A → Result B E) where
  unfoldable pub collect : List K → List A → Result (List B) E
  collect seen [] = ok []
  collect seen (a ∷ l) = do
    k ← key a
    refuse_if (any (same k) seen) (dup k)
    b ← body k a
    rest ← collect (k ∷ seen) l
    ok (b ∷ rest)

-- Identifiers are pairwise different.
abbrev pub AreDistinct : {A K : Type 0} → (A → K) → List A → Type 0
AreDistinct id [] = Unit
AreDistinct id (a ∷ l) = All (λ b. id a ≢ id b) l × AreDistinct id l

module _ {A B K E : Type 0} (same : K → K → Bool) (dup : K → E) (key : A → Result K E)
    (body : K → A → Result B E) where
  pub collect-eq-ok :
      (seen : List K) (a : A) (l : List A) (bs : List B)
      → collect same dup key body seen (a ∷ l) ≡ ok bs
      → (k : K) × (b : B) × (rest : List B) × (key a ≡ ok k)
        × (any (same k) seen ≡ false)
        × (body k a ≡ ok b)
        × (collect same dup key body (k ∷ seen) l ≡ ok rest)
        × (bs ≡ b ∷ rest)
  unfolding collect
  collect-eq-ok seen a l bs h = ground arith

  collect-cons :
      (seen : List K) (a : A) (l : List A) (k : K) (b : B) (rest : List B)
      → key a ≡ ok k
      → any (same k) seen ≡ false
      → body k a ≡ ok b
      → collect same dup key body (k ∷ seen) l ≡ ok rest
      → collect same dup key body seen (a ∷ l) ≡ ok (b ∷ rest)
  unfolding collect
  collect-cons seen a l k b rest hk fresh hb hr = ground arith

-- The loop that reads the identifier from a field.
module _ {A B K E : Type 0} (same : K → K → Bool) (dup : K → E) (id : A → K)
    (body : K → A → Result B E) where
  pub collect_field-eq-ok :
      (seen : List K) (a : A) (l : List A) (bs : List B)
      → collect same dup (λ x. ok (id x)) body seen (a ∷ l) ≡ ok bs
      → (b : B) × (rest : List B) × (any (same (id a)) seen ≡ false)
        × (body (id a) a ≡ ok b)
        × (collect same dup (λ x. ok (id x)) body (id a ∷ seen) l ≡ ok rest)
        × (bs ≡ b ∷ rest)
  unfolding collect
  collect_field-eq-ok seen a l bs h = ground arith

-- The loop undoes itself when its parts do.
module _ {A B K E : Type 0} (same : K → K → Bool) (dup : K → E) (id : A → K)
    (enc : K → A → Result B E) (key : B → Result K E) (dec : K → B → Result A E) (P : A → Type 0)
    (inverse : (a : A) (b : B)
      → P a
      → enc (id a) a ≡ ok b
      → (key b ≡ ok (id a)) × (dec (id a) b ≡ ok a)) where
  pub collect-collect :
      (seen : List K) (l : List A) (bs : List B)
      → All P l
      → collect same dup (λ a. ok (id a)) enc seen l ≡ ok bs
      → collect same dup key dec seen bs ≡ ok l
  unfolding collect
  collect-collect seen [] bs p h = ground arith
  collect-collect seen (a ∷ l) bs p h =
      let (b, rest, fresh, hb, hr, e) = collect_field-eq-ok same dup id enc seen a l bs h in
      let (hk, hd) = inverse a b p.0 hb in
      let ih = collect-collect (id a ∷ seen) l rest p.1 hr in
      ap (collect same dup key dec seen) e
      ∙ collect-cons same dup key dec seen b rest (id a) a l hk fresh hd ih

-- With a test that decides equality, no identifier among those seen, and the rest distinct.
module _ {A K : Type 0} (same : K → K → Bool) (id : A → K)
    (same_iff : (x y : K) → (same x y ≡ true) ↔ (x ≡ y)) where
  abbrev pub AreUnseen : List K → List A → Type 0
  AreUnseen seen = All (λ a. any (same (id a)) seen ≡ false)

  pub AreUnseen-cons_iff :
      (k : K) (seen : List K) (l : List A)
      → AreUnseen (k ∷ seen) l ↔ (AreUnseen seen l × All (λ b. k ≢ id b) l)
  unfolding any
  AreUnseen-cons_iff k seen [] = (λ _. (tt, tt), λ _. tt)
  AreUnseen-cons_iff k seen (a ∷ l) = ground (arith, same_iff (id a) k, AreUnseen-cons_iff k seen l)

  pub AreUnseen-nil : (l : List A) → AreUnseen [] l
  unfolding any
  AreUnseen-nil [] = tt
  AreUnseen-nil (a ∷ l) = (refl, AreUnseen-nil l)

  module _ {B E : Type 0} (dup : K → E) (key : B → Result K E) (body : K → B → Result A E)
      (Q : A → Type 0)
      (made : (b : B) (k : K) (a : A) → key b ≡ ok k → body k b ≡ ok a → (id a ≡ k) × Q a) where
    collect-AreUnseen :
        (seen : List K) (bs : List B) (l : List A)
        → collect same dup key body seen bs ≡ ok l
        → AreUnseen seen l × AreDistinct id l × All Q l
    unfolding collect
    collect-AreUnseen seen [] l h =
        let e : [] ≡ l = ground arith in
        subst (λ m. AreUnseen seen m × AreDistinct id m × All Q m) e (tt, tt, tt)
    collect-AreUnseen seen (b ∷ bs) l h =
        let (k, a, rest, hk, fresh, ha, hr, e) = collect-eq-ok same dup key body seen b bs l h in
        let (idk, q) = made b k a hk ha in
        let (unseen, distinct, all) = collect-AreUnseen (k ∷ seen) bs rest hr in
        let (u, d) = (AreUnseen-cons_iff k seen rest).0 unseen in
        let fresh_a = subst (λ x. any (same x) seen ≡ false) (sym idk) fresh in
        let d_a = subst (λ x. All (λ y. x ≢ id y) rest) (sym idk) d in
        subst (λ m. AreUnseen seen m × AreDistinct id m × All Q m) (sym e)
          ((fresh_a, u), (d_a, distinct), (q, all))

    -- What the loop returns has distinct identifiers, and what holds of each conversion.
    pub collect-AreDistinct :
        (bs : List B) (l : List A)
        → collect same dup key body [] bs ≡ ok l
        → AreDistinct id l × All Q l
    collect-AreDistinct bs l h =
        let (u, distinct, all) = collect-AreUnseen [] bs l h in (distinct, all)

  module _ {B E : Type 0} (dup : K → E) (body : K → A → Result B E) where
    abbrev pub Converts : A → Type 0
    Converts a = (b : B) × (body (id a) a ≡ ok b)

    field-AreUnseen :
        (seen : List K) (l : List A) (bs : List B)
        → collect same dup (λ a. ok (id a)) body seen l ≡ ok bs
        → AreUnseen seen l × AreDistinct id l × All Converts l
    field-AreUnseen seen [] bs h = (tt, tt, tt)
    field-AreUnseen seen (a ∷ l) bs h =
        let (b, rest, fresh, hb, hr, e) = collect_field-eq-ok same dup id body seen a l bs h in
        let (unseen, distinct, all) = field-AreUnseen (id a ∷ seen) l rest hr in
        let (u, d) = (AreUnseen-cons_iff (id a) seen l).0 unseen in
        ((fresh, u), (d, distinct), ((b, hb), all))

    field-succeeds :
        (seen : List K) (l : List A)
        → AreUnseen seen l
        → AreDistinct id l
        → All Converts l
        → (bs : List B) × (collect same dup (λ a. ok (id a)) body seen l ≡ ok bs)
    unfolding collect
    field-succeeds seen [] u d c = ([], refl)
    field-succeeds seen (a ∷ l) u d c =
        let unseen = (AreUnseen-cons_iff (id a) seen l).1 (u.1, d.0) in
        let (bs, h) = field-succeeds (id a ∷ seen) l unseen d.1 c.1 in
        (
          c.0.0 ∷ bs,
          collect-cons same dup (λ x. ok (id x)) body seen a l (id a) c.0.0 bs refl u.0 c.0.1 h,
        )

    -- The loop succeeds exactly on distinct identifiers whose conversions all succeed.
    pub collect-eq-ok_iff :
        (l : List A)
        → ((bs : List B) × (collect same dup (λ a. ok (id a)) body [] l ≡ ok bs))
          ↔ (AreDistinct id l × All Converts l)
    collect-eq-ok_iff l = (
      λ (bs, h). let (u, distinct, all) = field-AreUnseen [] l bs h in (distinct, all),
      λ (d, c). field-succeeds [] l (AreUnseen-nil l) d c,
    )
