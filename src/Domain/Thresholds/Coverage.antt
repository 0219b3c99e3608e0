-- ===== src/Domain/Thresholds/Coverage.antt =====
-- crates/core/src/lib.rs: together the threshold functions treat each threshold exactly once.
use palka.Base.{
  ℕ, ◌<◌, ◌≡◌, refl, Bool, true, false, ◌&&◌, ◌||◌, not, List, [], ◌∷◌, arith, ltb, leb, ◌==◌,
}
use palka.Base.Int.{ℤ, pos, leb_ℤ, ltb_ℤ, ◌≤ℤ◌, ◌<ℤ◌}
use palka.Domain.{WarningThreshold, m60, m30, m20, m10, m3, ThresholdSet}
use palka.Domain.Thresholds.{
  seconds, contains, insert, insert_all, creation_passed_thresholds, creation_due_thresholds,
  crossed_warning_thresholds, recovery_passed_thresholds,
}

abbrev pub threshold_eq : WarningThreshold → WarningThreshold → Bool
threshold_eq m60 m60 = true
threshold_eq m30 m30 = true
threshold_eq m20 m20 = true
threshold_eq m10 m10 = true
threshold_eq m3 m3 = true
threshold_eq _ _ = false

abbrev pub occurs : WarningThreshold → List WarningThreshold → Bool
occurs t [] = false
occurs t (u ∷ us) = threshold_eq t u || occurs t us

module _ (previous current : ℤ) (emitted : ThresholdSet) where
  pub occurs-crossed :
      (t : WarningThreshold)
      → occurs t (crossed_warning_thresholds previous current emitted) ≡ (
          not (leb_ℤ current (pos 0))
          && ltb_ℤ (pos (seconds t)) previous
          && leb_ℤ current (pos (seconds t))
          && not (contains emitted t))
  unfolding crossed_warning_thresholds
  occurs-crossed m60 = ground arith
  occurs-crossed m30 = ground arith
  occurs-crossed m20 = ground arith
  occurs-crossed m10 = ground arith
  occurs-crossed m3 = ground arith

module _ (current : ℤ) (emitted : ThresholdSet) where
  pub occurs-recovery_passed :
      (t : WarningThreshold)
      → occurs t (recovery_passed_thresholds current emitted) ≡ (
          not (leb_ℤ current (pos 0))
          && leb_ℤ current (pos (seconds t))
          && not (contains emitted t))
  unfolding recovery_passed_thresholds
  occurs-recovery_passed m60 = ground arith
  occurs-recovery_passed m30 = ground arith
  occurs-recovery_passed m20 = ground arith
  occurs-recovery_passed m10 = ground arith
  occurs-recovery_passed m3 = ground arith

pub contains-insert :
    (s : ThresholdSet) (t u : WarningThreshold)
    → contains (insert s u) t ≡ (threshold_eq t u || contains s t)
contains-insert s m60 m60 = refl
contains-insert s m30 m30 = refl
contains-insert s m20 m20 = refl
contains-insert s m10 m10 = refl
contains-insert s m3 m3 = refl
contains-insert s _ _ = refl

pub contains-insert_all :
    (ts : List WarningThreshold) (s : ThresholdSet) (t : WarningThreshold)
    → contains (insert_all ts s) t ≡ (occurs t ts || contains s t)
unfolding insert_all
contains-insert_all [] s t = refl
contains-insert_all (u ∷ us) s t =
    ground (arith, contains-insert_all us (insert s u) t, contains-insert s t u)

contains-creation_passed :
    (duration : ℕ) (t : WarningThreshold)
    → contains (creation_passed_thresholds duration) t ≡ ltb duration (seconds t)
unfolding creation_passed_thresholds
contains-creation_passed d m60 = ground arith
contains-creation_passed d m30 = ground arith
contains-creation_passed d m20 = ground arith
contains-creation_passed d m10 = ground arith
contains-creation_passed d m3 = ground arith

pub occurs-creation_due :
    (duration : ℕ) (t : WarningThreshold)
    → occurs t (creation_due_thresholds duration) ≡ (duration == seconds t)
unfolding creation_due_thresholds
occurs-creation_due d m60 = ground arith
occurs-creation_due d m30 = ground arith
occurs-creation_due d m20 = ground arith
occurs-creation_due d m10 = ground arith
occurs-creation_due d m3 = ground arith

-- The set that `handle_schedule_action` stores with a new action.
abbrev pub emitted_at_creation : ℕ → ThresholdSet
emitted_at_creation d = insert_all (creation_due_thresholds d) (creation_passed_thresholds d)

pub contains-emitted_at_creation :
    (duration : ℕ) (t : WarningThreshold)
    → contains (emitted_at_creation duration) t ≡ leb duration (seconds t)
contains-emitted_at_creation duration t = ground (
  arith,
  contains-insert_all (creation_due_thresholds duration) (creation_passed_thresholds duration) t,
  contains-creation_passed duration t,
  occurs-creation_due duration t,
)

module _ (duration current : ℕ) (running : 0 < current) (t : WarningThreshold) where
  -- At creation exactly the thresholds at or above the duration are marked, and while the timer
  -- runs down from `duration` to a positive `current` exactly those below the duration and at or
  -- above `current` are crossed.
  pub creation_then_crossing :
      (contains (emitted_at_creation duration) t ≡ leb duration (seconds t))
      × (occurs t
            (crossed_warning_thresholds (pos duration) (pos current) (emitted_at_creation duration))
          ≡ (ltb (seconds t) duration && leb current (seconds t)))
  creation_then_crossing = (
    contains-emitted_at_creation duration t,
    ground (
      arith,
      contains-emitted_at_creation duration t,
      occurs-crossed (pos duration) (pos current) (emitted_at_creation duration) t,
    ),
  )

module _ (previous middle current : ℤ) (emitted : ThresholdSet) where
  -- The clock may be read at any moments in between: two evaluations, the second with what the
  -- first emitted marked, return together the thresholds of one evaluation, and none twice.
  pub crossed_split :
      (t : WarningThreshold)
      → current ≤ℤ middle
      → middle ≤ℤ previous
      → pos 0 <ℤ current
      → let first = crossed_warning_thresholds previous middle emitted in
        let second = crossed_warning_thresholds middle current (insert_all first emitted) in
        (occurs t (crossed_warning_thresholds previous current emitted)
          ≡ (occurs t first || occurs t second))
        × ((occurs t first && occurs t second) ≡ false)
  crossed_split t h k p = ground (
    arith,
    occurs-crossed previous middle emitted t,
    occurs-crossed previous current emitted t,
    occurs-crossed middle current
        (insert_all (crossed_warning_thresholds previous middle emitted) emitted) t,
    contains-insert_all (crossed_warning_thresholds previous middle emitted) emitted t,
  )

module _ (current later : ℤ) (emitted : ThresholdSet) (t : WarningThreshold) where
  -- A timer recovered before its deadline has every threshold at or above the remaining time
  -- marked, beside those already marked; what it crosses afterwards, at a positive remaining time,
  -- are exactly the thresholds below the remaining time at the recovery, reached since, that were
  -- not marked before.
  pub recovery_then_crossing :
      pos 0 <ℤ current
      → pos 0 <ℤ later
      → let marked = insert_all (recovery_passed_thresholds current emitted) emitted in
        (contains marked t ≡ (contains emitted t || leb_ℤ current (pos (seconds t))))
        × (occurs t (crossed_warning_thresholds current later marked) ≡ (
            ltb_ℤ (pos (seconds t)) current
            && leb_ℤ later (pos (seconds t))
            && not (contains emitted t)))
  recovery_then_crossing p q = (
    ground (
      arith,
      contains-insert_all (recovery_passed_thresholds current emitted) emitted t,
      occurs-recovery_passed current emitted t,
    ),
    ground (
      arith,
      contains-insert_all (recovery_passed_thresholds current emitted) emitted t,
      occurs-recovery_passed current emitted t,
      occurs-crossed current later (insert_all (recovery_passed_thresholds current emitted) emitted)
          t,
    ),
  )
