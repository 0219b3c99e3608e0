-- ===== src/Domain/Thresholds.antt =====
-- crates/core/src/lib.rs: the warning thresholds before a deadline.
pub mod Coverage
use palka.Base.{
  ℕ, ◌≡◌, refl, Bool, true, false, ◌&&◌, not, List, [], ◌∷◌, arith, ltb, ◌==◌, if◌then◌else◌,
}
use palka.Base.Int.{ℤ, pos, leb_ℤ, ltb_ℤ}
use palka.Domain.{WarningThreshold, m60, m30, m20, m10, m3, ThresholdSet}

-- `WarningThreshold::ALL`
abbrev pub all : List WarningThreshold
all = m60 ∷ m30 ∷ m20 ∷ m10 ∷ m3 ∷ []

abbrev pub seconds : WarningThreshold → ℕ
seconds m60 = 3600
seconds m30 = 1800
seconds m20 = 1200
seconds m10 = 600
seconds m3 = 180

-- `HashSet::new`, `contains` and `insert`.
abbrev pub empty : ThresholdSet
empty = record {
  has_m60 = false;
  has_m30 = false;
  has_m20 = false;
  has_m10 = false;
  has_m3 = false;
}

abbrev pub contains : ThresholdSet → WarningThreshold → Bool
contains s m60 = s.has_m60
contains s m30 = s.has_m30
contains s m20 = s.has_m20
contains s m10 = s.has_m10
contains s m3 = s.has_m3

abbrev pub insert : ThresholdSet → WarningThreshold → ThresholdSet
insert s m60 = record s { has_m60 = true }
insert s m30 = record s { has_m30 = true }
insert s m20 = record s { has_m20 = true }
insert s m10 = record s { has_m10 = true }
insert s m3 = record s { has_m3 = true }

-- `for t in list { set.insert(t); }`
unfoldable pub insert_all : List WarningThreshold → ThresholdSet → ThresholdSet
insert_all [] s = s
insert_all (t ∷ ts) s = insert_all ts (insert s t)

-- The loops, over the thresholds left.
passed_at_creation : List WarningThreshold → ℕ → ThresholdSet → ThresholdSet
passed_at_creation [] duration passed = passed
passed_at_creation (t ∷ ts) duration passed =
    passed_at_creation ts duration (if ltb duration (seconds t) then insert passed t else passed)

unfoldable pub creation_passed_thresholds : ℕ → ThresholdSet
unfolding passed_at_creation
creation_passed_thresholds duration = passed_at_creation all duration empty

due_at_creation : List WarningThreshold → ℕ → List WarningThreshold
due_at_creation [] duration = []
due_at_creation (t ∷ ts) duration =
    let rest = due_at_creation ts duration in if duration == seconds t then t ∷ rest else rest

unfoldable pub creation_due_thresholds : ℕ → List WarningThreshold
unfolding due_at_creation
creation_due_thresholds duration = due_at_creation all duration

crossed_among : List WarningThreshold → ℤ → ℤ → ThresholdSet → List WarningThreshold
crossed_among [] previous current emitted = []
crossed_among (t ∷ ts) previous current emitted =
    let rest = crossed_among ts previous current emitted in
    if ltb_ℤ (pos (seconds t)) previous
      && leb_ℤ current (pos (seconds t))
      && not (contains emitted t)
    then t ∷ rest
    else rest

unfoldable pub crossed_warning_thresholds : ℤ → ℤ → ThresholdSet → List WarningThreshold
unfolding crossed_among
crossed_warning_thresholds previous current emitted =
    if leb_ℤ current (pos 0) then [] else crossed_among all previous current emitted

passed_among : List WarningThreshold → ℤ → ThresholdSet → List WarningThreshold
passed_among [] current emitted = []
passed_among (t ∷ ts) current emitted =
    let rest = passed_among ts current emitted in
    if leb_ℤ current (pos (seconds t)) && not (contains emitted t) then t ∷ rest else rest

unfoldable pub recovery_passed_thresholds : ℤ → ThresholdSet → List WarningThreshold
unfolding passed_among
recovery_passed_thresholds current emitted =
    if leb_ℤ current (pos 0) then [] else passed_among all current emitted

-- crossing_jump_over_m10_returns_m10
crossing_jump : crossed_warning_thresholds (pos 605) (pos 598) empty ≡ m10 ∷ []
unfolding crossed_warning_thresholds
crossing_jump = refl

creation_m30 : creation_due_thresholds 1800 ≡ m30 ∷ []
unfolding creation_due_thresholds
creation_m30 = refl
