-- ===== src/PinAuth/Lockout.antt =====
-- crates/service/src/pin_auth.rs: the lockout after failed attempts. Seconds are `u64`, so the
-- end of a lockout wraps at 2^64.
pub mod Locking
pub mod Guessing
use palka.Base.{
  ℕ, zero, suc, ◌+◌, ◌-◌, ◌%◌, ◌^◌, ◌≤◌, ◌<◌, ◌≡◌, refl, Bool, true, false, Option, none, some,
  List, [], ◌∷◌, arith, ltb, leb, if◌then◌else◌, ◌⊎◌, min, All,
}

abbrev pub failures_per_lockout : ℕ
failures_per_lockout = 3

-- `LOCKOUT_SCHEDULE_SECONDS` at an index, the last entry from there on.
abbrev pub lockout_schedule_seconds : ℕ → ℕ
lockout_schedule_seconds zero = 30
lockout_schedule_seconds (suc zero) = 60
lockout_schedule_seconds (suc (suc i)) = 300

-- `LOCKOUT_SCHEDULE_SECONDS.len() - 1`
abbrev pub last_level : ℕ
last_level = 2

pub data LockoutCheckResult : Type 0 where
  allowed : LockoutCheckResult
  locked : ℕ → LockoutCheckResult

pub data FailureResult : Type 0 where
  failed : ℕ → FailureResult
  lockout_triggered : ℕ → ℕ → FailureResult
  still_locked : ℕ → FailureResult

pub record PinLockoutState : Type 0 where
  pub consecutive_failures : ℕ  -- u32
  pub lockout_level : ℕ  -- usize
  pub lockout_until : Option ℕ  -- u64

abbrev pub new_lockout : PinLockoutState
new_lockout = record { consecutive_failures = 0; lockout_level = 0; lockout_until = none }

abbrev pub check_attempt : PinLockoutState → ℕ → LockoutCheckResult
check_attempt s now = elim s.lockout_until [
  | some until ↦ if ltb now until then locked (until - now) else allowed
  | none ↦ allowed
]

-- The part of `record_failure` past the test for an active lockout.
abbrev pub count_failure : PinLockoutState → ℕ → PinLockoutState × FailureResult
count_failure s now =
    let failures = suc s.consecutive_failures in
    let timeout = lockout_schedule_seconds (min s.lockout_level last_level) in
    if leb failures_per_lockout failures
    then (
      record {
        consecutive_failures = 0;
        lockout_level =
            if ltb s.lockout_level last_level then suc s.lockout_level else s.lockout_level;
        lockout_until = some ((now + timeout) % 2 ^ 64);
      },
      lockout_triggered timeout timeout,
    )
    else (
      record {
        consecutive_failures = failures;
        lockout_level = s.lockout_level;
        lockout_until = none;
      },
      failed (failures_per_lockout - failures),
    )

abbrev pub record_failure : PinLockoutState → ℕ → PinLockoutState × FailureResult
record_failure s now = elim s.lockout_until [
  | some until ↦ if ltb now until then (s, still_locked (until - now)) else count_failure s now
  | none ↦ count_failure s now
]

abbrev pub record_success : PinLockoutState → PinLockoutState
record_success s = record { consecutive_failures = 0; lockout_level = 0; lockout_until = none }
