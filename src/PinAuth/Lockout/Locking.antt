-- ===== src/PinAuth/Lockout/Locking.antt =====
-- crates/service/src/pin_auth.rs: the lockout's state, and when it locks.
use palka.Base.{ℕ, ◌+◌, ◌-◌, ◌^◌, ◌≤◌, ◌<◌, ◌≡◌, ◌↔◌, List, [], ◌∷◌, arith, ltb, if◌then◌else◌}
use palka.PinAuth.Lockout.{
  PinLockoutState, lockout_triggered, still_locked, allowed, locked, check_attempt, record_failure,
  record_success, new_lockout,
}

-- Failures stay below the three that lock, and the level within the schedule.
abbrev pub IsValid : PinLockoutState → Type 0
IsValid s = (s.consecutive_failures < 3) × (s.lockout_level ≤ 2)

-- A refused login at a time, or a successful one.
pub data Attempt : Type 0 where
  fails : ℕ → Attempt
  succeeds : Attempt

pub after : PinLockoutState → List Attempt → PinLockoutState
after s [] = s
after s (fails now ∷ rest) = after (record_failure s now).0 rest
after s (succeeds ∷ rest) = after (record_success s) rest

record_failure-IsValid :
    (s : PinLockoutState) (now : ℕ) → IsValid s → IsValid (record_failure s now).0
record_failure-IsValid s now h = ground arith

after-IsValid_from :
    (s : PinLockoutState) (attempts : List Attempt) → IsValid s → IsValid (after s attempts)
unfolding after
after-IsValid_from s [] h = h
after-IsValid_from s (fails now ∷ rest) h =
    after-IsValid_from (record_failure s now).0 rest (record_failure-IsValid s now h)
after-IsValid_from s (succeeds ∷ rest) h =
    after-IsValid_from (record_success s) rest (omega arith, omega arith)

-- Whatever the logins, fewer than three failures are counted and the level stays in the
-- schedule.
pub after-IsValid : (attempts : List Attempt) → IsValid (after new_lockout attempts)
after-IsValid attempts = after-IsValid_from new_lockout attempts (omega arith, omega arith)

-- A failure is turned away, with the state kept, exactly when `check_attempt` says locked.
record_failure-still_locked_iff :
    (s : PinLockoutState) (now r : ℕ)
    → (check_attempt s now ≡ locked r) ↔ (record_failure s now ≡ (s, still_locked r))
record_failure-still_locked_iff s now r = ground arith

-- A failure that triggers a lockout of w seconds locks every attempt of the next w seconds, and
-- no later one, while the clock is far from 2^64.
pub lockout_triggered-locks :
    (s t : PinLockoutState) (now w r later : ℕ)
    → record_failure s now ≡ (t, lockout_triggered w r)
    → now + 300 < 2 ^ 64
    → check_attempt t later ≡ (if ltb later (now + w) then locked (now + w - later) else allowed)
lockout_triggered-locks s t now w r later h small = ground arith
