-- ===== src/PinAuth/Lockout/Guessing.antt =====
-- crates/service/src/pin_auth.rs: how slow guessing is under the lockout.
use palka.Base.{
  ℕ, zero, suc, ◌+◌, ◌-◌, ◌*◌, ◌/◌, ◌^◌, ◌≤◌, ◌<◌, ◌≡◌, refl, sym, ap, subst, none, some, List, [],
  ◌∷◌, arith, ltb, ◌⊎◌, inl, inr, min, Option-cases, Bool-cases,
}
use native.Mathlib.Numerals.{unary_clauses}
use palka.PinAuth.Lockout.Locking.{IsValid}
use palka.PinAuth.Lockout.{
  PinLockoutState, FailureResult, lockout_triggered, still_locked, record_failure, new_lockout,
  lockout_schedule_seconds, count_failure,
}

-- How many of the failures at the given times were evaluated, not turned away.
counted : FailureResult → ℕ
counted (still_locked r) = 0
counted _ = 1

unfoldable pub evaluated : PinLockoutState → List ℕ → ℕ
unfolding counted
evaluated s [] = 0
evaluated s (now ∷ rest) = let r = record_failure s now in counted r.1 + evaluated r.0 rest

-- The times climb from one time to another.
unfoldable pub Climbs : ℕ → List ℕ → ℕ → Type 0
Climbs from [] to = from ≤ to
Climbs from (now ∷ rest) to = (from ≤ now) × Climbs now rest to

-- The seconds that the first lockouts take together.
pub waiting : ℕ → ℕ
waiting zero = 0
waiting (suc k) = waiting k + lockout_schedule_seconds (min k 2)

-- After so many lockouts since `start`, the next failure counts no earlier than the pauses allow.
Paced : PinLockoutState → ℕ → ℕ → ℕ → Type 0
Paced s start lockouts now = elim s.lockout_until [
  | some until ↦ start + waiting lockouts ≤ until
  | none ↦ start + waiting lockouts ≤ now
]

Guesser : PinLockoutState → ℕ → ℕ → ℕ → Type 0
Guesser s start lockouts now =
    IsValid s × (s.lockout_level ≡ min lockouts 2) × Paced s start lockouts now

-- The lockouts that a failure starts.
locks : FailureResult → ℕ
locks (lockout_triggered w r) = 1
locks _ = 0

waiting_zero : waiting 0 ≡ 0
unfolding waiting
waiting_zero = refl

waiting-suc : (k : ℕ) → waiting (k + 1) ≡ waiting k + lockout_schedule_seconds (min k 2)
unfolding waiting
waiting-suc k = simp unary_clauses refl

schedule-cases :
    (l : ℕ)
    → l ≤ 2
    → ((l ≡ 0) × (lockout_schedule_seconds l ≡ 30))
      ⊎ ((l ≡ 1) × (lockout_schedule_seconds l ≡ 60))
      ⊎ ((l ≡ 2) × (lockout_schedule_seconds l ≡ 300))
schedule-cases l h = ground arith

step-turned_away :
    (s : PinLockoutState) (start lockouts from now u : ℕ)
    → Guesser s start lockouts from
    → s.lockout_until ≡ some u
    → now < u
    → (record_failure s now ≡ (s, still_locked (u - now))) × Guesser s start lockouts now
unfolding Paced Guesser
step-turned_away s start lockouts from now u g h lt = ground arith

step-evaluated :
    (s : PinLockoutState) (start lockouts from now : ℕ)
    → Guesser s start lockouts from
    → start + waiting lockouts ≤ now
    → now + 300 < 2 ^ 64
    → record_failure s now ≡ count_failure s now
    → (counted (record_failure s now).1 ≡ 1)
      × (3 * (lockouts + locks (record_failure s now).1)
            + (record_failure s now).0.consecutive_failures
          ≡ 3 * lockouts + s.consecutive_failures + 1)
      × Guesser (record_failure s now).0 start (lockouts + locks (record_failure s now).1) now
unfolding counted Paced Guesser locks
step-evaluated s start lockouts from now g le small h =
    ground (arith, waiting-suc lockouts, schedule-cases (min lockouts 2))

attempt-cases :
    (s : PinLockoutState) (start lockouts from now : ℕ)
    → Guesser s start lockouts from
    → from ≤ now
    → ((u : ℕ) × (s.lockout_until ≡ some u) × (now < u))
      ⊎ ((record_failure s now ≡ count_failure s now) × (start + waiting lockouts ≤ now))
unfolding Guesser Paced
attempt-cases s start lockouts from now g le = elim (Option-cases s.lockout_until) [
  | inl h ↦ inr (ground arith)
  | inr (u, h) ↦ elim (Bool-cases (ltb now u)) [
    | inl lt ↦ inl (u, h, ground arith)
    | inr ge ↦ inr (ground arith)
  ]
]

Climbs-le : (from to : ℕ) (times : List ℕ) → Climbs from times to → from ≤ to
unfolding Climbs
Climbs-le from to [] c = c
Climbs-le from to (now ∷ rest) c = omega (arith, Climbs-le now to rest c.1)

evaluated-turned_away :
    (s : PinLockoutState) (now r : ℕ) (rest : List ℕ)
    → record_failure s now ≡ (s, still_locked r)
    → evaluated s (now ∷ rest) ≡ evaluated s rest
unfolding evaluated counted
evaluated-turned_away s now r rest h =
    let a = ap (λ (x : PinLockoutState × FailureResult). counted x.1) h in
    let b = ap (λ (x : PinLockoutState × FailureResult). evaluated x.0 rest) h in
    omega (arith, a, b)

-- The last of so many failures, counted after `base` earlier ones, has waited for its turn.
abbrev Waits : ℕ → ℕ → ℕ → ℕ → Type 0
Waits start base n to = (n ≡ 0) ⊎ (start + waiting ((base + n - 1) / 3) ≤ to)

-- One more counted failure, in the terms of the bound.
bound-suc :
    (lockouts f lockouts2 f2 rest start now to : ℕ)
    → 3 * lockouts2 + f2 ≡ 3 * lockouts + f + 1
    → f < 3
    → start + waiting lockouts ≤ now
    → now ≤ to
    → Waits start (3 * lockouts2 + f2) rest to
    → start + waiting ((3 * lockouts + f + (1 + rest) - 1) / 3) ≤ to
bound-suc lockouts f lockouts2 f2 rest start now to e small paced le (inl z) =
    let h : (3 * lockouts + f + (1 + rest) - 1) / 3 ≡ lockouts = omega (arith, z, small) in
    omega (arith, ap waiting h)
bound-suc lockouts f lockouts2 f2 rest start now to e small paced le (inr later) =
    let h : 3 * lockouts + f + (1 + rest) - 1 ≡ 3 * lockouts2 + f2 + rest - 1 = omega (arith, e) in
    omega (arith, ap (λ n. waiting (n / 3)) h, later)

-- Guessing from a paced state: the last evaluated failure comes after all pauses before it.
guesses_wait_from :
    (s : PinLockoutState) (start lockouts from to : ℕ) (times : List ℕ)
    → Guesser s start lockouts from
    → Climbs from times to
    → to + 300 < 2 ^ 64
    → Waits start (3 * lockouts + s.consecutive_failures) (evaluated s times) to
unfolding evaluated Climbs Guesser
guesses_wait_from s start lockouts from to [] g c small = inl refl
guesses_wait_from s start lockouts from to (now ∷ rest) g c small =
    let le = Climbs-le now to rest c.1 in
    elim (attempt-cases s start lockouts from now g c.0)
      as (λ _. Waits start (3 * lockouts + s.consecutive_failures) (evaluated s (now ∷ rest)) to) [
        | inl (u, h, lt) ↦
            let t = step-turned_away s start lockouts from now u g h lt in
            let ih = guesses_wait_from s start lockouts now to rest t.1 c.1 small in
            let e = evaluated-turned_away s now (u - now) rest t.0 in
            subst (λ n. Waits start (3 * lockouts + s.consecutive_failures) n to) (sym e) ih
        | inr (h, paced) ↦
            let t = step-evaluated s start lockouts from now g paced (omega (arith, small, le)) h in
            let r = record_failure s now in
            let ih = guesses_wait_from r.0 start (lockouts + locks r.1) now to rest t.2 c.1 small in
            let b : start
                  + waiting
                      ((3 * lockouts + s.consecutive_failures + (1 + evaluated r.0 rest) - 1) / 3)
                ≤ to =
              bound-suc lockouts s.consecutive_failures (lockouts + locks r.1)
                r.0.consecutive_failures (evaluated r.0 rest) start now to t.1 g.0.0 paced le ih in
            inr (
              omega (
                arith,
                ap
                    (λ n.
                      waiting (
                        (3 * lockouts + s.consecutive_failures + (n + evaluated r.0 rest) - 1) / 3))
                    t.0,
                b,
              ))
      ]

-- When failures at climbing times from `start` to `to` meet a new lockout, and the clock stays
-- 300 seconds away from 2^64, the n-th evaluated failure comes no earlier than the first
-- (n - 1) / 3 pauses of 30, 60, 300, 300, … seconds allow.
pub evaluated-waits :
    (start to : ℕ) (times : List ℕ)
    → Climbs start times to
    → to + 300 < 2 ^ 64
    → (evaluated new_lockout times ≡ 0)
      ⊎ (start + waiting ((evaluated new_lockout times - 1) / 3) ≤ to)
unfolding Guesser Paced
evaluated-waits start to times c small =
    let g : Guesser new_lockout start 0 start = ground (arith, waiting_zero) in
    elim (guesses_wait_from new_lockout start 0 start to times g c small) [
      | inl z ↦ inl z
      | inr h ↦
          let n = evaluated new_lockout times in
          let e : (3 * 0 + 0 + n - 1) / 3 ≡ (n - 1) / 3 = omega arith in
          inr (omega (arith, ap waiting e, h))
    ]
