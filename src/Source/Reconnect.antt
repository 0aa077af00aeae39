-- ===== src/Source/Reconnect.antt =====
-- crates/source/src/reconnect.rs, and the streak of failures that crates/bin/src/run.rs counts.
-- Durations are milliseconds.
use native.Mathlib.Nat.{pow-le-pow_right}
use pg2osync.Base.{
  ℕ, suc, ◌+◌, ◌*◌, ◌^◌, ◌≤◌, ◌≡◌, min, Bool, true, false, Option, none, some, List, [], ◌∷◌,
  length, ltb, leb, if◌then◌else◌, arith, All, Bool-cases, inl, inr, tests,
}

abbrev pub max_backoff : ℕ
max_backoff = 30_000

-- `u64::MAX`
abbrev largest : ℕ
largest = 18_446_744_073_709_551_615

pub record ReconnectPolicy : Type 0 where
  pub max_attempts : ℕ
  pub base_backoff_ms : ℕ

-- `ReconnectPolicy::should_retry`
unfoldable pub should_retry : ReconnectPolicy → ℕ → Bool
should_retry policy failures = ltb failures policy.max_attempts

-- `2u64.saturating_pow`, and `saturating_mul`
saturating_pow2 : ℕ → ℕ
saturating_pow2 n = min (2 ^ n) largest

saturating_mul : ℕ → ℕ → ℕ
saturating_mul a b = min (a * b) largest

-- `ReconnectPolicy::delay_for`
unfoldable pub delay_for : ReconnectPolicy → ℕ → ℕ
unfolding saturating_pow2 saturating_mul
delay_for policy failures =
    min (saturating_mul policy.base_backoff_ms (saturating_pow2 (min failures 16))) max_backoff

-- `ReconnectPolicy::attempt_recovered`
unfoldable pub attempt_recovered : ℕ → Bool
attempt_recovered streamed_for = leb max_backoff streamed_for

-- One failed attempt: how long it streamed, and whether its error is worth another attempt.
pub record Attempt : Type 0 where
  pub streamed_for : ℕ
  pub retryable : Bool

-- What the loop does after a failed attempt: the wait and the count, or nothing to give up.
unfoldable pub after_failure : ReconnectPolicy → Attempt → ℕ → Option (ℕ × ℕ)
unfolding should_retry attempt_recovered
after_failure policy a failures =
    let failures' = if attempt_recovered a.streamed_for then 0 else failures in
    if a.retryable
    then (if should_retry policy failures'
        then some (delay_for policy failures', failures' + 1)
        else none)
    else none

next_attempt : (ℕ → Option ℕ) → Option (ℕ × ℕ) → Option ℕ
next_attempt rest none = none
next_attempt rest (some (delay, failures)) = rest failures

-- The failures that are counted after a run of attempts, or nothing once the loop gave up.
unfoldable pub streak : ReconnectPolicy → List Attempt → ℕ → Option ℕ
unfolding next_attempt
streak policy [] failures = some failures
streak policy (a ∷ rest) failures =
    next_attempt (streak policy rest) (after_failure policy a failures)

pow_below : (n : ℕ) → n ≤ 16 → 2 ^ n ≤ 65536
pow_below n h = pow-le-pow_right (omega arith) h

two_pow : (n : ℕ) → 2 ^ (suc n) ≡ 2 ^ n + 2 ^ n
two_pow n = omega arith

doubles : (base n : ℕ) → base * 2 ^ (suc n) ≡ 2 * (base * 2 ^ n)
doubles base n = rw (two_pow n) (grind arith)

-- The two caps that saturate change nothing below the backoff's own.
delay_for-plain :
    (policy : ReconnectPolicy) (n : ℕ)
    → delay_for policy n ≡ min (policy.base_backoff_ms * 2 ^ (min n 16)) max_backoff
unfolding delay_for saturating_pow2 saturating_mul
delay_for-plain policy n =
    let small : 2 ^ (min n 16) ≤ 65536 = pow_below (min n 16) (omega arith) in
    let plain : min (2 ^ (min n 16)) largest ≡ 2 ^ (min n 16) = omega (arith, small) in
    rw plain (omega arith)

-- Each failure doubles the wait until it is capped, and after the sixteenth it stays as it is.
pub delay_for-doubles :
    (policy : ReconnectPolicy) (n : ℕ)
    → delay_for policy (suc n)
      ≡ (if ltb n 16 then min (2 * delay_for policy n) max_backoff else delay_for policy n)
delay_for-doubles policy n = elim (Bool-cases (ltb n 16)) [
  | inl early ↦
      let here : min n 16 ≡ n = omega tests in
      let next : min (suc n) 16 ≡ suc n = omega tests in
      rw (early, delay_for-plain policy n, delay_for-plain policy (suc n), here, next)
        (omega (arith, doubles policy.base_backoff_ms n))
  | inr late ↦
      let same : min (suc n) 16 ≡ min n 16 = ground arith in
      rw (late, delay_for-plain policy n, delay_for-plain policy (suc n), same)
]

-- An attempt that failed before it had recovered, with an error worth another attempt.
pub record IsShort (a : Attempt) : Type 0 where
  pub short : attempt_recovered a.streamed_for ≡ false
  pub retryable : a.retryable ≡ true

after_failure-short :
    (policy : ReconnectPolicy) (a : Attempt) (failures : ℕ)
    → IsShort a
    → after_failure policy a failures ≡ (
        if ltb failures policy.max_attempts
        then some (delay_for policy failures, failures + 1)
        else none)
unfolding after_failure should_retry
after_failure-short policy a failures h = rw (h.short, h.retryable)

-- A streak of failures, none of which recovered and each worth another attempt, from a count that
-- is not above `max_attempts`: each is followed by another attempt until `max_attempts` failures
-- have been counted, and the next failure gives up.
pub streak-gives_up :
    (policy : ReconnectPolicy) (attempts : List Attempt) (failures : ℕ)
    → failures ≤ policy.max_attempts
    → All IsShort attempts
    → streak policy attempts failures ≡ (
        if leb (failures + length attempts) policy.max_attempts
        then some (failures + length attempts)
        else none)
unfolding streak next_attempt
streak-gives_up policy [] failures h short = ground arith
streak-gives_up policy (a ∷ rest) failures h short =
    elim (Bool-cases (ltb failures policy.max_attempts)) [
      | inl more ↦
          let count : failures + 1 + length rest ≡ failures + suc (length rest) = omega arith in
          rw (after_failure-short policy a failures short.0, more, ← count)
            (streak-gives_up policy rest (failures + 1) (omega tests) short.1)
      | inr spent ↦
          let over : leb (failures + suc (length rest)) policy.max_attempts ≡ false =
            ground arith in
          rw (after_failure-short policy a failures short.0, spent, over)
    ]
