-- ===== src/Delay.antt =====
-- `backoff` of spinlocks/test_and_set_backoff.c, swap_backoff.c and compare_and_swap_backoff.c: how
-- long a thread sleeps after its failures.
mod Tests
use Prim.Native.Nat.{min}
use native.Mathlib.Nat.{pow-le-pow_right, mod-lt}
use concurrencia.Base.{
  ℕ, ℤ, pos, to_int, Option, none, some, lt→ltb, not_lt, negsuc, ◌-◌, ◌+◌, ◌%◌, ◌^◌, ◌≤◌, ◌<◌, ◌≡◌,
  refl, ◌⊎◌, inl, inr, arith, ltb, if◌then◌else◌, lt-cases,
}
use concurrencia.TestAndSet
use concurrencia.Exchange
use concurrencia.CompareExchange

pub data Copy : Type 0 where
  test_and_set swap compare_and_swap : Copy

unfoldable pub backoff : Copy → ℤ → ℕ → Option ℕ
backoff test_and_set = TestAndSet.Backoff.backoff
backoff swap = Exchange.SwapBackoff.backoff
backoff compare_and_swap = CompareExchange.Backoff.backoff

abbrev limit : ℕ → ℕ
limit failures = if ltb 12 failures then 2 ^ 12 else 2 ^ failures

limit-eq : (failures : ℕ) → limit failures ≡ 2 ^ min failures 12
limit-eq failures = elim (lt-cases 12 failures) [
  | inl more ↦ let e : min failures 12 ≡ 12 = omega arith in rw e (ground arith)
  | inr less ↦ let e : min failures 12 ≡ failures = omega arith in rw e (ground arith)
]

limit_bounds : (failures : ℕ) → (0 < limit failures) × (limit failures ≤ 4096)
limit_bounds failures = rw (limit-eq failures) (
  pow-le-pow_right {n = 2} (omega arith) {i = 0} {j = min failures 12} (omega arith),
  pow-le-pow_right {n = 2} (omega arith) {i = min failures 12} {j = 12} (omega arith),
)

delay_bounds :
    (failures random : ℕ)
    → (1 ≤ 1 + random % limit failures)
      × (1 + random % limit failures ≤ 2 ^ min failures 12)
      × (1 + random % limit failures < 1000000000)
delay_bounds failures random =
    rw (← limit-eq failures) (omega (arith, limit_bounds failures, mod-lt random))

delays :
    (failures random : ℕ)
    → (nanoseconds : ℕ) × (some (1 + random % limit failures) ≡ some nanoseconds)
      × (1 ≤ nanoseconds)
      × (nanoseconds ≤ 2 ^ min failures 12)
      × (nanoseconds < 1000000000)
delays failures random =
    let (a, b, c) = delay_bounds failures random in (1 + random % limit failures, refl, a, b, c)

-- In each of the three copies, for the 32 bits of a number of failures: below 2^31 the delay is at least
-- one nanosecond, at most 2 to the number of failures, or to 12 from twelve failures on, and so a value
-- that `clock_nanosleep` accepts; from 2^31 on the number is negative as an int, and the shift by it is
-- undefined.
pub backoff_bounds :
    (p : Copy) (failures random : ℕ)
    → failures < 2 ^ 32
    → ((failures < 2 ^ 31)
        × ((nanoseconds : ℕ) × (backoff p (to_int failures) random ≡ some nanoseconds)
            × (1 ≤ nanoseconds)
            × (nanoseconds ≤ 2 ^ min failures 12)
            × (nanoseconds < 1000000000)))
      ⊎ ((2 ^ 31 ≤ failures) × (backoff p (to_int failures) random ≡ none))
unfolding backoff TestAndSet.Backoff.backoff Exchange.SwapBackoff.backoff
    CompareExchange.Backoff.backoff
backoff_bounds p failures random h = elim (lt-cases failures (2 ^ 31)) [
  | inl below ↦ inl (below, rw (lt→ltb _ _ below) (short p))
  | inr above ↦ inr (above, rw (not_lt failures (2 ^ 31) above) (negative p))
]
  where
    short :
        (p : Copy)
        → (nanoseconds : ℕ) × (backoff p (pos failures) random ≡ some nanoseconds)
          × (1 ≤ nanoseconds)
          × (nanoseconds ≤ 2 ^ min failures 12)
          × (nanoseconds < 1000000000)
    short test_and_set = delays failures random
    short swap = delays failures random
    short compare_and_swap = delays failures random

    negative : (p : Copy) → backoff p (negsuc (2 ^ 32 - 1 - failures)) random ≡ none
    negative test_and_set = refl
    negative swap = refl
    negative compare_and_swap = refl
