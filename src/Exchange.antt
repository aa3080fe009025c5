-- ===== src/Exchange.antt =====
-- The spin locks that take a word by an exchange: spinlocks/test_swap.c, swap_yield.c,
-- swap_backoff.c, hardware/counter_swap.c, counter_get_and_set.c and
-- transactional/intel/mutex_hle.c, a child for each file.
pub mod TestSwap
pub mod SwapYield
pub mod SwapBackoff
pub mod CounterSwap
pub mod GetAndSet
pub mod Elided
mod Tests
use concurrencia.Base.{ℕ, ◌≡◌, ◌⊎◌, Bool, true, Option, none, some, List, ◌++◌}
use concurrencia.Worker.{Action}

pub data Program : Type 0 where
  test_swap swap_yield swap_backoff counter_swap get_and_set elided : Program

unfoldable pub main : Program → List Action → Option ℕ
main test_swap = TestSwap.main
main swap_yield = SwapYield.main
main swap_backoff = SwapBackoff.main
main counter_swap = CounterSwap.main
main get_and_set = GetAndSet.main
main elided = Elided.main

-- Thread `i` is between the return of `lock` and the call of `unlock`.
unfoldable pub in_critical : Program → List Action → ℕ → Bool
in_critical test_swap = TestSwap.in_critical
in_critical swap_yield = SwapYield.in_critical
in_critical swap_backoff = SwapBackoff.in_critical
in_critical counter_swap = CounterSwap.in_critical
in_critical get_and_set = GetAndSet.in_critical
in_critical elided = Elided.in_critical

-- `MAX_COUNT`, which the programs print as the expected value.
abbrev pub expected : Program → ℕ
expected test_swap = TestSwap.max_count
expected swap_yield = SwapYield.max_count
expected swap_backoff = SwapBackoff.max_count
expected counter_swap = CounterSwap.max_count
expected get_and_set = GetAndSet.max_count
expected elided = Elided.max_count

-- Each of the six programs, after any steps of its threads, has printed nothing or the expected
-- count, and its threads can be run on so that it prints the expected count.
pub exchange_prints :
    (p : Program) (actions : List Action)
    → ((main p actions ≡ none) ⊎ (main p actions ≡ some (expected p)))
      × ((rest : List Action) × (main p (actions ++ rest) ≡ some (expected p)))
unfolding main
exchange_prints test_swap = TestSwap.main-prints
exchange_prints swap_yield = SwapYield.main-prints
exchange_prints swap_backoff = SwapBackoff.main-prints
exchange_prints counter_swap = CounterSwap.main-prints
exchange_prints get_and_set = GetAndSet.main-prints
exchange_prints elided = Elided.main-prints

-- In each of the six programs, after any steps of its threads, two threads that are both between
-- the return of `lock` and the call of `unlock` are the same thread.
pub exchange_excludes :
    (p : Program) (actions : List Action) (i j : ℕ)
    → in_critical p actions i ≡ true
    → in_critical p actions j ≡ true
    → i ≡ j
unfolding in_critical
exchange_excludes test_swap = TestSwap.critical-excludes
exchange_excludes swap_yield = SwapYield.critical-excludes
exchange_excludes swap_backoff = SwapBackoff.critical-excludes
exchange_excludes counter_swap = CounterSwap.critical-excludes
exchange_excludes get_and_set = GetAndSet.critical-excludes
exchange_excludes elided = Elided.critical-excludes
