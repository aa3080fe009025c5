-- ===== src/CompareExchange.antt =====
-- The spin locks that take a word by a compare-exchange: spinlocks/test_compare_and_swap.c,
-- compare_and_swap_yield.c, compare_and_swap_backoff.c and hardware/counter_compare_and_swap.c, a
-- child for each file.
pub mod Test
pub mod Yielding
pub mod Backoff
pub mod Counter
mod Tests
use concurrencia.Base.{ℕ, ◌≡◌, ◌⊎◌, Bool, true, Option, none, some, List, ◌++◌}
use concurrencia.Worker.{Action}

pub data Program : Type 0 where
  test yielding backing_off counting : Program

unfoldable pub main : Program → List Action → Option ℕ
main test = Test.main
main yielding = Yielding.main
main backing_off = Backoff.main
main counting = Counter.main

-- Thread `i` is between the return of `lock` and the call of `unlock`.
unfoldable pub in_critical : Program → List Action → ℕ → Bool
in_critical test = Test.in_critical
in_critical yielding = Yielding.in_critical
in_critical backing_off = Backoff.in_critical
in_critical counting = Counter.in_critical

-- `MAX_COUNT`, which the programs print as the expected value.
abbrev pub expected : Program → ℕ
expected test = Test.max_count
expected yielding = Yielding.max_count
expected backing_off = Backoff.max_count
expected counting = Counter.max_count

-- Each of the four programs, after any steps of its threads, has printed nothing or the expected
-- count, and its threads can be run on so that it prints the expected count.
pub compare_exchange_prints :
    (p : Program) (actions : List Action)
    → ((main p actions ≡ none) ⊎ (main p actions ≡ some (expected p)))
      × ((rest : List Action) × (main p (actions ++ rest) ≡ some (expected p)))
unfolding main
compare_exchange_prints test = Test.main-prints
compare_exchange_prints yielding = Yielding.main-prints
compare_exchange_prints backing_off = Backoff.main-prints
compare_exchange_prints counting = Counter.main-prints

-- In each of the four programs, after any steps of its threads, two threads that are both between
-- the return of `lock` and the call of `unlock` are the same thread.
pub compare_exchange_excludes :
    (p : Program) (actions : List Action) (i j : ℕ)
    → in_critical p actions i ≡ true
    → in_critical p actions j ≡ true
    → i ≡ j
unfolding in_critical
compare_exchange_excludes test = Test.critical-excludes
compare_exchange_excludes yielding = Yielding.critical-excludes
compare_exchange_excludes backing_off = Backoff.critical-excludes
compare_exchange_excludes counting = Counter.critical-excludes
