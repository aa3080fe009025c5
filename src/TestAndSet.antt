-- ===== src/TestAndSet.antt =====
-- The spin locks that take a byte by a test-and-set: spinlocks/simple_spinlock.c,
-- test_test_and_set.c, test_and_set_yield.c, test_and_set_backoff.c and
-- hardware/counter_test_and_set.c, a child for each file.
pub mod Simple
pub mod TestTest
pub mod Yielding
pub mod Backoff
pub mod Counter
mod Tests
use concurrencia.Base.{ℕ, ◌≡◌, ◌⊎◌, Bool, true, Option, none, some, List, ◌++◌}
use concurrencia.Worker.{Action}

pub data Program : Type 0 where
  simple test_test yielding backing_off counting : Program

unfoldable pub main : Program → List Action → Option ℕ
main simple = Simple.main
main test_test = TestTest.main
main yielding = Yielding.main
main backing_off = Backoff.main
main counting = Counter.main

-- Thread `i` is between the return of `lock` and the call of `unlock`.
unfoldable pub in_critical : Program → List Action → ℕ → Bool
in_critical simple = Simple.in_critical
in_critical test_test = TestTest.in_critical
in_critical yielding = Yielding.in_critical
in_critical backing_off = Backoff.in_critical
in_critical counting = Counter.in_critical

-- `MAX_COUNT`, which the programs print as the expected value.
abbrev pub expected : Program → ℕ
expected simple = Simple.max_count
expected test_test = TestTest.max_count
expected yielding = Yielding.max_count
expected backing_off = Backoff.max_count
expected counting = Counter.max_count

-- Each of the five programs, after any steps of its threads, has printed nothing or the expected
-- count, and its threads can be run on so that it prints the expected count.
pub test_and_set_prints :
    (p : Program) (actions : List Action)
    → ((main p actions ≡ none) ⊎ (main p actions ≡ some (expected p)))
      × ((rest : List Action) × (main p (actions ++ rest) ≡ some (expected p)))
unfolding main
test_and_set_prints simple = Simple.main-prints
test_and_set_prints test_test = TestTest.main-prints
test_and_set_prints yielding = Yielding.main-prints
test_and_set_prints backing_off = Backoff.main-prints
test_and_set_prints counting = Counter.main-prints

-- In each of the five programs, after any steps of its threads, two threads that are both between
-- the return of `lock` and the call of `unlock` are the same thread.
pub test_and_set_excludes :
    (p : Program) (actions : List Action) (i j : ℕ)
    → in_critical p actions i ≡ true
    → in_critical p actions j ≡ true
    → i ≡ j
unfolding in_critical
test_and_set_excludes simple = Simple.critical-excludes
test_and_set_excludes test_test = TestTest.critical-excludes
test_and_set_excludes yielding = Yielding.critical-excludes
test_and_set_excludes backing_off = Backoff.critical-excludes
test_and_set_excludes counting = Counter.critical-excludes
