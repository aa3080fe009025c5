-- ===== src/Ticket.antt =====
-- The ticket locks: spinlocks/ticket_lock.c, ticket_lock_yield.c and hardware/counter_get_and_add.c,
-- a child for each file.
pub mod Plain
pub mod Yielding
pub mod Counter
mod Tests
use concurrencia.Base.{ℕ, ◌<◌, ◌≡◌, ◌⊎◌, Bool, true, Option, none, some, List, ◌++◌}
use concurrencia.Worker.{Action}

pub data Program : Type 0 where
  plain yielding counting : Program

unfoldable pub main : Program → List Action → Option ℕ
main plain = Plain.main
main yielding = Yielding.main
main counting = Counter.main

-- Thread `i` is between the return of `lock` and the call of `unlock`.
unfoldable pub in_critical : Program → List Action → ℕ → Bool
in_critical plain = Plain.in_critical
in_critical yielding = Yielding.in_critical
in_critical counting = Counter.in_critical

-- `MAX_COUNT`, which the programs print as the expected value.
abbrev pub expected : Program → ℕ
expected plain = Plain.max_count
expected yielding = Yielding.max_count
expected counting = Counter.max_count

-- Each of the three programs, after any steps of its threads, has printed nothing or the expected
-- count, and its threads can be run on so that it prints the expected count.
pub ticket_prints :
    (p : Program) (actions : List Action)
    → ((main p actions ≡ none) ⊎ (main p actions ≡ some (expected p)))
      × ((rest : List Action) × (main p (actions ++ rest) ≡ some (expected p)))
unfolding main
ticket_prints plain = Plain.main-prints
ticket_prints yielding = Yielding.main-prints
ticket_prints counting = Counter.main-prints

-- In each of the three programs, after any steps of its threads, two threads that are both between
-- the return of `lock` and the call of `unlock` are the same thread.
pub ticket_excludes :
    (p : Program) (actions : List Action) (i j : ℕ)
    → in_critical p actions i ≡ true
    → in_critical p actions j ≡ true
    → i ≡ j
unfolding in_critical
ticket_excludes plain = Plain.critical-excludes
ticket_excludes yielding = Yielding.critical-excludes
ticket_excludes counting = Counter.critical-excludes

-- The turns that come before that of thread `i`, while it has a ticket.
unfoldable pub turns_before : Program → List Action → ℕ → Option ℕ
turns_before plain = Plain.turns_before
turns_before yielding = Yielding.turns_before
turns_before counting = Counter.turns_before

abbrev pub num_threads : ℕ
num_threads = 4

-- In each of the three programs, after any steps of its threads, a thread that has a ticket waits
-- for fewer turns than there are threads.
pub ticket_waits :
    (p : Program) (actions : List Action) (i d : ℕ)
    → i < num_threads
    → turns_before p actions i ≡ some d
    → d < num_threads
unfolding turns_before
ticket_waits plain = Plain.turns_before-lt
ticket_waits yielding = Yielding.turns_before-lt
ticket_waits counting = Counter.turns_before-lt
