-- ===== src/Race.antt =====
-- Counting with no lock: intro/counter.c and intro/counter_local.c, a child for each.
mod Defs
mod Bounds
mod Outcomes
pub mod Counter
pub mod CounterLocal
mod Tests
use concurrencia.Base.{ℕ, ◌/◌, ◌≤◌, ◌≡◌, ◌⊎◌, Option, none, some, List}
use concurrencia.Worker.{Action}

pub data Program : Type 0 where
  counter counter_local : Program

unfoldable pub main : Program → List Action → Option ℕ
main counter = Counter.main
main counter_local = CounterLocal.main

abbrev pub max_count : ℕ
max_count = 10000000

-- The least that is printed for certain.
abbrev pub least : Program → ℕ
least counter = 1
least counter_local = max_count / 2

-- Each of the two programs, after any steps of its threads, has printed nothing, or a count that is
-- at most the expected one and at least one addition of a thread.
pub race_between :
    (p : Program) (actions : List Action)
    → (main p actions ≡ none)
      ⊎ ((v : ℕ) × (main p actions ≡ some v) × (least p ≤ v) × (v ≤ max_count))
unfolding main
race_between counter = Counter.main-between
race_between counter_local = CounterLocal.main-between

-- Each of the two programs can print the expected count, and can print half of it.
pub race_outcomes :
    (p : Program)
    → ((actions : List Action) × (main p actions ≡ some max_count))
      × ((actions : List Action) × (main p actions ≡ some (max_count / 2)))
unfolding main
race_outcomes counter = (Counter.main-loses_nothing, Counter.main-loses_half)
race_outcomes counter_local = (CounterLocal.main-loses_nothing, CounterLocal.main-loses_half)
