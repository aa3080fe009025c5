-- ===== src/Rtm.antt =====
-- transactional/intel/mutex_rtm.c, array_rtm.c and rw_rtm.c: rounds in hardware transactions, with
-- a spin lock to fall back on. A child for each file.
pub mod Plain
pub mod Array
pub mod Rw
mod Defs
mod Steps
mod Invariant
mod Results
mod Tests
use concurrencia.Base.{ℕ, ◌≡◌, ◌⊎◌, Bool, true, Option, none, some, List, ◌++◌}
use concurrencia.Worker.{Action}
use concurrencia.Rtm.Defs.{Intrinsics, played}

pub data Program : Type 0 where
  plain array readers_writers : Program

unfoldable pub main : Program → Intrinsics → List Action → Option ℕ
main plain = Plain.main
main array = Array.main
main readers_writers = Rw.main

unfoldable pub in_lock : Program → Intrinsics → List Action → ℕ → Bool
in_lock plain = Plain.in_lock
in_lock array = Array.in_lock
in_lock readers_writers = Rw.in_lock

-- What the programs print as the expected value.
abbrev pub expected : Program → ℕ
expected plain = Plain.expected
expected array = Array.expected
expected readers_writers = Rw.expected

-- Each of the three programs, whatever the intrinsics say of a status, and after any steps of its
-- threads with any transactions aborted, has printed nothing or the expected count; and whatever
-- the environment does to the transactions from then on, every one aborted with any status
-- included, its threads can be scheduled so that it prints the expected count.
pub rtm_prints :
    (p : Program) (intrinsics : Intrinsics) (actions : List Action) (environment : ℕ → ℕ)
    → ((main p intrinsics actions ≡ none) ⊎ (main p intrinsics actions ≡ some (expected p)))
      × ((schedule : List ℕ) × (main p intrinsics (actions ++ played environment schedule)
            ≡ some (expected p)))
unfolding main
rtm_prints plain = Plain.main-prints
rtm_prints array = Array.main-prints
rtm_prints readers_writers = Rw.main-prints

-- In each of the three programs, whatever the intrinsics say of a status and whatever the threads
-- have done, two threads that hold the fallback lock are the same thread.
pub rtm_excludes :
    (p : Program) (intrinsics : Intrinsics) (actions : List Action) (i j : ℕ)
    → in_lock p intrinsics actions i ≡ true
    → in_lock p intrinsics actions j ≡ true
    → i ≡ j
unfolding in_lock
rtm_excludes plain = Plain.lock-excludes
rtm_excludes array = Array.lock-excludes
rtm_excludes readers_writers = Rw.lock-excludes
