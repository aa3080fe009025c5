-- ===== src/Peterson.antt =====
-- intro/peterson.c: Peterson's algorithm for two threads.
mod Defs
mod Steps
mod Invariant
mod Kept
mod Results
mod Tests
use concurrencia.Base.{ℕ, ◌+◌, ◌/◌, ◌≡◌, ◌⊎◌, Bool, true, Option, none, some, List, ◌++◌}
use concurrencia.Worker.{Action}
use concurrencia.Peterson.Defs.{num_threads, max_count}

-- What `main` prints as the counter, if both threads have ended after the given steps.
unfoldable pub main : List Action → Option ℕ
main = Defs.main (max_count / num_threads)

-- Thread `i` is between the return of `lock` and the call of `unlock`.
unfoldable pub in_critical : List Action → ℕ → Bool
in_critical = Results.in_critical (max_count / num_threads)

-- After any steps of its threads the program has printed nothing or the expected count, and its
-- threads can be run on so that it prints the expected count.
pub peterson_prints :
    (actions : List Action)
    → ((main actions ≡ none) ⊎ (main actions ≡ some max_count))
      × ((rest : List Action) × (main (actions ++ rest) ≡ some max_count))
unfolding main
peterson_prints = Results.prints (max_count / num_threads)

-- Two threads that are in the critical section after the same steps are the same thread.
pub peterson_excludes :
    (actions : List Action) (i j : ℕ)
    → in_critical actions i ≡ true
    → in_critical actions j ≡ true
    → i ≡ j
unfolding in_critical
peterson_excludes = Results.excludes (max_count / num_threads)
