-- ===== src/RwLock.antt =====
-- spinlocks/rw_lock.c: a lock for readers and writers in one word.
mod Defs
mod Steps
mod Invariant
mod Results
mod Exclusion
mod Tests
use concurrencia.Base.{
  ℕ, ◌+◌, ◌/◌, ◌^◌, ◌<◌, ◌≡◌, ◌⊎◌, Bool, true, false, Option, none, some, List, ◌++◌, arith,
}
use concurrencia.Worker.{Action}
use concurrencia.RwLock.Defs.{num_threads, max_count}

-- What `main` prints as the counter, if the threads have all ended after the given steps.
unfoldable pub main : List Action → Option ℕ
main = Defs.main num_threads (max_count / num_threads)

-- What the program prints as expected.
abbrev pub expected : ℕ
expected = max_count / 10

-- Thread `i` is between the return of `writer_lock` and the call of `writer_unlock`.
unfoldable pub is_writing : List Action → ℕ → Bool
is_writing = Exclusion.is_writing num_threads (max_count / num_threads)

-- Thread `i` is between the return of `reader_lock` and the call of `reader_unlock`.
unfoldable pub is_reading : List Action → ℕ → Bool
is_reading = Exclusion.is_reading num_threads (max_count / num_threads)

few : num_threads + 1 < 2 ^ 31
few = omega arith

-- After any steps of its threads the program has printed nothing or the expected count, and its
-- threads can be run on so that it prints the expected count.
pub rw_prints :
    (actions : List Action)
    → ((main actions ≡ none) ⊎ (main actions ≡ some expected))
      × ((rest : List Action) × (main (actions ++ rest) ≡ some expected))
unfolding main
rw_prints = Results.prints num_threads (max_count / num_threads) few

-- While a thread is writing, after any steps, every thread that is writing is this thread, and no
-- thread is reading.
pub rw_excludes :
    (actions : List Action) (i j : ℕ)
    → is_writing actions i ≡ true
    → (is_writing actions j ≡ true → i ≡ j) × (is_reading actions j ≡ false)
unfolding is_writing is_reading
rw_excludes = Exclusion.excludes num_threads (max_count / num_threads) few
