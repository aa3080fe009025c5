-- ===== src/Delay/Tests.antt =====
-- Delays after some failures.
use Prim.Native.Nat.{min}
use concurrencia.Base.{ℕ, to_int, none, some, ◌⊎◌, arith, ◌^◌, ◌≤◌, ◌<◌, ◌≡◌, refl}
use concurrencia.TestAndSet
use concurrencia.Delay.{test_and_set, swap, backoff, backoff_bounds}

sixth : backoff test_and_set (to_int 6) 100 ≡ some 37
unfolding backoff TestAndSet.Backoff.backoff
sixth = refl

-- After 2^31 failures their number is negative.
wrapped : backoff test_and_set (to_int (2 ^ 31)) 100 ≡ none
unfolding backoff TestAndSet.Backoff.backoff
wrapped = refl

backoff_bounds_example :
    ((20 < 2 ^ 31)
      × ((nanoseconds : ℕ) × (backoff swap (to_int 20) 5000 ≡ some nanoseconds)
          × (1 ≤ nanoseconds)
          × (nanoseconds ≤ 2 ^ min 20 12)
          × (nanoseconds < 1000000000)))
    ⊎ ((2 ^ 31 ≤ 20) × (backoff swap (to_int 20) 5000 ≡ none))
backoff_bounds_example = backoff_bounds swap 20 5000 (omega arith)
