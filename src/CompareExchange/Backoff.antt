-- ===== src/CompareExchange/Backoff.antt =====
-- spinlocks/compare_and_swap_backoff.c
use concurrencia.Base.{
  ℕ, ℤ, pos, negsuc, to_int, ◌+◌, ◌-◌, ◌/◌, ◌%◌, ◌^◌, ◌≤◌, ◌≡◌, refl, ◌⊎◌, Bool, true, Option, none,
  some, List, ◌++◌, arith, ◌==◌, ltb, if◌then◌else◌,
}
use concurrencia.Lock.{Phase, outside, entering, inside, Lock, Laws}
use concurrencia.Lock.Tokens.{TokenLaws, token_laws}
use concurrencia.Worker
use concurrencia.Worker.{plain, Worker, Turn, Action}

abbrev pub num_threads : ℕ
num_threads = 4

abbrev pub max_count : ℕ
max_count = 10000000

abbrev pub failures_limit : ℕ
failures_limit = 12

-- The nanoseconds that `backoff` sleeps, where `rand` returns `random`. A shift by a negative number is
-- undefined: `none`.
unfoldable pub backoff : ℤ → ℕ → Option ℕ
backoff (pos failures) random =
    some (1 + random % (if ltb failures_limit failures then 2 ^ failures_limit else 2 ^ failures))
backoff (negsuc failures) random = none

-- `testing` is before the read of `mutex` and `swapping` before the compare-exchange, with `local`
-- and the number of failures; `asleep` is in `clock_nanosleep`, with what `backoff` has computed, after
-- which the thread goes on in every case.
pub data Local : Type 0 where
  idle : Local
  testing swapping : (v failures : ℕ) → Local
  asleep : (v failures : ℕ) (nanoseconds : Option ℕ) → Local
  held : Local

-- `local = 0; backoff(++failures);`; `failures` is an unsigned int, which `backoff`
-- takes for an int.
abbrev pub back_off : ℕ → ℕ → Local
back_off f random = asleep 0 ((f + 1) % 2 ^ 32) (backoff (to_int ((f + 1) % 2 ^ 32)) random)

-- The loop of `lock` from `local = 0`, and `unlock`.
unfoldable pub step : ℕ → ℕ → ℕ → Local → ℕ × Local
step i c mutex idle = (mutex, if mutex == 0 then swapping 0 0 else back_off 0 c)
step i c mutex (testing v f) = (mutex, if mutex == 0 then swapping v f else back_off f c)
step i c mutex (swapping v f) = if mutex == v then (1, held) else (mutex, back_off f c)
step i c mutex (asleep v f _) = (mutex, testing v f)
step i c mutex held = (0, idle)

abbrev phase : Local → Phase
phase idle = outside
phase held = inside
phase _ = entering

abbrev pub lock : Lock
lock = record {
  Shared = ℕ;
  Local = Local;
  shared = 0;
  local = λ _. idle;
  step = step;
  phase = phase;
}

-- `local` is 0 at each compare-exchange.
abbrev Fit : Local → Type 0
Fit (testing v _) = v ≡ 0
Fit (swapping v _) = v ≡ 0
Fit (asleep v _ _) = v ≡ 0
Fit _ = Unit

abbrev rank : Local → ℕ
rank (asleep _ _ _) = 3
rank (testing _ _) = 2
rank (swapping _ _) = 1
rank _ = 0

abbrev owns : Local → ℕ
owns held = 1
owns _ = 0

rank-le : (p : Local) → rank p ≤ 3
rank-le p = ground arith

abbrev free : ℕ → ℕ
free mutex = 1 - mutex

conserve :
    (i c mutex : ℕ) (p : Local)
    → Fit p
    → owns p + free mutex ≤ 1
    → owns (step i c mutex p).1 + free (step i c mutex p).0 ≡ owns p + free mutex
unfolding step
conserve i c mutex p f h = ground arith

laws : TokenLaws lock
unfolding step
laws = record {
  Fit = Fit;
  fit_first = λ i. tt;
  fit_step = λ i c mutex p f. ground arith;
  owns = owns;
  free = free;
  conserve = conserve;
  free_first = refl;
  outside_first = λ i. refl;
  outside_owns = λ p h. ground arith;
  inside_owns = λ p h. ground arith;
  orderly = λ i c mutex p. ground arith;
  rank = rank;
  worst = 3;
  rank-le = rank-le;
  nearer = λ i mutex p f b h. (0, ground arith);
}

pub lock_laws : Laws num_threads lock
lock_laws = token_laws num_threads lock laws

-- One step of a thread that runs `count`.
unfoldable pub count : ℕ → ℕ → ℕ → (ℕ → ℕ) → Worker Local → Turn lock
count = Worker.worker_turn lock plain num_threads (max_count / num_threads)

-- What `main` prints as the counter, if the threads have all ended after the given steps.
unfoldable pub main : List Action → Option ℕ
main = Worker.main lock plain num_threads (max_count / num_threads)

-- Thread `i` is between the return of `lock` and the call of `unlock`.
unfoldable pub in_critical : List Action → ℕ → Bool
in_critical = Worker.in_critical lock plain num_threads (max_count / num_threads)

pub main-prints :
    (actions : List Action)
    → ((main actions ≡ none) ⊎ (main actions ≡ some max_count))
      × ((rest : List Action) × (main (actions ++ rest) ≡ some max_count))
unfolding main
main-prints = Worker.prints_plain num_threads (max_count / num_threads) lock lock_laws

pub critical-excludes :
    (actions : List Action) (i j : ℕ)
    → in_critical actions i ≡ true
    → in_critical actions j ≡ true
    → i ≡ j
unfolding in_critical
critical-excludes = Worker.excludes num_threads (max_count / num_threads) lock plain lock_laws
