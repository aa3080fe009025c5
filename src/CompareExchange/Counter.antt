-- ===== src/CompareExchange/Counter.antt =====
-- hardware/counter_compare_and_swap.c
use concurrencia.Base.{
  ℕ, ◌+◌, ◌-◌, ◌/◌, ◌≤◌, ◌≡◌, refl, ◌⊎◌, Bool, true, Option, none, some, List, ◌++◌, arith, ◌==◌,
  if◌then◌else◌,
}
use concurrencia.Lock.{Phase, outside, entering, inside, Lock, Laws}
use concurrencia.Lock.Tokens.{TokenLaws, token_laws}
use concurrencia.Worker
use concurrencia.Worker.{plain, Worker, Turn, Action}

abbrev pub num_threads : ℕ
num_threads = 4

abbrev pub max_count : ℕ
max_count = 10000000

-- `swapping` is before the compare-exchange, with `local`.
pub data Local : Type 0 where
  idle : Local
  swapping : (v : ℕ) → Local
  held : Local

-- `do { local = 0; } while (! compare_exchange(&mutex, &local, 1));`
abbrev pub attempt : ℕ → ℕ → ℕ × Local
attempt mutex v = if mutex == v then (1, held) else (mutex, swapping 0)

-- The loop of `lock`, and `unlock`.
unfoldable pub step : ℕ → ℕ → ℕ → Local → ℕ × Local
step i c mutex idle = attempt mutex 0
step i c mutex (swapping v) = attempt mutex v
step i c mutex held = (0, idle)

abbrev phase : Local → Phase
phase idle = outside
phase held = inside
phase _ = entering

abbrev pub lock : Lock
lock = record {
  Shared = ℕ;
  Local = Local;
  shared = 0;
  local = λ _. idle;
  step = step;
  phase = phase;
}

-- `local` is 0 at each compare-exchange.
abbrev Fit : Local → Type 0
Fit (swapping v) = v ≡ 0
Fit _ = Unit

abbrev rank : Local → ℕ
rank (swapping _) = 1
rank _ = 0

abbrev owns : Local → ℕ
owns held = 1
owns _ = 0

rank-le : (p : Local) → rank p ≤ 1
rank-le p = ground arith

abbrev free : ℕ → ℕ
free mutex = 1 - mutex

conserve :
    (i c mutex : ℕ) (p : Local)
    → Fit p
    → owns p + free mutex ≤ 1
    → owns (step i c mutex p).1 + free (step i c mutex p).0 ≡ owns p + free mutex
unfolding step
conserve i c mutex p f h = ground arith

laws : TokenLaws lock
unfolding step
laws = record {
  Fit = Fit;
  fit_first = λ i. tt;
  fit_step = λ i c mutex p f. ground arith;
  owns = owns;
  free = free;
  conserve = conserve;
  free_first = refl;
  outside_first = λ i. refl;
  outside_owns = λ p h. ground arith;
  inside_owns = λ p h. ground arith;
  orderly = λ i c mutex p. ground arith;
  rank = rank;
  worst = 1;
  rank-le = rank-le;
  nearer = λ i mutex p f b h. (0, ground arith);
}

pub lock_laws : Laws num_threads lock
lock_laws = token_laws num_threads lock laws

-- One step of a thread that runs `count`.
unfoldable pub count : ℕ → ℕ → ℕ → (ℕ → ℕ) → Worker Local → Turn lock
count = Worker.worker_turn lock plain num_threads (max_count / num_threads)

-- What `main` prints as the counter, if the threads have all ended after the given steps.
unfoldable pub main : List Action → Option ℕ
main = Worker.main lock plain num_threads (max_count / num_threads)

-- Thread `i` is between the return of `lock` and the call of `unlock`.
unfoldable pub in_critical : List Action → ℕ → Bool
in_critical = Worker.in_critical lock plain num_threads (max_count / num_threads)

pub main-prints :
    (actions : List Action)
    → ((main actions ≡ none) ⊎ (main actions ≡ some max_count))
      × ((rest : List Action) × (main (actions ++ rest) ≡ some max_count))
unfolding main
main-prints = Worker.prints_plain num_threads (max_count / num_threads) lock lock_laws

pub critical-excludes :
    (actions : List Action) (i j : ℕ)
    → in_critical actions i ≡ true
    → in_critical actions j ≡ true
    → i ≡ j
unfolding in_critical
critical-excludes = Worker.excludes num_threads (max_count / num_threads) lock plain lock_laws
