-- ===== src/Futex/Tests.antt =====
-- A kernel that keeps the sleepers in a list, a run in which a thread sleeps, and the theorems at it.
use concurrencia.Base.{
  ℕ, zero, suc, ◌<◌, ◌≡◌, refl, ◌⊎◌, Bool, true, false, ◌&&◌, ◌||◌, not, none, some, List, [], ◌∷◌,
  ◌++◌, arith, ◌==◌, if◌then◌else◌,
}
use concurrencia.Worker
use concurrencia.Worker.{Action}
use concurrencia.Futex.Calls.{Kernel, Documented}
use concurrencia.Futex.Drepper.Defs
use concurrencia.Futex.Drepper
use concurrencia.Futex.{
  simple_mutex, mutex_drepper, main, in_critical, expected, futex_prints, futex_excludes,
}

abbrev member : List ℕ → ℕ → Bool
member [] i = false
member (x ∷ xs) i = (x == i) || member xs i

abbrev without : ℕ → List ℕ → List ℕ
without i [] = []
without i (x ∷ xs) = if i == x then without i xs else x ∷ without i xs

-- Wakes the first sleeper, wherever else it stands in the list.
abbrev wake_first : List ℕ → List ℕ
wake_first [] = []
wake_first (x ∷ xs) = without x xs

abbrev wake_up : ℕ → List ℕ → List ℕ
wake_up zero q = q
wake_up (suc m) q = wake_first q

abbrev lists : Kernel
lists = record {
  Queue = List ℕ;
  empty = [];
  asleep = member;
  sleep = λ i q. i ∷ q;
  wake = λ m c q. wake_up m q;
  leave = without;
  interrupted = λ c. c == 1;
}

member-without : (i j : ℕ) (q : List ℕ) → member (without i q) j ≡ (not (i == j) && member q j)
member-without i j [] = ground arith
member-without i j (x ∷ xs) = ground (arith, member-without i j xs)

woken_first :
    (m c i : ℕ) (q : List ℕ)
    → 0 < m
    → member q i ≡ true
    → (j : ℕ) × ((member q j ≡ true) × (member (wake_up m q) j ≡ false))
woken_first zero c i q l a = absurd (omega arith)
woken_first (suc m) c i [] l a = absurd (cc a)
woken_first (suc m) c i (x ∷ xs) l a = (x, (ground arith, ground (arith, member-without x x xs)))

woken_before : (m c j : ℕ) (q : List ℕ) → member (wake_up m q) j ≡ true → member q j ≡ true
woken_before zero c j q a = a
woken_before (suc m) c j [] a = a
woken_before (suc m) c j (x ∷ xs) a = ground (arith, member-without x j xs)

lists-Documented : Documented lists
lists-Documented = record {
  asleep-empty = λ i. refl;
  asleep-sleep = λ i j q. refl;
  asleep-leave = member-without;
  wake-asleep = woken_before;
  wake-some = woken_first;
}

abbrev step_of : ℕ → Action
step_of i = record { thread = i; choice = 0 }

-- Thread 0 gets the lock, and thread 1 falls asleep.
abbrev contended : List Action
contended = step_of 0 ∷ step_of 1 ∷ step_of 1 ∷ step_of 1 ∷ step_of 1 ∷ []

sleeps :
    (Worker.run
      (Defs.lock lists)
      Worker.plain
      4
      10
      contended
      (Worker.create (Defs.lock lists) Worker.plain 4 10)).lock.queue
    ≡ 1 ∷ []
unfolding Worker.run Worker.tick Worker.create Worker.worker_turn Worker.loop_turn Worker.lock_turn
    Defs.step
sleeps = refl

futex_prints_example :
    ((main simple_mutex lists contended ≡ none)
      ⊎ (main simple_mutex lists contended ≡ some (expected simple_mutex)))
    × ((rest : List Action) × (main simple_mutex lists (contended ++ rest)
          ≡ some (expected simple_mutex)))
futex_prints_example = futex_prints simple_mutex lists contended lists-Documented

futex_excludes_example : ◌≡◌ {A = ℕ} 0 0
unfolding in_critical Drepper.in_critical Worker.in_critical Worker.run Worker.tick Worker.create
    Worker.worker_turn Worker.loop_turn Worker.lock_turn Defs.step
futex_excludes_example = futex_excludes mutex_drepper lists contended 0 0 lists-Documented refl refl
