-- ===== src/Futex/Calls.antt =====
-- The kernel's futex, a parameter: the threads that sleep on an address, and what `FUTEX_WAIT` and
-- `FUTEX_WAKE` do to them.
use concurrencia.Base.{ℕ, ◌<◌, ◌≡◌, Bool, true, false, ◌&&◌, ◌||◌, not, ◌==◌}

-- `sleep i` is a wait whose value was still there; `wake k c` wakes at most `k` sleepers, the choice
-- is `c`; `leave i` is the end of a wait that was interrupted, which `interrupted` says of a choice.
pub record Kernel : Type 1 where
  pub Queue : Type 0
  pub empty : Queue
  pub asleep : Queue → ℕ → Bool
  pub sleep : ℕ → Queue → Queue
  pub wake : ℕ → ℕ → Queue → Queue
  pub leave : ℕ → Queue → Queue
  pub interrupted : ℕ → Bool

-- What futex(2) documents: a wait makes a sleeper of its thread and of no other one, and a wake that
-- may wake a thread wakes one if any sleeps, and makes none sleep.
pub record Documented (k : Kernel) : Type 0 where
  pub asleep-empty : (i : ℕ) → k.asleep k.empty i ≡ false
  pub asleep-sleep : (i j : ℕ) (q : k.Queue) → k.asleep (k.sleep i q) j ≡ ((i == j) || k.asleep q j)
  pub asleep-leave :
      (i j : ℕ) (q : k.Queue) → k.asleep (k.leave i q) j ≡ (not (i == j) && k.asleep q j)
  pub wake-asleep :
      (m c j : ℕ) (q : k.Queue) → k.asleep (k.wake m c q) j ≡ true → k.asleep q j ≡ true
  pub wake-some :
      (m c i : ℕ) (q : k.Queue)
      → 0 < m
      → k.asleep q i ≡ true
      → (j : ℕ) × ((k.asleep q j ≡ true) × (k.asleep (k.wake m c q) j ≡ false))
