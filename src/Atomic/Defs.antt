-- ===== src/Atomic/Defs.antt =====
-- Threads whose rounds are one atomic step each: an atomic increment, or a transaction.
use concurrencia.Base.{
  ℕ, zero, suc, ◌+◌, Bool, true, false, ◌&&◌, Option, none, some, List, [], ◌∷◌, assign, ltb, leb,
  ◌==◌, if◌then◌else◌,
}
use concurrencia.Worker.{Task, Action}

-- The cells of the counter, and the rounds that each thread has made.
pub record System : Type 0 where
  pub counter : ℕ → ℕ
  pub rounds : ℕ → ℕ

-- `pthread_create` for every thread.
abbrev pub create : System
create = record { counter = λ j. 0; rounds = λ i. 0 }

-- Whether the environment lets an attempt through.
abbrev pub goes_through : Bool → ℕ → Bool
goes_through true c = c == 0
goes_through false c = true

module _ (task : Task) where
  open task use {cell, writes, report}

  -- What one round does to the cells.
  unfoldable pub commit : (ℕ → ℕ) → ℕ → ℕ → ℕ
  commit k r = if writes r then assign k (cell r) (k (cell r) + 1) else k

  module _ (retries : Bool) (threads max : ℕ) where
    -- The next round of thread `i`. A transaction that the environment aborts leaves no trace, and
    -- the thread tries the round again.
    unfoldable pub count : ℕ → ℕ → System → System
    count i c s =
        if ltb (s.rounds i) max && goes_through retries c
        then record {
          counter = commit s.counter (s.rounds i);
          rounds = assign s.rounds i (suc (s.rounds i));
        }
        else s

    unfoldable pub tick : System → Action → System
    tick s a = if ltb a.thread threads then count a.thread a.choice s else s

    unfoldable pub run : List Action → System → System
    run [] s = s
    run (a ∷ rest) s = run rest (tick s a)

    unfoldable pub all_done : ℕ → (ℕ → ℕ) → Bool
    all_done zero rs = true
    all_done (suc n) rs = leb max (rs n) && all_done n rs

    unfoldable pub join : System → Option ℕ
    join s = if all_done threads s.rounds then some (report s.counter) else none

    -- What the program prints as its counter after the given steps.
    unfoldable pub main : List Action → Option ℕ
    main actions = join (run actions create)
