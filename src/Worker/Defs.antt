-- ===== src/Worker/Defs.antt =====
-- Threads that count under a lock, interleaved in any order.
use concurrencia.Base.{
  ℕ, zero, suc, ◌+◌, Bool, true, false, ◌&&◌, Option, none, some, List, [], ◌∷◌, assign, ltb, leb,
  if◌then◌else◌,
}
use concurrencia.Lock.{Phase, outside, inside, is_inside, Lock}

-- How far `counter += 1` has come in this round: a load and a store of the shared variable.
pub data Stage : Type 0 where
  start : Stage
  loaded : ℕ → Stage
  stored : Stage

pub record Worker (L : Type 0) : Type 0 where
  pub place : L
  pub round : ℕ
  pub stage : Stage

-- A thread's number, and what the environment chooses for its step.
pub record Action : Type 0 where
  pub thread : ℕ
  pub choice : ℕ

-- What is left of a worker when a step of the lock has brought it to `p`: the return of `unlock`
-- ends a round of the loop.
abbrev pub settle : {L : Type 0} → Phase → Stage → ℕ → L → Worker L
settle outside stored k p = record { place = p; round = suc k; stage = start }
settle _ g k p = record { place = p; round = k; stage = g }

-- What a round does in the critical section: which cell of the counter it loads, and whether it
-- stores what it loaded plus 1; and what the program prints of the cells.
pub record Task : Type 0 where
  pub cell : ℕ → ℕ
  pub writes : ℕ → Bool
  pub report : (ℕ → ℕ) → ℕ

-- `counter += 1` on one variable, in every round.
abbrev pub plain : Task
plain = record { cell = λ r. 0; writes = λ r. true; report = λ k. k 0 }

module _ (l : Lock) where
  open l use {Shared, Local, shared, local, step, phase}

  pub record System : Type 0 where
    pub lock : Shared
    pub counter : ℕ → ℕ
    pub workers : ℕ → Worker Local

  -- What one step of a thread leaves behind.
  pub record Turn : Type 0 where
    pub lock : Shared
    pub counter : ℕ → ℕ
    pub worker : Worker Local

  unfoldable pub lock_turn : ℕ → ℕ → Shared → (ℕ → ℕ) → Worker Local → Turn
  lock_turn i c s k w = record {
    lock = (step i c s w.place).0;
    counter = k;
    worker = settle (phase (step i c s w.place).1) w.stage w.round (step i c s w.place).1;
  }

module _ (l : Lock) (task : Task) where
  open l use {Shared, Local, shared, local, step, phase}
  open task use {cell, writes, report}

  unfoldable pub body_turn : Stage → ℕ → ℕ → Shared → (ℕ → ℕ) → Worker Local → Turn l
  body_turn start i c s k w = record {
    lock = s;
    counter = k;
    worker = record w { stage = loaded (k (cell w.round)) };
  }
  body_turn (loaded v) i c s k w = record {
    lock = s;
    counter = if writes w.round then assign k (cell w.round) (v + 1) else k;
    worker = record w { stage = stored };
  }
  body_turn stored i c s k w = lock_turn l i c s k w

  -- `for (i=0; i < max; i++) { lock(); ...; unlock(); }`: the step of a thread by its phase.
  -- A thread that has left the loop does nothing.
  unfoldable pub loop_turn : ℕ → Phase → ℕ → ℕ → Shared → (ℕ → ℕ) → Worker Local → Turn l
  loop_turn max outside i c s k w =
      if ltb w.round max
      then lock_turn l i c s k w
      else record { lock = s; counter = k; worker = w }
  loop_turn max inside i c s k w = body_turn w.stage i c s k w
  loop_turn max _ i c s k w = lock_turn l i c s k w

  module _ (threads max : ℕ) where
    unfoldable pub worker_turn : ℕ → ℕ → Shared → (ℕ → ℕ) → Worker Local → Turn l
    worker_turn i c s k w = loop_turn max (phase w.place) i c s k w

    -- One step of the program; a number that names no thread does nothing.
    unfoldable pub tick : System l → Action → System l
    tick s a =
        if ltb a.thread threads
        then record {
          lock = (worker_turn a.thread a.choice s.lock s.counter (s.workers a.thread)).lock;
          counter = (worker_turn a.thread a.choice s.lock s.counter (s.workers a.thread)).counter;
          workers =
              assign s.workers a.thread
                (worker_turn a.thread a.choice s.lock s.counter (s.workers a.thread)).worker;
        }
        else s

    unfoldable pub run : List Action → System l → System l
    run [] s = s
    run (a ∷ rest) s = run rest (tick s a)

    -- `pthread_create` for every thread, over the variables' initial values.
    unfoldable pub create : System l
    create = record {
      lock = shared;
      counter = λ j. 0;
      workers = λ i. record { place = local i; round = 0; stage = start };
    }

    abbrev pub is_done : Worker Local → Bool
    is_done w = elim (phase w.place) [ outside ↦ leb max w.round | _ ↦ false ]

    unfoldable pub all_done : ℕ → (ℕ → Worker Local) → Bool
    all_done zero ws = true
    all_done (suc n) ws = is_done (ws n) && all_done n ws

    -- `pthread_join` for every thread, then the print: nothing is printed while a thread runs.
    unfoldable pub join : System l → Option ℕ
    join s = if all_done threads s.workers then some (report s.counter) else none

    -- What the program prints as its counter after the given steps.
    unfoldable pub main : List Action → Option ℕ
    unfolding create
    main actions = join (run actions create)

    -- Thread `i` stands between the return of `lock` and the call of `unlock`.
    unfoldable pub in_critical : List Action → ℕ → Bool
    in_critical actions i =
        ltb i threads && is_inside (phase ((run actions create).workers i).place)
