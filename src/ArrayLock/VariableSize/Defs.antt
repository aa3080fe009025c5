-- ===== src/ArrayLock/VariableSize/Defs.antt =====
-- spinlocks/array_lock_variable_size.c: `lock` and `unlock`, with the padding that `main` reads and
-- the bytes that `malloc` gives.
use concurrencia.Base.{ℕ, ◌+◌, ◌*◌, ◌%◌, ◌^◌, ◌≡◌, ◌<◌, ◌≤◌, assign, ◌==◌, if◌then◌else◌}
use concurrencia.Lock.{Phase, outside, entering, inside, Lock}

abbrev pub num_threads : ℕ
num_threads = 4

-- `tail` and `flag`, a byte at a time.
pub record Memory : Type 0 where
  pub tail : ℕ
  pub flag : ℕ → ℕ

-- In `lock`: before the load of `flag[*my_index]`, and the store of it. Then inside.
pub data Local : Type 0 where
  idle : Local
  waiting clearing held : (my_index : ℕ) → Local

abbrev pub phase : Local → Phase
phase idle = outside
phase (held x) = inside
phase _ = entering

module _ (padding : ℕ) where
  abbrev pub size : ℕ
  size = num_threads * padding % 2 ^ 32

  -- `(slot % NUM_THREADS) * PADDING`, an unsigned number that is stored in 16 bits.
  abbrev pub index : ℕ → ℕ
  index slot = slot % num_threads * padding % 2 ^ 32 % 2 ^ 16

  -- `(*my_index+PADDING) % SIZE`
  abbrev pub next : ℕ → ℕ
  next x = (x + padding) % 2 ^ 32 % size

  unfoldable pub step : ℕ → ℕ → Memory → Local → Memory × Local
  step i c s idle = (record s { tail = (s.tail + 1) % 2 ^ 16 }, waiting (index s.tail))
  step i c s (waiting x) = (s, if s.flag x == 0 then waiting x else clearing x)
  step i c s (clearing x) = (record s { flag = assign s.flag x 0 }, held x)
  step i c s (held x) = (record s { flag = assign s.flag (next x) 1 }, idle)

  -- The variables after `flag = malloc(SIZE)` and `flag[0] = 1`.
  abbrev pub lock : (malloc : ℕ → ℕ) → Lock
  lock malloc = record {
    Shared = Memory;
    Local = Local;
    shared = record { tail = 0; flag = assign malloc 0 1 };
    local = λ i. idle;
    step = step;
    phase = phase;
  }

-- The cells of the four threads lie within 2^16 bytes.
pub record Fits (padding : ℕ) : Type 0 where
  pub some_padding : 0 < padding
  pub small : padding ≤ 2 ^ 14

-- Memory that holds zeros, as the array of spinlocks/array_lock.c does; `malloc` does not promise it.
pub record Cleared (memory : ℕ → ℕ) : Type 0 where
  pub zeros : (x : ℕ) → memory x ≡ 0
