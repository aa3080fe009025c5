-- ===== src/Futex/SimpleMutex/Defs.antt =====
-- futex/simple_mutex.c: `lock` and `unlock`.
use concurrencia.Base.{ℕ, ◌+◌, ◌-◌, ◌&&◌, not, ltb, ◌==◌, if◌then◌else◌}
use concurrencia.Lock.{Phase, outside, entering, inside, leaving, Lock}
use concurrencia.Futex.Calls.{Kernel}

-- In `lock`: before the exchange, the addition to `waiters`, the call of `FUTEX_WAIT`, in that call,
-- and before the subtraction. In `unlock`: before the test of `waiters`, and the call of `FUTEX_WAKE`.
pub data Local : Type 0 where
  idle trying adding waiting sleeping removing held releasing waking : Local

abbrev pub phase : Local → Phase
phase idle = outside
phase held = inside
phase releasing = leaving
phase waking = leaving
phase _ = entering

module _ (kernel : Kernel) where
  open kernel use {Queue, empty, asleep, sleep, wake, leave, interrupted}

  -- `struct simple_futex`, and the threads that sleep on `locked`.
  pub record SimpleFutex : Type 0 where
    pub locked : ℕ
    pub waiters : ℕ
    pub queue : Queue

  unfoldable pub step : ℕ → ℕ → SimpleFutex → Local → SimpleFutex × Local
  step i c s idle = (record s { locked = 1 }, if s.locked == 0 then held else adding)
  step i c s trying = (record s { locked = 1 }, if s.locked == 0 then held else adding)
  step i c s adding = (record s { waiters = s.waiters + 1 }, waiting)
  step i c s waiting =
      if s.locked == 1 then (record s { queue = sleep i s.queue }, sleeping) else (s, removing)
  step i c s sleeping =
      if asleep s.queue i && not (interrupted c)
      then (s, sleeping)
      else (record s { queue = leave i s.queue }, removing)
  step i c s removing = (record s { waiters = s.waiters - 1 }, trying)
  step i c s held = (record s { locked = 0 }, releasing)
  step i c s releasing = (s, if ltb 0 s.waiters then waking else idle)
  step i c s waking = (record s { queue = wake 1 c s.queue }, idle)

  abbrev pub lock : Lock
  lock = record {
    Shared = SimpleFutex;
    Local = Local;
    shared = record { locked = 0; waiters = 0; queue = empty };
    local = λ i. idle;
    step = step;
    phase = phase;
  }
