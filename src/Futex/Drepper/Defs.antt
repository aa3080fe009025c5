-- ===== src/Futex/Drepper/Defs.antt =====
-- futex/mutex_drepper.c: `lock` and `unlock`.
use concurrencia.Base.{ℕ, ◌-◌, ◌&&◌, not, ◌==◌, if◌then◌else◌}
use concurrencia.Lock.{Phase, outside, entering, inside, leaving, Lock}
use concurrencia.Futex.Calls.{Kernel}

-- In `lock`: before the first exchange, the call of `FUTEX_WAIT`, in that call, and before the exchange
-- in the loop. In `unlock`: before the store, and before the call of `FUTEX_WAKE`. The first step of
-- `lock` is the compare-exchange, and of `unlock` the subtraction.
pub data Local : Type 0 where
  idle swapping waiting sleeping again held releasing waking : Local

abbrev pub phase : Local → Phase
phase idle = outside
phase held = inside
phase releasing = leaving
phase waking = leaving
phase _ = entering

module _ (kernel : Kernel) where
  open kernel use {Queue, empty, asleep, sleep, wake, leave, interrupted}

  -- The futex, 0 unlocked, 1 locked, 2 locked with waiters, and the threads that sleep on it.
  pub record Mutex : Type 0 where
    pub futex : ℕ
    pub queue : Queue

  unfoldable pub step : ℕ → ℕ → Mutex → Local → Mutex × Local
  step i c s idle =
      if s.futex == 0
      then (record s { futex = 1 }, held)
      else (s, if s.futex == 2 then waiting else swapping)
  step i c s swapping = (record s { futex = 2 }, if s.futex == 0 then held else waiting)
  step i c s waiting =
      if s.futex == 2 then (record s { queue = sleep i s.queue }, sleeping) else (s, again)
  step i c s sleeping =
      if asleep s.queue i && not (interrupted c)
      then (s, sleeping)
      else (record s { queue = leave i s.queue }, again)
  step i c s again = (record s { futex = 2 }, if s.futex == 0 then held else waiting)
  step i c s held = (record s { futex = s.futex - 1 }, if s.futex == 1 then idle else releasing)
  step i c s releasing = (record s { futex = 0 }, waking)
  step i c s waking = (record s { queue = wake 1 c s.queue }, idle)

  abbrev pub lock : Lock
  lock = record {
    Shared = Mutex;
    Local = Local;
    shared = record { futex = 0; queue = empty };
    local = λ i. idle;
    step = step;
    phase = phase;
  }
