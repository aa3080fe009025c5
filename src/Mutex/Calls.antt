-- ===== src/Mutex/Calls.antt =====
-- The system's mutexes and semaphores, parameters: what pthread_mutex_lock(3p), sem_overview(7) and
-- their pages document. A call that blocks gives `none`, and the thread tries again; the number is a
-- choice of the system.
use concurrencia.Base.{ℕ, ◌+◌, ◌≤◌, ◌<◌, ◌≡◌, Bool, true, false, Option, none, some}

-- `initializer` is `PTHREAD_MUTEX_INITIALIZER`.
pub record Mutexes : Type 1 where
  pub Mutex : Type 0
  pub initializer : Mutex
  pub is_locked : Mutex → Bool
  pub lock : ℕ → Mutex → Option Mutex
  pub unlock : Mutex → Mutex

-- A mutex is unlocked first; locking blocks while it is locked, and else locks it.
pub record MutexesDocumented (m : Mutexes) : Type 0 where
  pub is_locked-initializer : m.is_locked m.initializer ≡ false
  pub lock-locked : (c : ℕ) (s : m.Mutex) → m.is_locked s ≡ true → m.lock c s ≡ none
  pub lock-unlocked :
      (c : ℕ) (s : m.Mutex)
      → m.is_locked s ≡ false
      → (s' : m.Mutex) × (m.lock c s ≡ some s') × (m.is_locked s' ≡ true)
  pub is_locked-unlock : (s : m.Mutex) → m.is_locked s ≡ true → m.is_locked (m.unlock s) ≡ false

-- `init` is `sem_init` with its last argument, `value` what `sem_getvalue` gives.
pub record Semaphores : Type 1 where
  pub Semaphore : Type 0
  pub init : ℕ → Semaphore
  pub value : Semaphore → ℕ
  pub wait : ℕ → Semaphore → Option Semaphore
  pub post : Semaphore → Semaphore

-- The least `SEM_VALUE_MAX` that a system may have.
abbrev pub value_max : ℕ
value_max = 32767

-- Waiting blocks while the value is 0, and else lowers it by 1; posting raises it by 1.
pub record SemaphoresDocumented (m : Semaphores) : Type 0 where
  pub value-init : (v : ℕ) → v ≤ value_max → m.value (m.init v) ≡ v
  pub wait-zero : (c : ℕ) (s : m.Semaphore) → m.value s ≡ 0 → m.wait c s ≡ none
  pub wait-positive :
      (c : ℕ) (s : m.Semaphore)
      → 0 < m.value s
      → (s' : m.Semaphore) × (m.wait c s ≡ some s') × (m.value s' + 1 ≡ m.value s)
  pub value-post : (s : m.Semaphore) → m.value s < value_max → m.value (m.post s) ≡ m.value s + 1
