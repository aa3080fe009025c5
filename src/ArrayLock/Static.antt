-- ===== src/ArrayLock/Static.antt =====
-- spinlocks/array_lock.c, whose array is static and whose padding is fixed.
use concurrencia.Base.{
  ℕ, ◌+◌, ◌*◌, ◌/◌, ◌%◌, ◌^◌, ◌≡◌, refl, ap, ◌⊎◌, inl, inr, Bool, true, Option, none, some, List,
  ◌++◌, arith, assign, ◌==◌, if◌then◌else◌, Bool-cases,
}
use concurrencia.Lock.{Lock, Laws}
use concurrencia.Lock.Stutter.{Stutter, stutter_laws}
use concurrencia.Worker
use concurrencia.Worker.{plain, Worker, Turn, Action}
use concurrencia.ArrayLock.VariableSize.Defs
use concurrencia.ArrayLock.VariableSize.Defs.{Memory, Fits, Cleared}
use concurrencia.ArrayLock.VariableSize.Results

abbrev pub num_threads : ℕ
num_threads = 4

abbrev pub max_count : ℕ
max_count = 10000000

abbrev pub padding : ℕ
padding = 32

abbrev pub size : ℕ
size = num_threads * padding

-- In `lock`: before the load of `flag[*my_index]`, and the store of it. Then inside.
pub data Local : Type 0 where
  idle : Local
  waiting clearing held : (my_index : ℕ) → Local

unfoldable pub step : ℕ → ℕ → Memory → Local → Memory × Local
step i c s idle =
    (record s { tail = (s.tail + 1) % 2 ^ 16 }, waiting (s.tail % num_threads * padding % 2 ^ 16))
step i c s (waiting x) = (s, if s.flag x == 0 then waiting x else clearing x)
step i c s (clearing x) = (record s { flag = assign s.flag x 0 }, held x)
step i c s (held x) = (record s { flag = assign s.flag ((x + padding) % size) 1 }, idle)

-- Static memory holds zeros.
abbrev pub zeros : ℕ → ℕ
zeros x = 0

-- The same place in spinlocks/array_lock_variable_size.c.
abbrev pub view : Local → Defs.Local
view idle = Defs.idle
view (waiting x) = Defs.waiting x
view (clearing x) = Defs.clearing x
view (held x) = Defs.held x

-- The variables after `flag[0] = 1`.
abbrev pub lock : Lock
lock = record {
  Shared = Memory;
  Local = Local;
  shared = record { tail = 0; flag = assign zeros 0 1 };
  local = λ i. idle;
  step = step;
  phase = λ p. Defs.phase (view p);
}

-- The fixed padding and size are what the other file computes from an argument of 32.
pub step-view :
    (i c : ℕ) (s : Memory) (p : Local)
    → ((step i c s p).0 ≡ (Defs.step padding i c s (view p)).0)
      × (view (step i c s p).1 ≡ (Defs.step padding i c s (view p)).1)
unfolding step Defs.step
step-view i c s idle = (refl, ap Defs.waiting (omega arith))
step-view i c s (waiting x) = elim (Bool-cases (s.flag x == 0)) [
  | inl e ↦ rw e (refl, refl)
  | inr e ↦ rw e (refl, refl)
]
step-view i c s (clearing x) = (refl, refl)
step-view i c s (held x) = (ap (λ y. record s { flag = assign s.flag y 1 }) (omega arith), refl)

abbrev fixed : Stutter (Defs.lock padding zeros)
fixed = record {
  Local = Local;
  local = λ i. idle;
  step = step;
  view = view;
  pause = λ p. 0;
  view_first = λ i. refl;
  pause-le = λ p. omega arith;
  goes = λ i c s p. inl (refl, (step-view i c s p).0, (step-view i c s p).1);
}

lock_laws : Laws num_threads lock
lock_laws = stutter_laws num_threads (Defs.lock padding zeros) fixed (
    Results.lock_laws padding num_threads zeros
      (record { some_padding = omega arith; small = omega arith }) (omega arith)
      (record { zeros = λ x. refl }))

-- One step of a thread that runs `count`.
unfoldable pub count : ℕ → ℕ → Memory → (ℕ → ℕ) → Worker Local → Turn lock
count = Worker.worker_turn lock plain num_threads (max_count / num_threads)

-- What `main` prints as the counter, if the threads have all ended after the given steps.
unfoldable pub main : List Action → Option ℕ
main = Worker.main lock plain num_threads (max_count / num_threads)

-- Thread `i` is between the return of `lock` and the call of `unlock`.
unfoldable pub in_critical : List Action → ℕ → Bool
in_critical = Worker.in_critical lock plain num_threads (max_count / num_threads)

pub main-prints :
    (actions : List Action)
    → ((main actions ≡ none) ⊎ (main actions ≡ some max_count))
      × ((rest : List Action) × (main (actions ++ rest) ≡ some max_count))
unfolding main
main-prints = Worker.prints_plain num_threads (max_count / num_threads) lock lock_laws

pub critical-excludes :
    (actions : List Action) (i j : ℕ)
    → in_critical actions i ≡ true
    → in_critical actions j ≡ true
    → i ≡ j
unfolding in_critical
critical-excludes = Worker.excludes num_threads (max_count / num_threads) lock plain lock_laws
