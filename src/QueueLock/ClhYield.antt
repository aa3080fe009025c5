-- ===== src/QueueLock/ClhYield.antt =====
-- spinlocks/clh_spinlock_yield.c: as spinlocks/clh_spinlock.c, with a `sched_yield` in the loop of
-- `lock`. The memory and `malloc` are modelled with that file.
use concurrencia.Base.{
  ℕ, ◌/◌, ◌≤◌, ◌≡◌, refl, ◌⊎◌, inl, inr, Bool, true, Option, none, some, List, ◌++◌, arith, assign,
  ◌==◌, if◌then◌else◌, Bool-cases,
}
use concurrencia.Lock.{Lock, is_busy}
use concurrencia.Lock.Stutter.{Stutter, stutter_laws}
use concurrencia.Worker
use concurrencia.Worker.{plain, Worker, Turn, Action}
use concurrencia.QueueLock.Clh.Defs
use concurrencia.QueueLock.Clh.Defs.{Malloc, Fresh, Memory}
use concurrencia.QueueLock.Clh.Results.{lock_laws}

abbrev pub num_threads : ℕ
num_threads = 4

abbrev pub max_count : ℕ
max_count = 10000000

-- `yielding` is before the `sched_yield`; the other places are those of spinlocks/clh_spinlock.c.
pub data Local : Type 0 where
  idle marked : (node : ℕ) → Local
  linking spinning yielding : (node predecessor : ℕ) → Local
  held : (node : ℕ) → Local
  freeing : (tmp pred : ℕ) → Local

unfoldable pub step : ℕ → ℕ → Memory → Local → Memory × Local
step i c s (idle x) = (record s { locked = assign s.locked x 1 }, marked x)
step i c s (marked x) = (record s { tail = x }, linking x s.tail)
step i c s (linking x p) = (record s { prev = assign s.prev x p }, spinning x p)
step i c s (spinning x p) = (s, if s.locked p == 0 then held x else yielding x p)
step i c s (yielding x p) = (s, spinning x p)
step i c s (held x) = (s, freeing x (s.prev x))
step i c s (freeing x p) = (record s { locked = assign s.locked x 0 }, idle p)

-- Where the thread would stand without the `sched_yield`.
abbrev pub view : Local → Defs.Local
view (idle x) = Defs.idle x
view (marked x) = Defs.marked x
view (linking x p) = Defs.linking x p
view (spinning x p) = Defs.spinning x p
view (yielding x p) = Defs.spinning x p
view (held x) = Defs.held x
view (freeing x p) = Defs.freeing x p

abbrev pause : Local → ℕ
pause (yielding x p) = 1
pause _ = 0

pause-le : (p : Local) → pause p ≤ 1
pause-le p = ground arith

module _ (malloc : Malloc) where
  goes :
      (i c : ℕ) (s : Memory) (p : Local)
      → ((pause p ≡ 0)
          × ((step i c s p).0 ≡ (Defs.step i c s (view p)).0)
          × (view (step i c s p).1 ≡ (Defs.step i c s (view p)).1))
        ⊎ ((pause p ≡ 1)
            × ((step i c s p).0 ≡ s)
            × (view (step i c s p).1 ≡ view p)
            × (pause (step i c s p).1 ≡ 0)
            × (is_busy (Defs.phase (view p)) ≡ true))
  unfolding step Defs.step
  goes i c s (idle x) = inl (refl, refl, refl)
  goes i c s (marked x) = inl (refl, refl, refl)
  goes i c s (linking x p) = inl (refl, refl, refl)
  goes i c s (spinning x p) = elim (Bool-cases (s.locked p == 0)) [
    | inl e ↦ rw e (inl (refl, refl, refl))
    | inr e ↦ rw e (inl (refl, refl, refl))
  ]
  goes i c s (yielding x p) = inr (refl, refl, refl, refl, refl)
  goes i c s (held x) = inl (refl, refl, refl)
  goes i c s (freeing x p) = inl (refl, refl, refl)

  abbrev yields : Stutter (Defs.lock malloc)
  yields = record {
    Local = Local;
    local = λ i. idle (malloc.address i);
    step = step;
    view = view;
    pause = pause;
    view_first = λ i. refl;
    pause-le = pause-le;
    goes = goes;
  }

  abbrev pub lock : Lock
  lock = record {
    Shared = Memory;
    Local = Local;
    shared = (Defs.lock malloc).shared;
    local = λ i. idle (malloc.address i);
    step = step;
    phase = λ p. Defs.phase (view p);
  }

  -- One step of a thread that runs `count`.
  unfoldable pub count : ℕ → ℕ → Memory → (ℕ → ℕ) → Worker Local → Turn lock
  count = Worker.worker_turn lock plain num_threads (max_count / num_threads)

  -- What `main` prints as the counter, if the threads have all ended after the given steps.
  unfoldable pub main : List Action → Option ℕ
  main = Worker.main lock plain num_threads (max_count / num_threads)

  -- Thread `i` is between the return of `lock` and the call of `unlock`.
  unfoldable pub in_critical : List Action → ℕ → Bool
  in_critical = Worker.in_critical lock plain num_threads (max_count / num_threads)

  module _ (fresh : Fresh malloc) where
    pub main-prints :
        (actions : List Action)
        → ((main actions ≡ none) ⊎ (main actions ≡ some max_count))
          × ((rest : List Action) × (main (actions ++ rest) ≡ some max_count))
    unfolding main
    main-prints =
        Worker.prints_plain num_threads (max_count / num_threads) lock
          (stutter_laws num_threads (Defs.lock malloc) yields (lock_laws num_threads malloc fresh))

    pub critical-excludes :
        (actions : List Action) (i j : ℕ)
        → in_critical actions i ≡ true
        → in_critical actions j ≡ true
        → i ≡ j
    unfolding in_critical
    critical-excludes =
        Worker.excludes num_threads (max_count / num_threads) lock plain
          (stutter_laws num_threads (Defs.lock malloc) yields (lock_laws num_threads malloc fresh))
