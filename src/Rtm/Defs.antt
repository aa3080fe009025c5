-- ===== src/Rtm/Defs.antt =====
-- Threads that count in hardware transactions, with a spin lock to fall back on: `rtm_lock`,
-- `rtm_unlock`, `count` and `main` of transactional/intel/mutex_rtm.c, array_rtm.c and rw_rtm.c.
use concurrencia.Base.{
  ℕ, zero, suc, ◌+◌, Bool, true, false, ◌&&◌, ◌||◌, not, Option, none, some, List, [], ◌∷◌, assign,
  ltb, leb, ◌==◌, if◌then◌else◌,
}
use concurrencia.Worker.{Task, Action}
use concurrencia.Atomic.Defs.{commit}

-- What `_XABORT_CODE` and `_XABORT_RETRY` say of a status, and the status after `_xabort(0xff)`.
pub record Intrinsics : Type 0 where
  pub code : ℕ → ℕ
  pub retry : ℕ → Bool
  pub explicit : ℕ

-- `top` is before the loop's test, `trying` before that of `rtm_lock` with its `c` and `status`,
-- `locking` before the exchange of `lock`; then the thread holds the lock: before the load, the
-- store, the test of `rtm_unlock`, and the store of `unlock`.
pub data Place : Type 0 where
  top : Place
  trying : (c status : ℕ) → Place
  locking held : Place
  loaded : ℕ → Place
  stored releasing : Place

pub record Thread : Type 0 where
  pub place : Place
  pub round : ℕ

pub record System : Type 0 where
  pub mutex : ℕ
  pub counter : ℕ → ℕ
  pub threads : ℕ → Thread

-- What one step of a thread leaves behind.
pub record Turn : Type 0 where
  pub mutex : ℕ
  pub counter : ℕ → ℕ
  pub thread : Thread

abbrev pub leaves : ℕ → (ℕ → ℕ) → Place → ℕ → Turn
leaves mutex k p r = record { mutex = mutex; counter = k; thread = record { place = p; round = r } }

-- The steps of the threads in a list, where the environment makes the choices of a sequence.
abbrev pub played : (environment : ℕ → ℕ) → List ℕ → List Action
played environment [] = []
played environment (i ∷ schedule) =
    record { thread = i; choice = environment 0 } ∷ played (λ k. environment (suc k)) schedule

module _ (intrinsics : Intrinsics) (task : Task) where
  open intrinsics use {code, retry, explicit}
  open task use {cell, writes, report}

  -- `c < 10 && (! status || _XABORT_CODE(status) || status & _XABORT_RETRY)`
  abbrev pub tries : ℕ → ℕ → Bool
  tries c status = ltb c 10 && (status == 0 || (not (code status == 0) || retry status))

  -- A transaction. The environment lets it run (0) or aborts it with a status. If it runs and finds
  -- the lock free, it makes the whole round in one step; if not, it aborts itself.
  unfoldable pub attempt : ℕ → ℕ → ℕ → (ℕ → ℕ) → ℕ → Turn
  attempt zero c mutex k r =
      if mutex == 0
      then leaves mutex (commit task k r) top (suc r)
      else leaves mutex k (trying (c + 1) explicit) r
  attempt (suc status) c mutex k r = leaves mutex k (trying (c + 1) status) r

  module _ (n max : ℕ) where
    -- One step of a thread; `choice` is what the environment does to a transaction. The test of
    -- `rtm_unlock` finds the lock taken; else `_xend` would fault, and the thread stays there.
    unfoldable pub turn : Place → ℕ → ℕ → (ℕ → ℕ) → ℕ → Turn
    turn top choice mutex k r = leaves mutex k (if ltb r max then trying 0 0 else top) r
    turn (trying c status) choice mutex k r =
        if tries c status then attempt choice c mutex k r else leaves mutex k locking r
    turn locking choice mutex k r = leaves 1 k (if mutex == 0 then held else locking) r
    turn held choice mutex k r = leaves mutex k (loaded (k (cell r))) r
    turn (loaded v) choice mutex k r =
        leaves mutex (if writes r then assign k (cell r) (v + 1) else k) stored r
    turn stored choice mutex k r = leaves mutex k (if mutex == 0 then stored else releasing) r
    turn releasing choice mutex k r = leaves 0 k top (suc r)

    unfoldable pub count : ℕ → System → Thread → Turn
    count choice s w = turn w.place choice s.mutex s.counter w.round

    -- One step of the program; a number that names no thread does nothing.
    unfoldable pub tick : System → Action → System
    tick s a =
        if ltb a.thread n
        then record {
          mutex = (count a.choice s (s.threads a.thread)).mutex;
          counter = (count a.choice s (s.threads a.thread)).counter;
          threads = assign s.threads a.thread (count a.choice s (s.threads a.thread)).thread;
        }
        else s

    unfoldable pub run : List Action → System → System
    run [] s = s
    run (a ∷ rest) s = run rest (tick s a)

    -- `pthread_create` for every thread, over the variables' initial values.
    abbrev pub create : System
    create = record {
      mutex = 0;
      counter = λ j. 0;
      threads = λ i. record { place = top; round = 0 };
    }

    abbrev pub is_done : Thread → Bool
    is_done w = elim w.place [ top ↦ leb max w.round | _ ↦ false ]

    unfoldable pub all_done : ℕ → (ℕ → Thread) → Bool
    all_done zero ws = true
    all_done (suc m) ws = is_done (ws m) && all_done m ws

    -- `pthread_join` for every thread, then the print.
    unfoldable pub join : System → Option ℕ
    join s = if all_done n s.threads then some (report s.counter) else none

    -- What the program prints as its counter after the given steps.
    unfoldable pub main : List Action → Option ℕ
    main actions = join (run actions create)
