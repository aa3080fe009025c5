-- ===== src/RwLock/Defs.antt =====
-- spinlocks/rw_lock.c: the functions of the lock, `count` and `main`. The top bit of the word says
-- that a writer has the lock, or waits for it alone; the other bits count the readers.
use concurrencia.Base.{
  ℕ, zero, suc, ◌+◌, ◌-◌, ◌%◌, ◌^◌, Bool, true, false, ◌&&◌, Option, none, some, List, [], ◌∷◌,
  assign, ltb, leb, ◌==◌, if◌then◌else◌,
}
use concurrencia.Worker.{Action}

abbrev pub num_threads : ℕ
num_threads = 4

abbrev pub max_count : ℕ
max_count = 10000000

-- `top` is before the loop's test. For a reader and a writer: before the loop on the top bit, the
-- load of `old`, and the compare-exchange. A reader is then before its load of the counter and
-- before `reader_unlock`; a writer before the loop on the readers, the load and the store of the
-- counter, and `writer_unlock`.
pub data Place : Type 0 where
  top reader_spin reader_load : Place
  reader_swap : (old : ℕ) → Place
  reading : Place
  copied : (c : ℕ) → Place
  writer_spin writer_load : Place
  writer_swap : (old : ℕ) → Place
  draining writing : Place
  loaded : ℕ → Place
  stored : Place

pub record Thread : Type 0 where
  pub place : Place
  pub round : ℕ

pub record System : Type 0 where
  pub rw_lock : ℕ
  pub counter : ℕ
  pub threads : ℕ → Thread

-- What one step of a thread leaves behind.
pub record Turn : Type 0 where
  pub rw_lock : ℕ
  pub counter : ℕ
  pub thread : Thread

abbrev pub leaves : ℕ → ℕ → Place → ℕ → Turn
leaves x k p r = record { rw_lock = x; counter = k; thread = record { place = p; round = r } }

-- `rw_lock & 0x80000000`
abbrev pub has_writer : ℕ → Bool
has_writer x = leb (2 ^ 31) x

-- `rw_lock & 0x7fffffff`
abbrev pub readers_of : ℕ → ℕ
readers_of x = x % 2 ^ 31

module _ (n max : ℕ) where
  -- One step of a thread in round `r`, over the word `x` and the counter `k`. `old` has no top bit,
  -- so `old | 0x80000000` is a sum.
  unfoldable pub turn : Place → ℕ → ℕ → ℕ → Turn
  turn top x k r =
      leaves x k (if ltb r max then (if r % 10 == 0 then writer_spin else reader_spin) else top) r
  turn reader_spin x k r = leaves x k (if has_writer x then reader_spin else reader_load) r
  turn reader_load x k r = leaves x k (reader_swap (readers_of x)) r
  turn (reader_swap old) x k r =
      if x == old then leaves (old + 1) k reading r else leaves x k reader_spin r
  turn reading x k r = leaves x k (copied k) r
  turn (copied c) x k r = leaves ((x + (2 ^ 32 - 1)) % 2 ^ 32) k top (suc r)
  turn writer_spin x k r = leaves x k (if has_writer x then writer_spin else writer_load) r
  turn writer_load x k r = leaves x k (writer_swap (readers_of x)) r
  turn (writer_swap old) x k r =
      if x == old then leaves (old + 2 ^ 31) k draining r else leaves x k writer_spin r
  turn draining x k r = leaves x k (if readers_of x == 0 then writing else draining) r
  turn writing x k r = leaves x k (loaded k) r
  turn (loaded v) x k r = leaves x (v + 1) stored r
  turn stored x k r = leaves 0 k top (suc r)

  unfoldable pub count : System → Thread → Turn
  count s w = turn w.place s.rw_lock s.counter w.round

  -- One step of the program; a number that names no thread does nothing.
  unfoldable pub tick : System → Action → System
  tick s a =
      if ltb a.thread n
      then record {
        rw_lock = (count s (s.threads a.thread)).rw_lock;
        counter = (count s (s.threads a.thread)).counter;
        threads = assign s.threads a.thread (count s (s.threads a.thread)).thread;
      }
      else s

  unfoldable pub run : List Action → System → System
  run [] s = s
  run (a ∷ rest) s = run rest (tick s a)

  -- `pthread_create` for every thread, over the variables' initial values.
  abbrev pub create : System
  create = record { rw_lock = 0; counter = 0; threads = λ i. record { place = top; round = 0 } }

  abbrev pub is_done : Thread → Bool
  is_done w = elim w.place [ top ↦ leb max w.round | _ ↦ false ]

  unfoldable pub all_done : ℕ → (ℕ → Thread) → Bool
  all_done zero ws = true
  all_done (suc m) ws = is_done (ws m) && all_done m ws

  -- `pthread_join` for every thread, then the print.
  unfoldable pub join : System → Option ℕ
  join s = if all_done n s.threads then some s.counter else none

  -- What the program prints as its counter after the given steps.
  unfoldable pub main : List Action → Option ℕ
  main actions = join (run actions create)
