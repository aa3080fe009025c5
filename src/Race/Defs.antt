-- ===== src/Race/Defs.antt =====
-- Threads that add to a shared counter with no lock: a load, and later a store.
use concurrencia.Base.{
  ℕ, zero, suc, ◌+◌, Bool, true, ◌&&◌, Option, none, some, List, [], ◌∷◌, assign, ltb, leb,
  if◌then◌else◌,
}
use concurrencia.Worker.{Action}

-- Before the load, or before the store of what was loaded.
pub data Place : Type 0 where
  ready : Place
  loaded : (v : ℕ) → Place

pub record Thread : Type 0 where
  pub place : Place
  pub round : ℕ

pub record System : Type 0 where
  pub counter : ℕ
  pub threads : ℕ → Thread

-- What one step leaves behind.
pub record Turn : Type 0 where
  pub counter : ℕ
  pub thread : Thread

-- `counter += amount`, `max` times.
unfoldable pub add_turn : ℕ → ℕ → ℕ → Place → ℕ → Turn
add_turn amount max k ready r =
    if ltb r max
    then record { counter = k; thread = record { place = loaded k; round = r } }
    else record { counter = k; thread = record { place = ready; round = r } }
add_turn amount max k (loaded v) r = record {
  counter = v + amount;
  thread = record { place = ready; round = suc r };
}

module _ (amount num_threads max : ℕ) where
  unfoldable pub turn : System → ℕ → Turn
  turn s i = add_turn amount max s.counter (s.threads i).place (s.threads i).round

  unfoldable pub tick : System → Action → System
  tick s a =
      if ltb a.thread num_threads
      then record {
        counter = (turn s a.thread).counter;
        threads = assign s.threads a.thread (turn s a.thread).thread;
      }
      else s

  unfoldable pub run : List Action → System → System
  run [] s = s
  run (a ∷ rest) s = run rest (tick s a)

  -- `pthread_create` for every thread.
  abbrev pub create : System
  create = record { counter = 0; threads = λ i. record { place = ready; round = 0 } }

  unfoldable pub all_done : ℕ → (ℕ → Thread) → Bool
  all_done zero ts = true
  all_done (suc n) ts = leb max (ts n).round && all_done n ts

  unfoldable pub join : System → Option ℕ
  join s = if all_done num_threads s.threads then some s.counter else none

  -- What the program prints as its counter after the given steps.
  unfoldable pub main : List Action → Option ℕ
  main actions = join (run actions create)
