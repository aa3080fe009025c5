-- ===== src/Peterson/Defs.antt =====
-- intro/peterson.c: `lock`, `unlock`, `count` and `main`.
use concurrencia.Base.{
  ℕ, suc, ◌+◌, ◌%◌, Bool, false, ◌&&◌, Option, none, some, List, [], ◌∷◌, assign, ltb, leb, ◌==◌,
  if◌then◌else◌,
}
use concurrencia.Worker.{Action}

abbrev pub num_threads : ℕ
num_threads = 2

abbrev pub max_count : ℕ
max_count = 10000000

-- `top` is before the loop's test; in `lock`, before the store of `turn`, the load of `states[j]`,
-- and the load of `turn`; then before the load and the store of the counter, and `unlock`.
pub data Place : Type 0 where
  top raised checking turning held : Place
  loaded : ℕ → Place
  stored : Place

pub record Thread : Type 0 where
  pub place : Place
  pub round : ℕ

pub record System : Type 0 where
  pub states : ℕ → ℕ
  pub turn : ℕ
  pub counter : ℕ
  pub threads : ℕ → Thread

-- What one step of thread `i` leaves behind; `state` is `states[i]`.
pub record Move : Type 0 where
  pub state : ℕ
  pub turn : ℕ
  pub counter : ℕ
  pub thread : Thread

abbrev pub leaves : ℕ → ℕ → ℕ → Place → ℕ → Move
leaves s t k p r = record {
  state = s;
  turn = t;
  counter = k;
  thread = record { place = p; round = r };
}

-- `(i + 1) % 2`
abbrev pub other : ℕ → ℕ
other i = (i + 1) % 2

module _ (max : ℕ) where
  -- One step of thread `i` in round `r`: `mine` is `states[i]`, `theirs` is `states[j]`. The test of
  -- `while (states[j] && turn == j)` loads `turn` only if `states[j]` is set.
  unfoldable pub move : Place → (i mine theirs turn counter r : ℕ) → Move
  move top i mine theirs t k r = if ltb r max then leaves 1 t k raised r else leaves mine t k top r
  move raised i mine theirs t k r = leaves mine (other i) k checking r
  move checking i mine theirs t k r = leaves mine t k (if theirs == 0 then held else turning) r
  move turning i mine theirs t k r = leaves mine t k (if t == other i then checking else held) r
  move held i mine theirs t k r = leaves mine t k (loaded k) r
  move (loaded v) i mine theirs t k r = leaves mine t (v + 1) stored r
  move stored i mine theirs t k r = leaves 0 t k top (suc r)

  unfoldable pub count : ℕ → System → Move
  count i s =
      move (s.threads i).place i (s.states i) (s.states (other i)) s.turn s.counter
        (s.threads i).round

  -- One step of the program; a number that names no thread does nothing.
  unfoldable pub tick : System → Action → System
  tick s a =
      if ltb a.thread num_threads
      then record {
        states = assign s.states a.thread (count a.thread s).state;
        turn = (count a.thread s).turn;
        counter = (count a.thread s).counter;
        threads = assign s.threads a.thread (count a.thread s).thread;
      }
      else s

  unfoldable pub run : List Action → System → System
  run [] s = s
  run (a ∷ rest) s = run rest (tick s a)

  -- `pthread_create` for both threads, over the variables' initial values.
  abbrev pub create : System
  create = record {
    states = λ i. 0;
    turn = 0;
    counter = 0;
    threads = λ i. record { place = top; round = 0 };
  }

  abbrev pub is_done : Thread → Bool
  is_done w = elim w.place [ top ↦ leb max w.round | _ ↦ false ]

  -- `pthread_join` for both threads, then the print.
  unfoldable pub join : System → Option ℕ
  join s = if is_done (s.threads 0) && is_done (s.threads 1) then some s.counter else none

  -- What the program prints as its counter after the given steps.
  unfoldable pub main : List Action → Option ℕ
  main actions = join (run actions create)
