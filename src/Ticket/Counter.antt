-- ===== src/Ticket/Counter.antt =====
-- hardware/counter_get_and_add.c
use concurrencia.Base.{
  ℕ, ◌+◌, ◌/◌, ◌%◌, ◌^◌, ◌≤◌, ◌<◌, ◌≡◌, refl, ◌⊎◌, inl, inr, Bool, true, false, Option, none, some,
  List, ◌++◌, arith, ◌==◌, if◌then◌else◌, Bool-cases, Option-cases,
}
use concurrencia.Lock.{Phase, outside, entering, inside, Lock, Laws}
use concurrencia.Lock.Tickets
use concurrencia.Worker
use concurrencia.Worker.{plain, Worker, Turn, Action}

abbrev pub num_threads : ℕ
num_threads = 4

abbrev pub max_count : ℕ
max_count = 10000000

-- `number` and `turn`, ints that the atomic increments wrap, as 32-bit patterns.
pub record Pair : Type 0 where
  pub turn : ℕ
  pub number : ℕ

-- `waiting` is before the read of `turn`, with the thread's own number.
pub data Local : Type 0 where
  idle : Local
  waiting : (mine : ℕ) → Local
  held : (mine : ℕ) → Local

-- `current = fetch_add(&number, 1); while (current != turn);`, and the increment of `unlock`. `held`
-- keeps the number for the proofs alone.
unfoldable pub step : ℕ → ℕ → Pair → Local → Pair × Local
step i c s idle = (record s { number = (s.number + 1) % 2 ^ 32 }, waiting s.number)
step i c s (waiting x) = (s, if x == s.turn then held x else waiting x)
step i c s (held x) = (record s { turn = (s.turn + 1) % 2 ^ 32 }, idle)

abbrev phase : Local → Phase
phase idle = outside
phase (held _) = inside
phase _ = entering

abbrev pub lock : Lock
lock = record {
  Shared = Pair;
  Local = Local;
  shared = record { turn = 0; number = 0 };
  local = λ _. idle;
  step = step;
  phase = phase;
}

abbrev ticket : Local → Option ℕ
ticket idle = none
ticket (waiting x) = some x
ticket (held x) = some x

abbrev served : Local → Bool
served (held _) = true
served _ = false

abbrev tickets : Tickets.Tickets (2 ^ 32) lock
tickets = record {
  number = λ (s : Pair). s.number;
  turn = λ (s : Pair). s.turn;
  ticket = ticket;
  served = served;
}

step-Kind :
    (i c : ℕ) (s : Pair) (p : Local)
    → s.number < 2 ^ 32
    → s.turn < 2 ^ 32
    → Tickets.Kind (2 ^ 32) lock tickets s p (step i c s p).0 (step i c s p).1
unfolding step
step-Kind i c s idle h k = Tickets.Kind.take refl refl (ground arith) refl refl
step-Kind i c s (waiting x) h k = elim (Bool-cases (x == s.turn)) [
  | inl e ↦ rw e (Tickets.Kind.stay refl refl refl (λ _. inr (ground arith)))
  | inr e ↦ rw e (Tickets.Kind.stay refl refl refl (λ f. inl f))
]
step-Kind i c s (held x) h k = Tickets.Kind.give refl refl refl (ground arith) refl

abbrev rank : Local → ℕ
rank (waiting _) = 1
rank _ = 0

rank-le : (p : Local) → rank p ≤ 1
rank-le p = ground arith

laws : Tickets.TicketLaws (2 ^ 32) lock tickets
unfolding step
laws = record {
  kind = step-Kind;
  first_turn = (omega arith, refl);
  first_local = λ i. (refl, refl);
  outside_ticket = λ p h. ground arith;
  inside_served = λ p h. ground arith;
  orderly = λ i c s p. ground arith;
  rank = rank;
  worst = 1;
  rank-le = rank-le;
  nearer = λ i s p h f. (0, ground arith);
}

enough : num_threads ≤ 2 ^ 32
enough = omega arith

pub lock_laws : Laws num_threads lock
lock_laws = Tickets.ticket_laws num_threads (2 ^ 32) lock tickets laws enough

-- One step of a thread that runs `count`.
unfoldable pub count : ℕ → ℕ → Pair → (ℕ → ℕ) → Worker Local → Turn lock
count = Worker.worker_turn lock plain num_threads (max_count / num_threads)

-- What `main` prints as the counter, if the threads have all ended after the given steps.
unfoldable pub main : List Action → Option ℕ
main = Worker.main lock plain num_threads (max_count / num_threads)

-- Thread `i` is between the return of `lock` and the call of `unlock`.
unfoldable pub in_critical : List Action → ℕ → Bool
in_critical = Worker.in_critical lock plain num_threads (max_count / num_threads)

pub main-prints :
    (actions : List Action)
    → ((main actions ≡ none) ⊎ (main actions ≡ some max_count))
      × ((rest : List Action) × (main (actions ++ rest) ≡ some max_count))
unfolding main
main-prints = Worker.prints_plain num_threads (max_count / num_threads) lock lock_laws

pub critical-excludes :
    (actions : List Action) (i j : ℕ)
    → in_critical actions i ≡ true
    → in_critical actions j ≡ true
    → i ≡ j
unfolding in_critical
critical-excludes = Worker.excludes num_threads (max_count / num_threads) lock plain lock_laws

-- What thread `i` waits for: the turns before its own, while it has a ticket.
unfoldable pub turns_before : List Action → ℕ → Option ℕ
turns_before actions i =
    let s =
      Worker.run lock plain num_threads (max_count / num_threads) actions
        (Worker.create lock plain num_threads (max_count / num_threads)) in
    elim (ticket (s.workers i).place) [
      | none ↦ none
      | some x ↦ some (Tickets.distance (2 ^ 32) s.lock.turn x)
    ]

pub turns_before-lt :
    (actions : List Action) (i d : ℕ)
    → i < num_threads
    → turns_before actions i ≡ some d
    → d < num_threads
unfolding turns_before lock_laws
turns_before-lt actions i d h e = elim (Option-cases (ticket (s.workers i).place)) [
  | inl without ↦ absurd (cc (e, without))
  | inr (x, mine) ↦
      let few =
        Tickets.distance-lt num_threads (2 ^ 32) lock tickets enough s.lock _ q i x h mine in
      ground (arith, few, mine)
]
  where
    s : Worker.System lock
    s =
        Worker.run lock plain num_threads (max_count / num_threads) actions
          (Worker.create lock plain num_threads (max_count / num_threads))

    q : Tickets.Queued num_threads (2 ^ 32) lock tickets s.lock (λ j. (s.workers j).place)
    q =
        Tickets.laws-Queued num_threads (2 ^ 32) lock tickets laws enough s.lock
          (λ j. (s.workers j).place)
          (Worker.reached num_threads (max_count / num_threads) lock plain lock_laws actions)
