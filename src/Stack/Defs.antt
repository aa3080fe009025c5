-- ===== src/Stack/Defs.antt =====
-- hardware/stack_cas_tagged.c: `push`, `pop`, `add_elements` and `main`.
use concurrencia.Base.{
  ℕ, suc, ◌+◌, ◌%◌, ◌^◌, Bool, true, false, ◌&&◌, List, [], ◌∷◌, ◌++◌, assign, ltb, ◌==◌,
  if◌then◌else◌,
}

abbrev pub num_threads : ℕ
num_threads = 4

abbrev pub operations : ℕ
operations = 10000000

-- `stack_head` and `free_nodes`.
pub data Which : Type 0 where
  stack free : Which

-- `struct node_head`: a node's address, 0 for NULL, and the number of the change.
pub record Head : Type 0 where
  pub node : ℕ
  pub aba : ℕ

-- The heads, and the fields of the nodes by their address. `made` counts the calls of `malloc`.
pub record Memory : Type 0 where
  pub head : Which → Head
  pub next : ℕ → ℕ
  pub tid : ℕ → ℕ
  pub c : ℕ → ℕ
  pub made : ℕ

-- In `pop`: before the atomic load, before the test and the load of `next`, before the
-- compare-exchange.
pub data PopPlace : Type 0 where
  pop_load : PopPlace
  look : Head → PopPlace
  take : Head → (next : ℕ) → PopPlace

-- In `push`: before the atomic load, before the store of `e->next`, before the compare-exchange.
pub data PushPlace : Type 0 where
  push_load : PushPlace
  link : Head → PushPlace
  publish : Head → PushPlace

-- In `add_elements`: before the loop's test, in a call of `pop`, before `malloc`, before the stores
-- of `tid` and of `c`, in a call of `push`, before the report of an error.
pub data Place : Type 0 where
  top : Place
  popping : Which → PopPlace → Place
  allocate : Place
  set_tid set_c : (e : ℕ) → Place
  pushing : Which → (e : ℕ) → PushPlace → Place
  error : Place

pub record Thread : Type 0 where
  pub place : Place
  pub round : ℕ

-- What an operation on a list of nodes has done, when it takes effect.
pub data Event : Type 0 where
  pushed popped : Which → (e : ℕ) → Event
  found_empty : Which → Event

pub record Turn : Type 0 where
  pub memory : Memory
  pub place : Place
  pub events : List Event

abbrev pub put_at {ℓ} : {A : Type ℓ} → Which → A → (Which → A) → Which → A
put_at stack x f stack = x
put_at stack x f free = f free
put_at free x f stack = f stack
put_at free x f free = x

-- Where `add_elements` goes on when `pop` has returned `e`, or `push` has returned.
abbrev pub after_pop : Which → ℕ → Place
after_pop free e = if e == 0 then allocate else set_tid e
after_pop stack e = if e == 0 then error else pushing free e push_load

abbrev pub after_push : Which → Place
after_push stack = popping stack pop_load
after_push free = top

abbrev pub same_head : Head → Head → Bool
same_head h k = (h.node == k.node) && (h.aba == k.aba)

-- The place after a load of the head in `pop`; an empty list shows at the load.
abbrev pub loaded : Which → Head → Memory → Turn
loaded w h m = record {
  memory = m;
  place = popping w (look h);
  events = if h.node == 0 then found_empty w ∷ [] else [];
}

abbrev pub goes : Memory → Place → Turn
goes m p = record { memory = m; place = p; events = [] }

-- `aba` is a uintptr_t of 64 bits.
abbrev pub swap_head : Which → Head → ℕ → Memory → Memory
swap_head w h e m = record m {
  head = put_at w (record { node = e; aba = (h.aba + 1) % 2 ^ 64 }) m.head;
}

unfoldable pub pop : Which → PopPlace → Memory → Turn
pop w pop_load m = loaded w (m.head w) m
pop w (look h) m =
    if h.node == 0 then goes m (after_pop w 0) else goes m (popping w (take h (m.next h.node)))
pop w (take h x) m =
    if same_head (m.head w) h
    then record {
      memory = swap_head w h x m;
      place = after_pop w h.node;
      events = popped w h.node ∷ [];
    }
    else loaded w (m.head w) m

unfoldable pub push : Which → ℕ → PushPlace → Memory → Turn
push w e push_load m = goes m (pushing w e (link (m.head w)))
push w e (link h) m = goes (record m { next = assign m.next e h.node }) (pushing w e (publish h))
push w e (publish h) m =
    if same_head (m.head w) h
    then record { memory = swap_head w h e m; place = after_push w; events = pushed w e ∷ [] }
    else goes m (pushing w e (link (m.head w)))

-- `malloc` gives the address that its calls return one after another. `elems` is the number of
-- rounds of a thread.
module _ (malloc : ℕ → ℕ) (n elems : ℕ) where
  -- One step of thread `i` in round `r`.
  unfoldable pub turn : Place → (i r : ℕ) → Memory → Turn
  turn top i r m = goes m (if ltb r elems then popping free pop_load else top)
  turn (popping w p) i r m = pop w p m
  turn allocate i r m = goes (record m { made = suc m.made }) (set_tid (malloc m.made))
  turn (set_tid e) i r m = goes (record m { tid = assign m.tid e i }) (set_c e)
  turn (set_c e) i r m = goes (record m { c = assign m.c e r }) (pushing stack e push_load)
  turn (pushing w e p) i r m = push w e p m
  turn error i r m = goes m top

  pub record System : Type 0 where
    pub memory : Memory
    pub threads : ℕ → Thread

  -- A round ends with the return to `top`.
  abbrev pub ends : Place → Place → Bool
  ends top p = false
  ends _ top = true
  ends _ p = false

  abbrev pub settle : ℕ → Place → Place → Thread
  settle r p p' = record { place = p'; round = if ends p p' then suc r else r }

  unfoldable pub count : ℕ → System → Turn
  count i s = turn (s.threads i).place i (s.threads i).round s.memory

  -- One step of the program, of thread `i`; a number that names no thread does nothing.
  unfoldable pub tick : System → ℕ → System
  tick s i =
      if ltb i n
      then record {
        memory = (count i s).memory;
        threads =
            assign s.threads i (settle (s.threads i).round (s.threads i).place (count i s).place);
      }
      else s

  unfoldable pub run : List ℕ → System → System
  run [] s = s
  run (i ∷ rest) s = run rest (tick s i)

  -- What the operations do in a run, in the order in which they take effect.
  unfoldable pub history : List ℕ → System → List Event
  history [] s = []
  history (i ∷ rest) s = (if ltb i n then (count i s).events else []) ++ history rest (tick s i)

  -- `pthread_create` for every thread, over the variables' initial values.
  abbrev pub create : System
  create = record {
    memory = record {
      head = λ w. record { node = 0; aba = 0 };
      next = λ a. 0;
      tid = λ a. 0;
      c = λ a. 0;
      made = 0;
    };
    threads = λ i. record { place = top; round = 0 };
  }
