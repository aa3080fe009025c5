-- ===== src/QueueLock/Clh/Defs.antt =====
-- spinlocks/clh_spinlock.c: the nodes, `lock` and `unlock`.
use concurrencia.Base.{ℕ, ◌≡◌, ◌≢◌, Bool, true, false, assign, ◌==◌, if◌then◌else◌}
use concurrencia.Lock.{Phase, outside, entering, inside, leaving, Lock}

-- What `malloc` gives thread `i`, and what the fields of its node hold then.
pub record Malloc : Type 0 where
  pub address : ℕ → ℕ
  pub locked : ℕ → ℕ
  pub prev : ℕ → ℕ

-- The address of the static node.
abbrev pub lock_node : ℕ
lock_node = 0

-- Each call of `malloc` gives memory that nothing else has.
pub record Fresh (m : Malloc) : Type 0 where
  pub apart : (i j : ℕ) → i ≢ j → m.address i ≢ m.address j
  pub unused : (i : ℕ) → m.address i ≢ lock_node

-- The fields of `struct clh_node` by the node's address, and `tail`.
pub record Memory : Type 0 where
  pub locked : ℕ → ℕ
  pub prev : ℕ → ℕ
  pub tail : ℕ

-- Each place with the thread's `node`. In `lock`: before the exchange, the store of `node->prev`, and
-- the load of `predecessor->locked`. In `unlock`: before the load of `prev`, and the store of
-- `tmp->locked`, where the thread has `pred` as its node already.
pub data Local : Type 0 where
  idle marked : (node : ℕ) → Local
  linking spinning : (node predecessor : ℕ) → Local
  held : (node : ℕ) → Local
  freeing : (tmp pred : ℕ) → Local

unfoldable pub step : ℕ → ℕ → Memory → Local → Memory × Local
step i c s (idle x) = (record s { locked = assign s.locked x 1 }, marked x)
step i c s (marked x) = (record s { tail = x }, linking x s.tail)
step i c s (linking x p) = (record s { prev = assign s.prev x p }, spinning x p)
step i c s (spinning x p) = (s, if s.locked p == 0 then held x else spinning x p)
step i c s (held x) = (s, freeing x (s.prev x))
step i c s (freeing x p) = (record s { locked = assign s.locked x 0 }, idle p)

abbrev pub phase : Local → Phase
phase (idle x) = outside
phase (held x) = inside
phase (freeing x p) = leaving
phase _ = entering

abbrev pub lock : Malloc → Lock
lock m = record {
  Shared = Memory;
  Local = Local;
  shared = record { locked = assign m.locked lock_node 0; prev = m.prev; tail = lock_node };
  local = λ i. idle (m.address i);
  step = step;
  phase = phase;
}

-- What the invariant says of a thread: its node, the node that it follows, whether it is in the
-- queue, and whether it has come to its turn.
abbrev pub node : Local → ℕ
node (idle x) = x
node (marked x) = x
node (linking x p) = x
node (spinning x p) = x
node (held x) = x
node (freeing x p) = x

-- The variable `node` of `count`; `unlock` sets it to the predecessor's node before its store.
abbrev pub variable : Local → ℕ
variable (freeing x p) = p
variable (idle x) = x
variable (marked x) = x
variable (linking x p) = x
variable (spinning x p) = x
variable (held x) = x

abbrev pub pred : (ℕ → ℕ) → Local → ℕ
pred prev (linking x p) = p
pred prev (spinning x p) = p
pred prev (held x) = prev x
pred prev (freeing x p) = p
pred prev _ = 0

abbrev pub is_on : Local → Bool
is_on (idle x) = false
is_on (marked x) = false
is_on _ = true

abbrev pub is_first : Local → Bool
is_first (held x) = true
is_first (freeing x p) = true
is_first _ = false

abbrev pub is_shut : Local → Bool
is_shut (idle x) = false
is_shut _ = true

-- Once linked, `node->prev` is the predecessor.
abbrev pub Tied : (ℕ → ℕ) → Local → Type 0
Tied prev (spinning x p) = prev x ≡ p
Tied prev _ = Unit
