-- ===== src/ArrayLock/VariableSize/Invariant.antt =====
-- The queue of threads behind the cells: each one waits at the cell after that of the one before it,
-- and one cell or one thread has the turn.
use concurrencia.Base.{
  ℕ, zero, suc, ◌+◌, ◌*◌, ◌%◌, ◌≤◌, ◌<◌, ◌≡◌, ◌≢◌, ap, ◌∙◌, inl, inr, Bool, true, false, some, List,
  [], ◌∷◌, arith, eq-cases, get_elem?, get_elem?-lt, length, total, total-le,
}
use concurrencia.Lock.Line.{Line, member}
use concurrencia.ArrayLock.VariableSize.Defs.{
  Memory, Local, idle, waiting, clearing, held, index, next, Fits,
}
use concurrencia.ArrayLock.VariableSize.Cells.{cell-injective, next-cell}

-- 1 for a thread in the queue, and for one inside.
abbrev pub queues : Local → ℕ
queues idle = 0
queues _ = 1

abbrev pub owns : Local → ℕ
owns (held x) = 1
owns _ = 0

abbrev pub is_on : Local → Bool
is_on idle = false
is_on _ = true

-- It has found its cell set.
abbrev pub is_first : Local → Bool
is_first (clearing x) = true
is_first (held x) = true
is_first _ = false

abbrev pub cell : Local → ℕ
cell idle = 0
cell (waiting x) = x
cell (clearing x) = x
cell (held x) = x

abbrev pub LineTo : ℕ → (padding : ℕ) → (ℕ → Local) → (tail : ℕ) → ℕ → List ℕ → Type 0
LineTo n padding ps tail =
    Line n (λ q. next padding (cell (ps q))) (λ q. cell (ps q)) (λ q. is_on (ps q))
      (index padding tail)

module _ (padding n : ℕ) where
  -- `turn` is the cell of the first thread.
  pub record Inv (s : Memory) (ps : ℕ → Local) : Type 0 where
    pub queue : List ℕ
    pub turn : ℕ
    pub turn_lt : turn < 4
    pub line : LineTo n padding ps s.tail (turn * padding) queue
    pub counted : length queue ≡ total queues n ps
    pub present : (i : ℕ) → i < n → is_on (ps i) ≡ true → (k : ℕ) × (get_elem? queue k ≡ some i)
    pub front : (i : ℕ) → i < n → is_first (ps i) ≡ true → get_elem? queue 0 ≡ some i
    pub closed : (y : ℕ) → y < 4 → y ≢ turn → s.flag (y * padding) ≡ 0
    pub one : total owns n ps + s.flag (turn * padding) ≡ 1

module _ (padding n : ℕ) (fits : Fits padding) (few : n ≤ 4) where
  queues-le : (p : Local) → queues p ≤ 1
  queues-le p = ground arith

  -- The thread in place `k` waits at the cell `k` after the first.
  pub placed :
      (ps : ℕ → Local) (tail y : ℕ) (queue : List ℕ) (k q : ℕ)
      → y < 4
      → LineTo n padding ps tail (y * padding) queue
      → get_elem? queue k ≡ some q
      → cell (ps q) ≡ ((y + k) % 4) * padding
  placed ps tail y [] k q h line e = absurd (cc e)
  placed ps tail y (x ∷ rest) zero q h ((l, o, p), line) e =
      let e' : x ≡ q = cc e in rw (← e') (p ∙ ap (λ z. z * padding) (omega (arith, h)))
  placed ps tail y (x ∷ rest) (suc k) q h ((l, o, p), line) e =
      placed ps tail (suc y % 4) rest k q (omega arith) (rw (p, next-cell padding fits y h) at line)
        e
      ∙ ap (λ z. z * padding) (omega (arith, h))

  module _ (s : Memory) (ps : ℕ → Local) (inv : Inv padding n s ps) where
    open inv use {queue, turn, turn_lt, line, counted, present, front, closed, one}

    pub on_queue : (k q : ℕ) → get_elem? queue k ≡ some q → (q < n) × (is_on (ps q) ≡ true)
    on_queue =
        member n (λ q. next padding (cell (ps q))) (λ q. cell (ps q)) (λ q. is_on (ps q))
          (index padding s.tail) (turn * padding) queue line

    pub place_lt : (k q : ℕ) → get_elem? queue k ≡ some q → k < 4
    place_lt k q e =
        omega (arith, get_elem?-lt queue k q e, counted, total-le queues queues-le n ps, few)

    -- Who waits at the cell of the first is the first.
    pub at_turn : (k q : ℕ) → get_elem? queue k ≡ some q → cell (ps q) ≡ turn * padding → k ≡ 0
    at_turn k q e f =
        let here = placed ps s.tail turn queue k q turn_lt line e in
        let same : (turn + k) % 4 ≡ turn =
          cell-injective padding fits ((turn + k) % 4) turn (omega arith) turn_lt (cc (here, f)) in
        omega (arith, same, place_lt k q e, turn_lt)

    -- A thread that finds its cell set is the first.
    pub found :
        (i : ℕ)
        → i < n
        → is_on (ps i) ≡ true
        → s.flag (cell (ps i)) ≢ 0
        → get_elem? queue 0 ≡ some i
    found i h o d =
        let (k, e) = present i h o in
        let here = placed ps s.tail turn queue k i turn_lt line e in
        elim (eq-cases ((turn + k) % 4) turn) [
          | inl f ↦ let z : k ≡ 0 = omega (arith, f, place_lt k i e, turn_lt) in rw z at e
          | inr f ↦ absurd (d (rw here (closed ((turn + k) % 4) (omega arith) f)))
        ]
