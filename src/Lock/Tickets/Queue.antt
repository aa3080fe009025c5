-- ===== src/Lock/Tickets/Queue.antt =====
-- The queue of threads that the tickets stand for, and what its invariant gives.
use concurrencia.Base.{
  ℕ, ◌+◌, ◌≤◌, ◌<◌, ◌≡◌, true, Option, none, some, List, arith, assign, total, total-assign,
  total-le, length, get_elem?, get_elem?-lt,
}
use concurrencia.Lock.Defs.{Lock}
use concurrencia.Lock.Tickets.Defs.{after, Tickets}

abbrev pub one_if_some : Option ℕ → ℕ
one_if_some none = 0
one_if_some (some _) = 1

module _ (m : ℕ) (l : Lock) (t : Tickets m l) where
  open l use {Local}
  open t use {ticket}

  abbrev pub holds : Local → ℕ
  holds p = one_if_some (ticket p)

  pub holds-le : (p : Local) → holds p ≤ 1
  holds-le p = ground arith

module _ (n m : ℕ) (l : Lock) (t : Tickets m l) where
  open l use {Shared, Local}
  open t use {number, turn, ticket, served}

  -- The queue behind the tickets: who stands where, everybody with a ticket, the served one first.
  pub record Queued (s : Shared) (ps : ℕ → Local) : Type 0 where
    pub queue : List ℕ
    pub turn_lt : turn s < m
    pub number_eq : number s ≡ after m (turn s) (length queue)
    pub counted : length queue ≡ total (holds m l t) n ps
    pub placed :
        (k i : ℕ)
        → get_elem? queue k ≡ some i
        → (i < n) × (ticket (ps i) ≡ some (after m (turn s) k))
    pub present :
        (i x : ℕ) → i < n → ticket (ps i) ≡ some x → (k : ℕ) × (get_elem? queue k ≡ some i)
    pub attending : (i : ℕ) → i < n → served (ps i) ≡ true → get_elem? queue 0 ≡ some i

module _ (n m : ℕ) (l : Lock) (t : Tickets m l) (few : n ≤ m) where
  open l use {Shared, Local}
  open t use {number, turn, ticket, served}

  module _ (s : Shared) (ps : ℕ → Local) (q : Queued n m l t s ps) where
    open q use {queue, turn_lt, number_eq, counted, placed, present, attending}

    pub length-le : length queue ≤ m
    length-le = omega (arith, counted, total-le (holds m l t) (holds-le m l t) n ps, few)

    -- A ticket tells its place.
    pub place_of :
        (k i x : ℕ)
        → get_elem? queue k ≡ some i
        → ticket (ps i) ≡ some (after m (turn s) x)
        → x < m
        → k ≡ x
    place_of k i x e f h =
        ground (arith, placed k i e, get_elem?-lt queue k i e, length-le, turn_lt)

    -- The thread whose ticket's turn it is stands first.
    pub first_of_turn : (i : ℕ) → i < n → ticket (ps i) ≡ some (turn s) → get_elem? queue 0 ≡ some i
    first_of_turn i h e =
        let (k, at) = present i (turn s) h e in
        let first : k ≡ 0 = place_of k i 0 at (ground arith) (omega arith) in rw first at at

    pub number_lt : number s < m
    number_lt = ground (arith, number_eq, turn_lt, length-le)

    pub recount :
        (i : ℕ) (below : i < n) (p' : Local)
        → total (holds m l t) n (assign ps i p') + holds m l t (ps i)
          ≡ total (holds m l t) n ps + holds m l t p'
    recount i below p' = total-assign (holds m l t) n ps i p' below
