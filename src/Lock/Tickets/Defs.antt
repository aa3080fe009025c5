-- ===== src/Lock/Tickets/Defs.antt =====
-- What a lock with tickets is: the tickets, the kinds of its steps, its laws.
use concurrencia.Base.{
  ℕ, ◌+◌, ◌-◌, ◌≤◌, ◌<◌, ◌≡◌, ◌⊎◌, Bool, true, false, Option, none, some, ltb, if◌then◌else◌,
}
use concurrencia.Lock.Defs.{outside, inside, is_busy, follows, Lock}

-- The `k`-th number after `t`, modulo `m`.
abbrev pub after : ℕ → ℕ → ℕ → ℕ
after m t k = if ltb (t + k) m then t + k else t + k - m

module _ (m : ℕ) (l : Lock) where
  open l use {Shared, Local, shared, local, step, phase}

  -- The next ticket, the ticket that is served, and the ticket of a thread.
  pub record Tickets : Type 0 where
    pub number : Shared → ℕ
    pub turn : Shared → ℕ
    pub ticket : Local → Option ℕ
    pub served : Local → Bool

  -- A step takes the next ticket, or keeps tickets and turn, or ends the turn of a thread served. A
  -- thread is served from when it has seen its ticket's turn.
  pub data Kind (t : Tickets) (s : Shared) (p : Local) (s' : Shared) (p' : Local) : Type 0 where
    take :
        t.ticket p ≡ none
        → t.ticket p' ≡ some (t.number s)
        → t.number s' ≡ after m (t.number s) 1
        → t.turn s' ≡ t.turn s
        → t.served p' ≡ false
        → Kind t s p s' p'
    stay :
        t.ticket p' ≡ t.ticket p
        → t.number s' ≡ t.number s
        → t.turn s' ≡ t.turn s
        → (t.served p' ≡ true → (t.served p ≡ true) ⊎ (t.ticket p ≡ some (t.turn s)))
        → Kind t s p s' p'
    give :
        t.served p ≡ true
        → t.ticket p' ≡ none
        → t.number s' ≡ t.number s
        → t.turn s' ≡ after m (t.turn s) 1
        → t.served p' ≡ false
        → Kind t s p s' p'

  pub record TicketLaws (t : Tickets) : Type 0 where
    pub kind :
        (i c : ℕ) (s : Shared) (p : Local)
        → t.number s < m
        → t.turn s < m
        → Kind t s p (step i c s p).0 (step i c s p).1
    pub first_turn : (t.turn shared < m) × (t.number shared ≡ t.turn shared)
    pub first_local : (i : ℕ) → (phase (local i) ≡ outside) × (t.served (local i) ≡ false)
    pub outside_ticket : (p : Local) → phase p ≡ outside → t.ticket p ≡ none
    pub inside_served : (p : Local) → phase p ≡ inside → t.served p ≡ true
    pub orderly :
        (i c : ℕ) (s : Shared) (p : Local) → follows (phase p) (phase (step i c s p).1) ≡ true
    pub rank : Local → ℕ
    pub worst : ℕ
    pub rank-le : (p : Local) → rank p ≤ worst
    -- A call comes nearer to its return if it has no ticket, or the ticket whose turn it is.
    pub nearer :
        (i : ℕ) (s : Shared) (p : Local)
        → is_busy (phase p) ≡ true
        → (t.ticket p ≡ none) ⊎ (t.ticket p ≡ some (t.turn s))
        → (c : ℕ) × (rank (step i c s p).1 < rank p)
