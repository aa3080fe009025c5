-- ===== src/Lock/Tickets/Waiting.antt =====
-- How long a thread waits: how many turns come before its ticket's.
use concurrencia.Base.{
  ℕ, ◌+◌, ◌-◌, ◌≤◌, ◌<◌, ◌≡◌, some, arith, ltb, if◌then◌else◌, total-le, get_elem?-lt,
}
use concurrencia.Lock.Defs.{Lock}
use concurrencia.Lock.Tickets.Defs.{Tickets}
use concurrencia.Lock.Tickets.Queue.{holds, holds-le, Queued}

-- The turns from `turn` to `x`, modulo `m`.
abbrev pub distance : ℕ → ℕ → ℕ → ℕ
distance m turn x = if ltb x turn then x + m - turn else x - turn

module _ (n m : ℕ) (l : Lock) (t : Tickets m l) (few : n ≤ m) where
  open l use {Shared, Local}
  open t use {turn, ticket}

  -- Fewer turns come before a thread's than there are threads.
  pub distance-lt :
      (s : Shared) (ps : ℕ → Local)
      → Queued n m l t s ps
      → (i x : ℕ) → i < n
      → ticket (ps i) ≡ some x
      → distance m (turn s) x < n
  distance-lt s ps q i x h e =
      let (k, at) = q.present i x h e in
      let short : k < n = omega (
        arith,
        get_elem?-lt q.queue k i at,
        q.counted,
        total-le (holds m l t) (holds-le m l t) n ps,
      ) in
      ground (arith, (q.placed k i at).1, q.turn_lt, few)
